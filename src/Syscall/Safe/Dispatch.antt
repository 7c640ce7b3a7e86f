-- ===== src/Syscall/Safe/Dispatch.antt =====
-- The same for do_syscall with its table.
use native.Mathlib.Decide.{ℕ_discrete}
use run_mos_on_risc_v.Prelude.{
  ℕ, zero, suc, ◌+◌, ◌%◌, ◌<◌, ltb, length, ◌≡◌, ◌≢◌, ◌⊎◌, refl, true, List, [], ◌∷◌, arith, inl,
  inr, Bool-cases,
}
use run_mos_on_risc_v.Prelude.Proc.{Run, ok, err, left, panic, wild, Ends, IsSafe}
use run_mos_on_risc_v.Kernel.{Kernel}
use run_mos_on_risc_v.Mmu.{word_mod}
use run_mos_on_risc_v.Syscall.Dispatch.{
  Handler, handler, syscall_table, returned, max_sysno, set_a0, do_syscall,
}
use run_mos_on_risc_v.Sched.Invariant.{IsOk, IsOk-same, Keeps}
use run_mos_on_risc_v.Syscall.Invariant.{do_syscall-Keeps}
use run_mos_on_risc_v.Syscall.{Machine}
use run_mos_on_risc_v.Syscall.Message.{sys_putchar}
use run_mos_on_risc_v.Syscall.Safe.{
  IsUsable, sys_set_env_status-IsSafe, sys_getenvid-IsSafe, sys_set_tlb_mod_entry-IsSafe,
  sys_set_trapframe-IsSafe, sys_print_cons-IsSafe,
}
use run_mos_on_risc_v.Syscall.Safe.Memory.{
  waits, sys_yield-IsSafe, sys_mem_alloc-IsSafe, sys_mem_map-IsSafe, sys_mem_unmap-IsSafe,
  sys_dev_req-IsSafe, sys_ipc_recv-IsSafe,
}
use run_mos_on_risc_v.Syscall.Safe.Message.{sys_ipc_try_send-IsSafe, sys_exofork-IsSafe}

-- SYS_env_destroy
abbrev pub sys_env_destroy_no : ℕ
sys_env_destroy_no = 4

abbrev pub AllSafe : ℕ → Kernel → List Handler → Type 0
AllSafe i k [] = Unit {0}
AllSafe i k (f ∷ fs) =
    ((a b c d e : ℕ) → i ≢ sys_env_destroy_no → IsSafe (f a b c d e k)) × AllSafe (suc i) k fs

pub handler-IsSafe :
    (fs : List Handler) (i n a b c d e : ℕ) (k : Kernel)
    → AllSafe i k fs
    → n < length fs
    → i + n ≢ sys_env_destroy_no
    → IsSafe (handler fs n a b c d e k)
unfolding handler
handler-IsSafe [] i n a b c d e k h l m = absurd (omega arith)
handler-IsSafe (f ∷ fs) i zero a b c d e k h l m =
    let z : i + 0 ≡ i = omega arith in h.0 a b c d e (rw z at m)
handler-IsSafe (f ∷ fs) i (suc n) a b c d e k h l m =
    let z : i + suc n ≡ suc i + n = omega arith in
    handler-IsSafe fs (suc i) n a b c d e k h.1 (omega arith) (rw z at m)

pub table-AllSafe :
    (m : Machine) (k : Kernel)
    → ((s : Kernel) → IsSafe (m.cgetc s))
    → IsUsable k
    → AllSafe 0 k (syscall_table m)
unfolding syscall_table sys_putchar
table-AllSafe m k console r = (
  (λ a b c d e _. tt),
  (
    (λ a b c d e _. sys_print_cons-IsSafe m a b k),
    (
      (λ a b c d e _. sys_getenvid-IsSafe k r),
      (
        (λ a b c d e _. sys_yield-IsSafe k r),
        (
          (λ a b c d e h. absurd (omega (arith, h))),
          (
            (λ a b c d e _. sys_set_tlb_mod_entry-IsSafe k r a b),
            (
              (λ a b c d e _. sys_mem_alloc-IsSafe k r a b c),
              (
                (λ a b c d e _. sys_mem_map-IsSafe k r a b c d e),
                (
                  (λ a b c d e _. sys_mem_unmap-IsSafe k r a b),
                  (
                    (λ a b c d e _. sys_exofork-IsSafe k r),
                    (
                      (λ a b c d e _. sys_set_env_status-IsSafe k r a b),
                      (
                        (λ a b c d e _. sys_set_trapframe-IsSafe k r m a b),
                        (
                          (λ a b c d e _. tt),
                          (
                            (λ a b c d e _. sys_ipc_try_send-IsSafe k r a b c d),
                            (
                              (λ a b c d e _. sys_ipc_recv-IsSafe k r a),
                              (
                                (λ a b c d e _. console k),
                                ((λ a b c d e _. sys_dev_req-IsSafe k r a b), tt),
                              ),
                            ),
                          ),
                        ),
                      ),
                    ),
                  ),
                ),
              ),
            ),
          ),
        ),
      ),
    ),
  ),
)

pub table_length : (m : Machine) (n : ℕ) → ltb n max_sysno ≡ true → n < length (syscall_table m)
unfolding syscall_table
table_length m n h = ground arith

pub returned-IsSafe : (r : Run Kernel ℕ) → IsSafe r → IsSafe (returned r set_a0)
returned-IsSafe (ok v k) h = tt
returned-IsSafe (err e k) h = tt
returned-IsSafe (left k) h = tt
returned-IsSafe panic h = tt
returned-IsSafe wild h = h

pub destroys_or_not : (n : ℕ) → (n ≡ sys_env_destroy_no) ⊎ (n ≢ sys_env_destroy_no)
destroys_or_not n = elim (ℕ_discrete n sys_env_destroy_no) [ yes p ↦ inl p | no p ↦ inr p ]

pub others-IsSafe :
    (m : Machine) (k : Kernel)
    → ((s : Kernel) → IsSafe (m.cgetc s))
    → IsUsable k
    → k.stack_tf.regs 10 ≢ sys_env_destroy_no
    → IsSafe (do_syscall m k)
unfolding do_syscall
others-IsSafe m k console r c = elim (Bool-cases (ltb (k.stack_tf.regs 10) max_sysno)) [
  | inr b ↦ rw b tt
  | inl b ↦
      let s = record k {
        stack_tf = record (k.stack_tf) { sepc = (k.stack_tf.sepc + 4) % word_mod };
      } in
      let ready : IsUsable s = record {
        well = IsOk-same k s refl refl refl (λ e. refl) r.well;
        someone = r.someone;
        three = r.three;
        waiting = r.waiting;
      } in
      rw b (
        returned-IsSafe _ (
          handler-IsSafe (syscall_table m) 0 (k.stack_tf.regs 10) _ _ _ _ _ s
            (table-AllSafe m s console ready) (table_length m (k.stack_tf.regs 10) b)
            (let z : 0 + k.stack_tf.regs 10 ≡ k.stack_tf.regs 10 = omega arith in rw z c)))
]

-- If waiting for a character keeps the lists of environments well formed and follows no pointer that was not
-- set, then in a state with well-formed lists, in which the current environment is runnable, each status is
-- one of the three of env.h, and no runnable environment waits for a message, every system call, with every
-- number and all arguments, keeps the lists well formed, whether it returns a value or an error or switches
-- to another environment; and it neither follows a pointer that was not set nor inserts into the list of
-- runnable environments what is on it or removes what is not, unless the call is sys_env_destroy.
pub do_syscall-IsSafe :
    (m : Machine)
    → Keeps m.cgetc
    → ((s : Kernel) → IsSafe (m.cgetc s))
    → (k : Kernel) → IsUsable k
    → Ends (λ _. IsOk) IsOk (do_syscall m k)
      × (IsSafe (do_syscall m k) ⊎ (k.stack_tf.regs 10 ≡ sys_env_destroy_no))
do_syscall-IsSafe m waits console k r = (
  do_syscall-Keeps m waits k r.well,
  elim (destroys_or_not (k.stack_tf.regs 10)) [
    | inl d ↦ inr d
    | inr n ↦ inl (others-IsSafe m k console r n)
  ],
)

-- ===== src/Syscall/Invariant.antt =====
-- do_syscall keeps the invariant of the kernel, whatever the caller asks for.
use run_mos_on_risc_v.Prelude.{
  ℕ, zero, suc, ◌+◌, ◌%◌, refl, List, [], ◌∷◌, Bool-cases, inl, inr, ltb,
}
use run_mos_on_risc_v.Prelude.Proc.{Run, ok, err, left, panic, wild, Ends}
use run_mos_on_risc_v.Mmu.{word_mod}
use run_mos_on_risc_v.Kernel.{Kernel}
use run_mos_on_risc_v.Sched.Invariant.{IsOk, IsOk-same, Keeps}
use run_mos_on_risc_v.Syscall.{Machine}
use run_mos_on_risc_v.Syscall.Dispatch.{
  Handler, handler, syscall_table, returned, max_sysno, set_a0, do_syscall,
}
use run_mos_on_risc_v.Syscall.Calls.{
  sys_getenvid-Keeps, sys_yield-Keeps, sys_set_tlb_mod_entry-Keeps, sys_mem_alloc-Keeps,
  sys_mem_map-Keeps, sys_mem_unmap-Keeps, sys_putchar-Keeps, sys_print_cons-Keeps,
  sys_set_trapframe-Keeps, sys_dev_req-Keeps,
}
use run_mos_on_risc_v.Syscall.Wake.{sys_set_env_status-Keeps}
use run_mos_on_risc_v.Syscall.Ipc.{sys_ipc_recv-Keeps, sys_ipc_try_send-Keeps}
use run_mos_on_risc_v.Syscall.Fork.{sys_exofork-Keeps}
use run_mos_on_risc_v.Syscall.Destroy.{sys_env_destroy-Keeps}

abbrev AllKeep : List Handler → Type 0
AllKeep [] = Unit {0}
AllKeep (f ∷ fs) = ((a b c d e : ℕ) → Keeps (f a b c d e)) × AllKeep fs

handler-Keeps : (fs : List Handler) (n a b c d e : ℕ) → AllKeep fs → Keeps (handler fs n a b c d e)
unfolding handler
handler-Keeps [] n a b c d e h = λ k i. tt
handler-Keeps (f ∷ fs) zero a b c d e h = h.0 a b c d e
handler-Keeps (f ∷ fs) (suc n) a b c d e h = handler-Keeps fs n a b c d e h.1

table-AllKeep : (m : Machine) → Keeps m.cgetc → AllKeep (syscall_table m)
unfolding syscall_table
table-AllKeep m waits = (
  (λ a b c d e. sys_putchar-Keeps a),
  (
    (λ a b c d e. sys_print_cons-Keeps m a b),
    (
      (λ a b c d e. sys_getenvid-Keeps),
      (
        (λ a b c d e. sys_yield-Keeps),
        (
          (λ a b c d e. sys_env_destroy-Keeps a),
          (
            (λ a b c d e. sys_set_tlb_mod_entry-Keeps a b),
            (
              (λ a b c d e. sys_mem_alloc-Keeps a b c),
              (
                (λ a b c d e. sys_mem_map-Keeps a b c d e),
                (
                  (λ a b c d e. sys_mem_unmap-Keeps a b),
                  (
                    (λ a b c d e. sys_exofork-Keeps),
                    (
                      (λ a b c d e. sys_set_env_status-Keeps a b),
                      (
                        (λ a b c d e. sys_set_trapframe-Keeps m a b),
                        (
                          (λ a b c d e k i. tt),
                          (
                            (λ a b c d e. sys_ipc_try_send-Keeps a b c d),
                            (
                              (λ a b c d e. sys_ipc_recv-Keeps a),
                              ((λ a b c d e. waits), ((λ a b c d e. sys_dev_req-Keeps a b), tt)),
                            ),
                          ),
                        ),
                      ),
                    ),
                  ),
                ),
              ),
            ),
          ),
        ),
      ),
    ),
  ),
)

answer : (v : ℕ) (k : Kernel) → IsOk k → IsOk (set_a0 v k)
answer v k h = IsOk-same k (set_a0 v k) refl refl refl (λ e. refl) h

returned-IsOk :
    (r : Run Kernel ℕ) → Ends (λ _. IsOk) IsOk r → Ends (λ _. IsOk) IsOk (returned r set_a0)
returned-IsOk (ok v k) h = answer v k h
returned-IsOk (err e k) h = answer _ k h
returned-IsOk (left k) h = h
returned-IsOk panic h = tt
returned-IsOk wild h = tt

-- If waiting for a character keeps the invariant, every system call does, with every number and all
-- arguments, whether it returns a value or an error or switches to another environment: the list of
-- runnable environments holds each of them once and nothing else, the free list holds free
-- environments, each once, and the current environment is not free.
pub do_syscall-Keeps :
    (m : Machine) → Keeps m.cgetc → (k : Kernel) → IsOk k → Ends (λ _. IsOk) IsOk (do_syscall m k)
unfolding do_syscall
do_syscall-Keeps m waits k h = elim (Bool-cases (ltb (k.stack_tf.regs 10) max_sysno)) [
  | inl b ↦ rw b (
      returned-IsOk _ (
        handler-Keeps (syscall_table m) (k.stack_tf.regs 10) (k.stack_tf.regs 11)
          (k.stack_tf.regs 12) (k.stack_tf.regs 13) (k.stack_tf.regs 14) (k.stack_tf.regs 15)
          (table-AllKeep m waits)
          (record k { stack_tf = record (k.stack_tf) { sepc = (k.stack_tf.sepc + 4) % word_mod } })
          (IsOk-same k
            (record k {
              stack_tf = record (k.stack_tf) { sepc = (k.stack_tf.sepc + 4) % word_mod };
            })
            refl refl refl (λ e. refl) h)))
  | inr b ↦ rw b (answer _ k h)
]

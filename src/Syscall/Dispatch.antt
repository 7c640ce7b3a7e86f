-- ===== src/Syscall/Dispatch.antt =====
-- kern/syscall_all.c: syscall_table and do_syscall.
use run_mos_on_risc_v.Prelude.{
  ℕ, zero, suc, ◌+◌, ◌-◌, ◌%◌, List, [], ◌∷◌, ltb, if◌then◌else◌, update,
}
use run_mos_on_risc_v.Prelude.Proc.{
  Run, ok, err, left, panic, wild, Proc, Error, bad_env, inval, no_mem, no_sys, no_free_env,
  ipc_not_recv, no_disk, max_open, not_found, bad_path, file_exists, not_exec, no_ring_desc,
}
use run_mos_on_risc_v.Mmu.{word_mod}
use run_mos_on_risc_v.Kernel.{Kernel}
use run_mos_on_risc_v.Syscall.{
  Machine, sys_getenvid, sys_yield, sys_env_destroy, sys_set_tlb_mod_entry, sys_mem_alloc,
  sys_mem_map, sys_mem_unmap, sys_exofork, sys_set_env_status, sys_set_trapframe,
}
use run_mos_on_risc_v.Syscall.Message.{
  sys_putchar, sys_print_cons, sys_ipc_recv, sys_ipc_try_send, sys_dev_req,
}

-- The codes of include/error.h.
abbrev pub code : Error → ℕ
code bad_env = 2
code inval = 3
code no_mem = 4
code no_sys = 5
code no_free_env = 6
code ipc_not_recv = 7
code no_disk = 8
code max_open = 9
code not_found = 10
code bad_path = 11
code file_exists = 12
code not_exec = 13
code no_ring_desc = 14

-- What a call returns in 32 bits: a value, or the error negated.
abbrev pub returned : Run Kernel ℕ → (ℕ → Kernel → Kernel) → Run Kernel (Unit {0})
returned (ok v k) f = ok tt (f v k)
returned (err e k) f = ok tt (f (word_mod - code e) k)
returned (left k) f = left k
returned panic f = panic
returned wild f = wild

abbrev pub Handler : Type 0
Handler = ℕ → ℕ → ℕ → ℕ → ℕ → Proc Kernel ℕ

-- syscall_table, in the order of the numbers of include/syscall.h
unfoldable pub syscall_table : Machine → List Handler
syscall_table h =
    (λ a b c d e. sys_putchar a)
    ∷ (λ a b c d e. sys_print_cons h a b)
    ∷ (λ a b c d e. sys_getenvid)
    ∷ (λ a b c d e. sys_yield)
    ∷ (λ a b c d e. sys_env_destroy a)
    ∷ (λ a b c d e. sys_set_tlb_mod_entry a b)
    ∷ (λ a b c d e. sys_mem_alloc a b c)
    ∷ (λ a b c d e. sys_mem_map a b c d e)
    ∷ (λ a b c d e. sys_mem_unmap a b)
    ∷ (λ a b c d e. sys_exofork)
    ∷ (λ a b c d e. sys_set_env_status a b)
    ∷ (λ a b c d e. sys_set_trapframe h a b)
    ∷ (λ a b c d e k. panic)
    ∷ (λ a b c d e. sys_ipc_try_send a b c d)
    ∷ (λ a b c d e. sys_ipc_recv a)
    ∷ (λ a b c d e. h.cgetc)
    ∷ (λ a b c d e. sys_dev_req a b)
    ∷ []

unfoldable pub handler : List Handler → ℕ → Handler
handler [] n = λ a b c d e k. wild
handler (f ∷ fs) zero = f
handler (f ∷ fs) (suc n) = handler fs n

-- MAX_SYSNO
abbrev pub max_sysno : ℕ
max_sysno = 17

abbrev pub set_a0 : ℕ → Kernel → Kernel
set_a0 v k = record k { stack_tf = record (k.stack_tf) { regs = update k.stack_tf.regs 10 v } }

-- do_syscall on the trapframe that the trap has left below KSTACKTOP. A negative number is, as a
-- word, above every number of a call.
unfoldable pub do_syscall : Machine → Proc Kernel (Unit {0})
unfolding handler syscall_table
do_syscall h k =
    if ltb (regs 10) max_sysno
    then returned
        (handler (syscall_table h) (regs 10) (regs 11) (regs 12) (regs 13) (regs 14) (regs 15)
          (record k { stack_tf = record (k.stack_tf) { sepc = (k.stack_tf.sepc + 4) % word_mod } }))
        set_a0
    else ok tt (set_a0 (word_mod - code no_sys) k)
  where
    regs : ℕ → ℕ
    regs = k.stack_tf.regs

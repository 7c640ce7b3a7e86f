-- ===== src/Syscall.antt =====
-- kern/syscall_all.c: the system calls on environments and memory. The calls that send messages and
-- reach devices, and the dispatch, are in the children.
pub mod Message
pub mod Dispatch
pub mod Calls
pub mod Wake
pub mod Ipc
pub mod Life
pub mod Fork
pub mod Destroy
pub mod Safe
pub mod Invariant
pub mod Stranger
pub mod Delivery
use run_mos_on_risc_v.Prelude.{
  ℕ, ◌+◌, ◌%◌, bit_or, Bool, true, false, ◌&&◌, ◌||◌, not, Option, none, some, ltb, leb, ◌==◌,
  if◌then◌else◌, update,
}
use run_mos_on_risc_v.Prelude.Proc.{
  Run, ok, err, left, panic, wild, Proc, pure, fail, stop, get, modify, ◌>>=◌, ◌>>◌, Error, inval,
}
use run_mos_on_risc_v.Mmu.{word_mod, utemp, utop, pte_u}
use run_mos_on_risc_v.Pmap.{Mem, page_alloc, page_insert, page_lookup, page_remove}
use run_mos_on_risc_v.Kernel.{
  Kernel, Env, Trapframe, in_mm, set_env, cur, sched_insert_tail, sched_remove, env_runnable,
  env_not_runnable,
}
use run_mos_on_risc_v.Env.{envid2env, env_alloc}
use run_mos_on_risc_v.Sched.{schedule, env_destroy, is_cur}

-- What the kernel reads through the MMU from the user's part of the address space, and the console
-- of the machine: the character at an address, the trapframe at an address, and the system call that
-- waits for a character.
pub record Machine : Type 0 where
  pub user_byte : Kernel → ℕ → ℕ
  pub user_frame : Kernel → ℕ → Trapframe
  pub cgetc : Proc Kernel ℕ

abbrev pub is_illegal_va : ℕ → Bool
is_illegal_va va = ltb va utemp || leb utop va

-- va + len < va || va < UTEMP || va + len > UTOP, in 32 bits
abbrev pub is_illegal_va_range : ℕ → ℕ → Bool
is_illegal_va_range va len =
    if len == 0
    then false
    else (ltb ((va + len) % word_mod) va || ltb va utemp || ltb utop ((va + len) % word_mod))

-- try(assert_user_va(va))
abbrev pub assert_user_va : ℕ → Proc Kernel (Unit {0})
assert_user_va va k = if is_illegal_va va then err inval k else ok tt k

unfoldable pub sys_getenvid : Proc Kernel ℕ
sys_getenvid = do c ← cur; get (λ (k : Kernel). (k.envs c).id)

unfoldable pub sys_yield : Proc Kernel ℕ
sys_yield = do schedule true; pure 0

unfoldable pub sys_env_destroy : ℕ → Proc Kernel ℕ
sys_env_destroy envid = do e ← envid2env envid true; env_destroy e; pure 0

unfoldable pub sys_set_tlb_mod_entry : ℕ → ℕ → Proc Kernel ℕ
sys_set_tlb_mod_entry envid func = do
  e ← envid2env envid true
  set_env e (λ r. record r { user_tlb_mod_entry = func })
  pure 0

unfoldable pub sys_mem_alloc : ℕ → ℕ → ℕ → Proc Kernel ℕ
sys_mem_alloc envid va perm = do
  assert_user_va va
  e ← envid2env envid true
  pp ← in_mm page_alloc
  r ← get (λ (k : Kernel). k.envs e)
  in_mm (page_insert (r.pgdir) (r.asid) pp va (bit_or perm pte_u))
  pure 0

-- The page at srcva goes to dstva; a null page is refused.
unfoldable pub map_found : ℕ → ℕ → ℕ → Option (ℕ × ℕ) → Proc Kernel ℕ
map_found dst dstva perm none = fail inval
map_found dst dstva perm (some (pp, _)) = do
  r ← get (λ (k : Kernel). k.envs dst)
  in_mm (page_insert (r.pgdir) (r.asid) pp dstva perm)
  pure 0

unfoldable pub sys_mem_map : ℕ → ℕ → ℕ → ℕ → ℕ → Proc Kernel ℕ
unfolding map_found
sys_mem_map srcid srcva dstid dstva perm = do
  assert_user_va srcva
  assert_user_va dstva
  src ← envid2env srcid true
  dst ← envid2env dstid true
  r ← get (λ (k : Kernel). k.envs src)
  found ← in_mm (page_lookup (r.pgdir) srcva)
  map_found dst dstva (bit_or perm pte_u) found

unfoldable pub sys_mem_unmap : ℕ → ℕ → Proc Kernel ℕ
sys_mem_unmap envid va = do
  assert_user_va va
  e ← envid2env envid true
  r ← get (λ (k : Kernel). k.envs e)
  in_mm (page_remove (r.pgdir) (r.asid) va)
  pure 0

unfoldable pub sys_exofork : Proc Kernel ℕ
sys_exofork = do
  c ← cur
  parent ← get (λ (k : Kernel). (k.envs c).id)
  e ← env_alloc parent
  frame ← get (λ (k : Kernel). k.stack_tf)
  pri ← get (λ (k : Kernel). (k.envs c).pri)
  set_env e (λ r. record r {
    tf = record frame { regs = update frame.regs 10 0 };
    status = env_not_runnable;
    pri = pri;
  })
  get (λ (k : Kernel). (k.envs e).id)

-- Step 3 of sys_set_env_status
unfoldable pub set_status_list : ℕ → ℕ → Proc Kernel (Unit {0})
unfolding sched_insert_tail sched_remove
set_status_list e status k =
    if (k.envs e).status == status
    then ok tt k
    else (if status == env_runnable then sched_insert_tail e k else sched_remove e k)

unfoldable pub sys_set_env_status : ℕ → ℕ → Proc Kernel ℕ
unfolding set_status_list
sys_set_env_status envid status =
    if status == env_runnable || status == env_not_runnable
    then (do
      e ← envid2env envid true
      set_status_list e status
      set_env e (λ r. record r { status = status })
      pure 0)
    else fail inval

-- sizeof(struct Trapframe)
abbrev pub trapframe_size : ℕ
trapframe_size = 152

-- The frame `tf` of the caller becomes the context of e, on the kernel stack if e is running.
unfoldable pub sys_set_trapframe : Machine → ℕ → ℕ → Proc Kernel ℕ
sys_set_trapframe h envid tf k =
    if is_illegal_va_range tf trapframe_size
    then err inval k
    else (do
      e ← envid2env envid true
      frame ← get (λ s. h.user_frame s tf)
      c ← get (λ (s : Kernel). s.curenv)
      if is_cur c e
          then (do modify (λ s. record s { stack_tf = frame }); pure (frame.regs 10))
          else (do set_env e (λ r. record r { tf = frame }); pure 0))
        k

-- ===== src/Syscall/Message.antt =====
-- kern/syscall_all.c: messages between environments, the console and the devices.
use run_mos_on_risc_v.Prelude.{
  ℕ, zero, suc, ◌+◌, ◌%◌, bit_or, Bool, true, false, ◌&&◌, ◌||◌, not, Option, none, some, ◌∷◌, ltb,
  leb, ◌==◌, if◌then◌else◌, update,
}
use run_mos_on_risc_v.Prelude.Proc.{
  err, Proc, pure, fail, get, modify, ◌>>=◌, ◌>>◌, inval, ipc_not_recv,
}
use run_mos_on_risc_v.Mmu.{word_mod, utop, pte_u, pte_v}
use run_mos_on_risc_v.Pmap.{page_insert, page_lookup, readable, va2pa}
use run_mos_on_risc_v.Disk.{virtio_disk_req}
use run_mos_on_risc_v.Kernel.{
  Kernel, in_mm, on_bus, set_env, cur, sched_insert_tail, sched_remove, env_runnable,
  env_not_runnable,
}
use run_mos_on_risc_v.Env.{envid2env}
use run_mos_on_risc_v.Sched.{schedule}
use run_mos_on_risc_v.Syscall.{Machine, is_illegal_va}

abbrev pub printcharc : ℕ → Proc Kernel (Unit {0})
printcharc c = modify (λ (k : Kernel). record k { console = c % 256 ∷ k.console })

unfoldable pub sys_putchar : ℕ → Proc Kernel ℕ
sys_putchar c = do printcharc c; pure 0

-- The loop of sys_print_cons, with n characters to go.
unfoldable pub print_loop : Machine → ℕ → ℕ → Proc Kernel (Unit {0})
print_loop h zero s = pure tt
print_loop h (suc n) s = do
  c ← get (λ (k : Kernel). h.user_byte k s)
  printcharc c
  print_loop h n (s + 1)

-- ((u_int)s + num) > UTOP || ((u_int)s) >= UTOP || (s > s + num), in 32 bits
abbrev pub is_bad_text : ℕ → ℕ → Bool
is_bad_text s num = ltb utop ((s + num) % word_mod) || leb utop s || ltb ((s + num) % word_mod) s

unfoldable pub sys_print_cons : Machine → ℕ → ℕ → Proc Kernel ℕ
unfolding print_loop
sys_print_cons h s num = if is_bad_text s num then fail inval else (do print_loop h num s; pure 0)

unfoldable pub sys_ipc_recv : ℕ → Proc Kernel ℕ
sys_ipc_recv dstva k =
    if not (dstva == 0) && is_illegal_va dstva
    then err inval k
    else (do
      c ← cur
      set_env c (λ r. record r { ipc_recving = 1; ipc_dstva = dstva; status = env_not_runnable })
      sched_remove c
      modify (λ (s : Kernel). record s {
        stack_tf = record (s.stack_tf) { regs = update s.stack_tf.regs 10 0 };
      })
      schedule true
      pure 0)
        k

-- Step 6 of sys_ipc_try_send: the page found at srcva goes to the receiver.
unfoldable pub send_page : ℕ → Option (ℕ × ℕ) → Proc Kernel ℕ
send_page e none = fail inval
send_page e (some (pp, _)) = do
  r ← get (λ (k : Kernel). k.envs e)
  in_mm (page_insert (r.pgdir) (r.asid) pp (r.ipc_dstva) (r.ipc_perm))
  pure 0

-- Steps 4 to 6, for a receiver that waits.
unfoldable pub deliver : ℕ → ℕ → ℕ → ℕ → Proc Kernel ℕ
unfolding send_page
deliver e value srcva perm = do
  c ← cur
  from ← get (λ (k : Kernel). (k.envs c).id)
  set_env e (λ r. record r {
    ipc_value = value;
    ipc_from = from;
    ipc_perm = bit_or (bit_or pte_u pte_v) (readable perm);
    ipc_recving = 0;
    status = env_runnable;
  })
  sched_insert_tail e
  if srcva == 0 then pure 0 else (do
    r ← get (λ (k : Kernel). k.envs c)
    found ← in_mm (page_lookup (r.pgdir) srcva)
    send_page e found)

unfoldable pub sys_ipc_try_send : ℕ → ℕ → ℕ → ℕ → Proc Kernel ℕ
unfolding deliver
sys_ipc_try_send envid value srcva perm k =
    if not (srcva == 0) && is_illegal_va srcva
    then err inval k
    else (do
      e ← envid2env envid false
      recving ← get (λ (s : Kernel). (s.envs e).ipc_recving)
      if recving == 0 then fail ipc_not_recv else deliver e value srcva perm)
        k

-- req & 0xFFF || is_illegal_va(req); the test `pa < 0` that follows in the source is on an unsigned
-- number and never holds.
unfoldable pub sys_dev_req : ℕ → ℕ → Proc Kernel ℕ
sys_dev_req dev req k =
    if not (req % 4096 == 0) || is_illegal_va req
    then err inval k
    else (do
      pgdir ← get (λ (s : Kernel). s.cur_pgdir)
      pa ← in_mm (va2pa pgdir req)
      if dev == 8 then (do on_bus (virtio_disk_req pa); pure 0) else fail inval)
        k

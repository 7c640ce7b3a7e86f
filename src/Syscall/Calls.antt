-- ===== src/Syscall/Calls.antt =====
-- The system calls that leave the lists of environments alone keep the invariant.
use run_mos_on_risc_v.Prelude.{
  ℕ, zero, suc, refl, Bool, true, false, Option, none, some, inl, inr, Bool-cases, ◌==◌,
  if◌then◌else◌, bit_or, not, ◌||◌, ◌+◌, ◌%◌, ◌∷◌,
}
use run_mos_on_risc_v.Prelude.Proc.{err, Proc, Ends, ◌>>◌, pure, fail, get, modify, inval}
use run_mos_on_risc_v.Mmu.{pte_u}
use run_mos_on_risc_v.Pmap.{page_alloc, page_insert, page_lookup, page_remove, va2pa}
use run_mos_on_risc_v.Disk.{virtio_disk_req}
use run_mos_on_risc_v.Kernel.{Kernel, in_mm, on_bus, set_env, cur}
use run_mos_on_risc_v.Env.{envid2env}
use run_mos_on_risc_v.Sched.{schedule, is_cur}
use run_mos_on_risc_v.Sched.Invariant.{IsOk, IsOk-same, Keeps}
use run_mos_on_risc_v.Sched.Keeps.{
  bind-Keeps, in_mm-Keeps, on_bus-Keeps, set_env-Keeps, schedule-Keeps, envid2env-Keeps, cur-Keeps,
}
use run_mos_on_risc_v.Syscall.{
  Machine, is_illegal_va, is_illegal_va_range, assert_user_va, sys_getenvid, sys_yield,
  sys_set_tlb_mod_entry, sys_mem_alloc, map_found, sys_mem_map, sys_mem_unmap, sys_set_trapframe,
  trapframe_size,
}
use run_mos_on_risc_v.Syscall.Message.{
  sys_putchar, print_loop, is_bad_text, sys_print_cons, sys_dev_req, printcharc,
}

pub if-Keeps {ℓ} :
    {A : Type ℓ} (b : Bool) (p q : Proc Kernel A) → Keeps p → Keeps q → Keeps (if b then p else q)
if-Keeps true p q f g = f
if-Keeps false p q f g = g

-- A last step behind which the call returns 0.
pub last-Keeps : (p : Proc Kernel (Unit {0})) → Keeps p → Keeps {A = ℕ} (do p; pure 0)
last-Keeps p h = bind-Keeps p (λ _. pure 0) h (λ _ k i. i)

assert_user_va-Keeps : (va : ℕ) → Keeps (assert_user_va va)
assert_user_va-Keeps va k h = elim (Bool-cases (is_illegal_va va)) [
  | inl b ↦ rw b h
  | inr b ↦ rw b h
]

pub sys_getenvid-Keeps : Keeps sys_getenvid
unfolding sys_getenvid
sys_getenvid-Keeps = bind-Keeps cur _ cur-Keeps (λ c k h. h)

pub sys_yield-Keeps : Keeps sys_yield
unfolding sys_yield
sys_yield-Keeps = last-Keeps (schedule true) (schedule-Keeps true)

pub sys_set_tlb_mod_entry-Keeps : (envid func : ℕ) → Keeps (sys_set_tlb_mod_entry envid func)
unfolding sys_set_tlb_mod_entry
sys_set_tlb_mod_entry-Keeps envid func =
    bind-Keeps (envid2env envid true) _ (envid2env-Keeps envid true) (λ e.
      last-Keeps (set_env e (λ r. record r { user_tlb_mod_entry = func }))
        (set_env-Keeps e (λ r. record r { user_tlb_mod_entry = func }) (λ r. refl)))

pub sys_mem_alloc-Keeps : (envid va perm : ℕ) → Keeps (sys_mem_alloc envid va perm)
unfolding sys_mem_alloc
sys_mem_alloc-Keeps envid va perm = bind-Keeps (assert_user_va va) _ (assert_user_va-Keeps va) (λ _.
    bind-Keeps (envid2env envid true) _ (envid2env-Keeps envid true) (λ e.
      bind-Keeps (in_mm page_alloc) _ (in_mm-Keeps page_alloc) (λ pp.
        bind-Keeps (get (λ (k : Kernel). k.envs e)) _ (λ k h. h)
          (λ r.
            last-Keeps (in_mm (page_insert (r.pgdir) (r.asid) pp va (bit_or perm pte_u)))
              (in_mm-Keeps _)))))

map_found-Keeps : (dst va perm : ℕ) (found : Option (ℕ × ℕ)) → Keeps (map_found dst va perm found)
unfolding map_found
map_found-Keeps dst va perm none = λ k h. h
map_found-Keeps dst va perm (some (pp, a)) =
    bind-Keeps (get (λ (k : Kernel). k.envs dst)) _ (λ k h. h)
      (λ r. last-Keeps (in_mm (page_insert (r.pgdir) (r.asid) pp va perm)) (in_mm-Keeps _))

pub sys_mem_map-Keeps :
    (srcid srcva dstid dstva perm : ℕ) → Keeps (sys_mem_map srcid srcva dstid dstva perm)
unfolding sys_mem_map
sys_mem_map-Keeps srcid srcva dstid dstva perm =
    bind-Keeps (assert_user_va srcva) _ (assert_user_va-Keeps srcva) (λ _.
      bind-Keeps (assert_user_va dstva) _ (assert_user_va-Keeps dstva) (λ _.
        bind-Keeps (envid2env srcid true) _ (envid2env-Keeps srcid true) (λ src.
          bind-Keeps (envid2env dstid true) _ (envid2env-Keeps dstid true) (λ dst.
            bind-Keeps (get (λ (k : Kernel). k.envs src)) _ (λ k h. h)
              (λ r.
                bind-Keeps (in_mm (page_lookup (r.pgdir) srcva)) _ (in_mm-Keeps _)
                  (λ found. map_found-Keeps dst dstva (bit_or perm pte_u) found))))))

pub sys_mem_unmap-Keeps : (envid va : ℕ) → Keeps (sys_mem_unmap envid va)
unfolding sys_mem_unmap
sys_mem_unmap-Keeps envid va = bind-Keeps (assert_user_va va) _ (assert_user_va-Keeps va) (λ _.
    bind-Keeps (envid2env envid true) _ (envid2env-Keeps envid true) (λ e.
      bind-Keeps (get (λ (k : Kernel). k.envs e)) _ (λ k h. h)
        (λ r. last-Keeps (in_mm (page_remove (r.pgdir) (r.asid) va)) (in_mm-Keeps _))))

console_same : (k : Kernel) (c : ℕ) → IsOk k → Ends (λ _. IsOk) IsOk (printcharc c k)
console_same k c h =
    IsOk-same k (record k { console = c % 256 ∷ k.console }) refl refl refl (λ e. refl) h

pub sys_putchar-Keeps : (c : ℕ) → Keeps (sys_putchar c)
unfolding sys_putchar
sys_putchar-Keeps c = last-Keeps (printcharc c) (λ k h. console_same k c h)

print_loop-Keeps : (m : Machine) (n s : ℕ) → Keeps (print_loop m n s)
unfolding print_loop
print_loop-Keeps m zero s = λ k h. h
print_loop-Keeps m (suc n) s =
    bind-Keeps (get (λ (k : Kernel). m.user_byte k s)) _ (λ k h. h)
      (λ c.
        bind-Keeps (printcharc c) (λ _. print_loop m n (s + 1)) (λ k h. console_same k c h)
          (λ _. print_loop-Keeps m n (s + 1)))

pub sys_print_cons-Keeps : (m : Machine) (s num : ℕ) → Keeps (sys_print_cons m s num)
unfolding sys_print_cons
sys_print_cons-Keeps m s num =
    if-Keeps (is_bad_text s num) (fail inval) (do print_loop m num s; pure 0) (λ k h. h)
      (last-Keeps (print_loop m num s) (print_loop-Keeps m num s))

-- A call that first refuses a bad argument.
pub guard-Keeps :
    (b : Bool) (p : Proc Kernel ℕ) (k : Kernel)
    → Keeps p
    → IsOk k
    → Ends (λ _. IsOk) IsOk (if b then err inval k else p k)
guard-Keeps true p k f h = h
guard-Keeps false p k f h = f k h

pub sys_set_trapframe-Keeps : (m : Machine) (envid tf : ℕ) → Keeps (sys_set_trapframe m envid tf)
unfolding sys_set_trapframe
sys_set_trapframe-Keeps m envid tf k = guard-Keeps (is_illegal_va_range tf trapframe_size) _ k (
    bind-Keeps (envid2env envid true) _ (envid2env-Keeps envid true) (λ e.
      bind-Keeps (get (λ s. m.user_frame s tf)) _ (λ k h. h)
        (λ frame.
          bind-Keeps (get (λ (s : Kernel). s.curenv)) _ (λ k h. h)
            (λ c.
              if-Keeps (is_cur c e)
                (do modify (λ s. record s { stack_tf = frame }); pure (frame.regs 10))
                (do set_env e (λ r. record r { tf = frame }); pure 0)
                (λ s h. IsOk-same s (record s { stack_tf = frame }) refl refl refl (λ x. refl) h)
                (last-Keeps (set_env e (λ r. record r { tf = frame }))
                  (set_env-Keeps e (λ r. record r { tf = frame }) (λ r. refl)))))))

pub sys_dev_req-Keeps : (dev req : ℕ) → Keeps (sys_dev_req dev req)
unfolding sys_dev_req
sys_dev_req-Keeps dev req k = guard-Keeps (not (req % 4096 == 0) || is_illegal_va req) _ k (
    bind-Keeps (get (λ (s : Kernel). s.cur_pgdir)) _ (λ k h. h)
      (λ pgdir. bind-Keeps (in_mm (va2pa pgdir req)) _ (in_mm-Keeps (va2pa pgdir req)) (λ pa.
        if-Keeps (dev == 8) (do on_bus (virtio_disk_req pa); pure 0) (fail inval)
          (last-Keeps (on_bus (virtio_disk_req pa)) (on_bus-Keeps (virtio_disk_req pa)))
          (λ k h. h))))

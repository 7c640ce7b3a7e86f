-- ===== src/Syscall/Safe/Memory.antt =====
-- The same for the calls on memory, on the disk, and those that switch to another environment.
use run_mos_on_risc_v.Prelude.{
  ℕ, ◌%◌, ◌≡◌, refl, ◌∙◌, Bool, true, ◌||◌, ◌&&◌, not, Option, none, some, arith, ◌==◌, inl, inr,
  Bool-cases, elem, update, eq→==,
}
use run_mos_on_risc_v.Prelude.Proc.{
  Run, ok, err, left, panic, wild, Proc, and_then, ◌>>◌, pure, modify, embed, IsSafe, IsSafe-then,
  embed-IsSafe,
}
use run_mos_on_risc_v.Kernel.{
  Kernel, Env, set_env, env_runnable, env_not_runnable, sched_remove, cur, in_mm, on_bus, put_bus,
}
use run_mos_on_risc_v.Syscall.{
  is_illegal_va, map_found, sys_mem_alloc, sys_mem_map, sys_mem_unmap, sys_yield,
}
use run_mos_on_risc_v.Syscall.Message.{sys_dev_req, sys_ipc_recv}
use run_mos_on_risc_v.Pmap.{Mem, page_alloc, page_insert, page_lookup, page_remove, va2pa}
use run_mos_on_risc_v.Pmap.Safe.{
  page_alloc-IsSafe, page_insert-IsSafe, page_lookup-IsSafe, page_remove-IsSafe, va2pa-IsSafe,
}
use run_mos_on_risc_v.Disk.{Disk, virtio_disk_intr, virtio_disk_req}
use run_mos_on_risc_v.Disk.Safe.{virtio_disk_intr-IsSafe, virtio_disk_req-IsSafe}
use run_mos_on_risc_v.Sched.{schedule, choose}
use run_mos_on_risc_v.Sched.Queue.{IsEnvs}
use run_mos_on_risc_v.Sched.Turns.{Scheduled, choose-Scheduled}
use run_mos_on_risc_v.Syscall.Wake.{blocked-IsOk}
use run_mos_on_risc_v.Syscall.Safe.{IsUsable, found-IsSafe}

pub in_mm-IsSafe {ℓ} :
    {A : Type ℓ} (p : Proc Mem A) (k : Kernel) → IsSafe (p k.mm) → IsSafe (in_mm p k)
in_mm-IsSafe p k h = embed-IsSafe (λ (s : Kernel) m. record s { mm = m }) k (p k.mm) h

pub intr-IsSafe :
    (k : Kernel) (r : Run Disk (Unit {0})) (f : Proc Kernel (Unit {0}))
    → IsSafe r
    → ((d : Disk) → IsSafe (f (record k { disk = d })))
    → IsSafe (and_then (embed (λ (s : Kernel) d. record s { disk = d }) k r) (λ _. f))
intr-IsSafe k (ok u d) f h g = g d
intr-IsSafe k (err e d) f h g = tt
intr-IsSafe k (left d) f h g = tt
intr-IsSafe k panic f h g = tt
intr-IsSafe k wild f h g = absurd h

pub Scheduled-IsSafe : (k : Kernel) (r : Run Kernel (Unit {0})) → Scheduled k r → IsSafe r
Scheduled-IsSafe k r (inl (e, _)) = rw e tt
Scheduled-IsSafe k r (inr (e, s, q, c)) = rw q tt

pub schedule-IsSafe : (yield : Bool) (k : Kernel) → IsEnvs k → IsSafe (schedule yield k)
unfolding schedule
schedule-IsSafe yield k h =
    intr-IsSafe k (virtio_disk_intr k.disk) (choose yield) (virtio_disk_intr-IsSafe k.disk) λ d.
      let i : IsEnvs (record k { disk = d }) = record { once = h.once; runnable = h.runnable } in
      Scheduled-IsSafe _ _ (choose-Scheduled (record k { disk = d }) yield i)

pub insert-IsSafe :
    (pgdir asid pp va perm : ℕ) (k : Kernel) → IsSafe (in_mm (page_insert pgdir asid pp va perm) k)
insert-IsSafe pgdir asid pp va perm k =
    in_mm-IsSafe (page_insert pgdir asid pp va perm) k
      (page_insert-IsSafe pgdir asid pp va perm k.mm)

pub map_found-IsSafe :
    (dst dstva perm : ℕ) (found : Option (ℕ × ℕ)) (k : Kernel)
    → IsSafe (map_found dst dstva perm found k)
unfolding map_found
map_found-IsSafe dst dstva perm none k = tt
map_found-IsSafe dst dstva perm (some (pp, _)) k =
    IsSafe-then (in_mm (page_insert (k.envs dst).pgdir (k.envs dst).asid pp dstva perm) k) _
      (insert-IsSafe _ _ pp dstva perm k) (λ _ s. tt)

pub current : (k : Kernel) (c : ℕ) → k.curenv ≡ some c → cur k ≡ ok c k
unfolding cur
current k c q = rw q

abbrev pub waiting : ℕ → Env → Env
waiting dstva r = record r { ipc_recving = 1; ipc_dstva = dstva; status = env_not_runnable }

-- sys_ipc_recv behind its test.
abbrev pub waits : ℕ → ℕ → Proc Kernel ℕ
waits c dstva = do
  set_env c (waiting dstva)
  sched_remove c
  modify (λ (s : Kernel). record s {
    stack_tf = record (s.stack_tf) { regs = update s.stack_tf.regs 10 0 };
  })
  schedule true
  pure 0

module _ (k : Kernel) (r : IsUsable k) where
  pub sys_yield-IsSafe : IsSafe (sys_yield k)
  unfolding sys_yield
  sys_yield-IsSafe =
      IsSafe-then (schedule true k) _ (schedule-IsSafe true k r.well.envs) (λ _ s. tt)

  pub sys_mem_alloc-IsSafe : (envid va perm : ℕ) → IsSafe (sys_mem_alloc envid va perm k)
  unfolding sys_mem_alloc
  sys_mem_alloc-IsSafe envid va perm = elim (Bool-cases (is_illegal_va va)) [
    | inl b ↦ rw b tt
    | inr b ↦ rw b (
        found-IsSafe k r envid true _ λ e n.
          IsSafe-then (in_mm page_alloc k) _ (in_mm-IsSafe page_alloc k (page_alloc-IsSafe k.mm))
            λ pp s.
              IsSafe-then (in_mm (page_insert _ _ pp va _) s) _ (insert-IsSafe _ _ pp va _ s)
                (λ _ t. tt))
  ]

  pub sys_mem_map-IsSafe :
      (srcid srcva dstid dstva perm : ℕ) → IsSafe (sys_mem_map srcid srcva dstid dstva perm k)
  unfolding sys_mem_map
  sys_mem_map-IsSafe srcid srcva dstid dstva perm = elim (Bool-cases (is_illegal_va srcva)) [
    | inl b ↦ rw b tt
    | inr b ↦ elim (Bool-cases (is_illegal_va dstva)) [
      | inl d ↦ rw (b, d) tt
      | inr d ↦
          rw (b, d)
            (found-IsSafe k r srcid true _ λ src n. found-IsSafe k r dstid true _ λ dst m.
              IsSafe-then (in_mm (page_lookup (k.envs src).pgdir srcva) k) _
                (in_mm-IsSafe (page_lookup (k.envs src).pgdir srcva) k
                  (page_lookup-IsSafe (k.envs src).pgdir srcva k.mm))
                (map_found-IsSafe dst dstva _))
    ]
  ]

  pub sys_mem_unmap-IsSafe : (envid va : ℕ) → IsSafe (sys_mem_unmap envid va k)
  unfolding sys_mem_unmap
  sys_mem_unmap-IsSafe envid va = elim (Bool-cases (is_illegal_va va)) [
    | inl b ↦ rw b tt
    | inr b ↦ rw b (
        found-IsSafe k r envid true _ λ e n.
          IsSafe-then (in_mm (page_remove (k.envs e).pgdir (k.envs e).asid va) k) _
            (in_mm-IsSafe (page_remove (k.envs e).pgdir (k.envs e).asid va) k
              (page_remove-IsSafe (k.envs e).pgdir (k.envs e).asid va k.mm))
            (λ _ s. tt))
  ]

  pub sys_dev_req-IsSafe : (dev req : ℕ) → IsSafe (sys_dev_req dev req k)
  unfolding sys_dev_req
  sys_dev_req-IsSafe dev req = elim (Bool-cases (not (req % 4096 == 0) || is_illegal_va req)) [
    | inl b ↦ rw b tt
    | inr b ↦ rw b (
        IsSafe-then (in_mm (va2pa k.cur_pgdir req) k) _
          (in_mm-IsSafe (va2pa k.cur_pgdir req) k (va2pa-IsSafe k.cur_pgdir req k.mm))
          λ pa s. elim (Bool-cases (dev == 8)) [
            | inr n ↦ rw n tt
            | inl y ↦ rw y (
                IsSafe-then (on_bus (virtio_disk_req pa) s) _
                  (embed-IsSafe put_bus s
                    (virtio_disk_req pa (record { disk = s.disk; word = s.mm.word }))
                    (virtio_disk_req-IsSafe pa _))
                  (λ _ t. tt))
          ])
  ]

  -- The current environment is on the list that it leaves.
  pub waits-IsSafe : (c dstva : ℕ) → (k.envs c).status ≡ env_runnable → IsSafe (waits c dstva k)
  unfolding sched_remove
  waits-IsSafe c dstva runs =
      let on : elem c k.env_sched_list ≡ true = r.well.envs.runnable c ∙ eq→== _ _ runs in
      let well =
        blocked-IsOk k c (waiting dstva) (λ e. refl) (λ z. omega (arith, runs, z)) r.well in
      rw on (
        IsSafe-then (schedule true _) _
          (schedule-IsSafe true _ (record { once = well.envs.once; runnable = well.envs.runnable }))
          (λ _ s. tt))

  pub sys_ipc_recv-IsSafe : (dstva : ℕ) → IsSafe (sys_ipc_recv dstva k)
  unfolding sys_ipc_recv
  sys_ipc_recv-IsSafe dstva =
      let (c, q, runs) = r.someone in
      elim (Bool-cases (not (dstva == 0) && is_illegal_va dstva)) [
        | inl b ↦ rw b tt
        | inr b ↦ rw (b, current k c q) (waits-IsSafe c dstva runs)
      ]

-- ===== src/Syscall/Safe.antt =====
-- kern/syscall_all.c: the pointers and list links that the system calls follow.
pub mod Memory
pub mod Message
pub mod Dispatch
use native.Mathlib.Decide.{ℕ_discrete}
use run_mos_on_risc_v.Prelude.{
  ℕ, zero, suc, ◌+◌, ◌-◌, ◌%◌, ◌≤◌, ◌<◌, ltb, length, ◌≡◌, ◌≢◌, ◌⊎◌, refl, sym, ap, ◌∙◌, Bool, true,
  false, ◌||◌, ◌&&◌, not, Option, none, some, List, [], ◌∷◌, arith, ◌==◌, if◌then◌else◌, inl, inr,
  Bool-cases, elem, update, eq→==, ne→==,
}
use run_mos_on_risc_v.Prelude.Proc.{
  Run, ok, err, left, panic, wild, Proc, Ends, and_then, ◌>>=◌, ◌>>◌, pure, modify, ignored, embed,
  IsSafe, IsSafe-then, embed-IsSafe,
}
use run_mos_on_risc_v.Kernel.{
  Kernel, Env, set_env, with_env, env_free_status, env_runnable, env_not_runnable, sched_remove,
  sched_insert_tail, cur, in_mm, on_bus, put_bus,
}
use run_mos_on_risc_v.Env.{
  envid2env, ref_up, asid_alloc, env_setup_vm, mkenvid, env_alloc_from, env_alloc,
}
use run_mos_on_risc_v.Env.Asid.{asid_alloc-OnlyBitmap}
use run_mos_on_risc_v.Mmu.{page2pa, word_mod, ustacktop}
use run_mos_on_risc_v.Syscall.Dispatch.{
  Handler, handler, syscall_table, returned, max_sysno, set_a0, do_syscall,
}
use run_mos_on_risc_v.Env.Ident.{envid2env_cases}
use run_mos_on_risc_v.Sched.Invariant.{IsOk, IsOk-same, Keeps}
use run_mos_on_risc_v.Syscall.Ipc.{hand_over}
use run_mos_on_risc_v.Syscall.Invariant.{do_syscall-Keeps}
use run_mos_on_risc_v.Syscall.{
  Machine, set_status_list, sys_set_env_status, sys_getenvid, sys_set_tlb_mod_entry,
  sys_set_trapframe, is_illegal_va_range, trapframe_size, is_illegal_va, map_found, sys_mem_alloc,
  sys_mem_map, sys_mem_unmap, sys_yield, sys_exofork,
}
use run_mos_on_risc_v.Syscall.Message.{
  sys_putchar, sys_print_cons, print_loop, is_bad_text, sys_dev_req, sys_ipc_recv, deliver,
  send_page, sys_ipc_try_send,
}
use run_mos_on_risc_v.Pmap.{
  Mem, set_ref, kaddr, page2kva, page_alloc, page_insert, page_lookup, page_remove, va2pa,
}
use run_mos_on_risc_v.Pmap.Safe.{
  kaddr-IsSafe, page_alloc-IsSafe, page_insert-IsSafe, page_lookup-IsSafe, page_remove-IsSafe,
  va2pa-IsSafe,
}
use run_mos_on_risc_v.Disk.{Disk, virtio_disk_intr, virtio_disk_req}
use run_mos_on_risc_v.Disk.Safe.{virtio_disk_intr-IsSafe, virtio_disk_req-IsSafe}
use run_mos_on_risc_v.Sched.{schedule, choose}
use run_mos_on_risc_v.Sched.Queue.{IsEnvs}
use run_mos_on_risc_v.Sched.Turns.{Scheduled, choose-Scheduled}
use run_mos_on_risc_v.Syscall.Wake.{Live, envid2env-Live, blocked-IsOk}

-- Well-formed lists, a current environment that is runnable, states among the three of env.h, and no
-- environment on the list of runnable ones that waits for a message.
pub record IsUsable (k : Kernel) : Type 0 where
  pub well : IsOk k
  pub someone : (c : ℕ) × (k.curenv ≡ some c) × ((k.envs c).status ≡ env_runnable)
  pub three : (e : ℕ) → (k.envs e).status ≤ 2
  pub waiting : (e : ℕ) → elem e k.env_sched_list ≡ true → (k.envs e).ipc_recving ≡ 0

module _ (k : Kernel) (r : IsUsable k) where
  -- What follows a lookup of an environment.
  pub found-IsSafe :
      (envid : ℕ) (checkperm : Bool) (f : ℕ → Proc Kernel ℕ)
      → ((e : ℕ) → (k.envs e).status ≢ env_free_status → IsSafe (f e k))
      → IsSafe (and_then (envid2env envid checkperm k) f)
  found-IsSafe envid checkperm f h =
      elim (envid2env_cases k r.someone.0 envid checkperm r.someone.1) [
        | inl q ↦ rw q tt
        | inr (e, q) ↦
            let l : Live k e k = rw q at (envid2env-Live k envid checkperm r.well) in rw q (h e l.1)
      ]

  pub set_list-IsSafe :
      (e status : ℕ)
      → (k.envs e).status ≢ env_free_status
      → (status ≡ env_runnable) ⊎ (status ≡ env_not_runnable)
      → IsSafe (set_status_list e status k)
  unfolding set_status_list sched_insert_tail sched_remove
  set_list-IsSafe e status n which = elim (ℕ_discrete (k.envs e).status status) [
    | yes p ↦ rw (eq→== _ _ p) tt
    | no p ↦ elim which [
      | inl s ↦
          let out : elem e k.env_sched_list ≡ false =
            r.well.envs.runnable e ∙ ne→== _ _ (λ q. p (q ∙ sym s)) in
          rw (ne→== _ _ p, s, out) tt
      | inr s ↦
          let three : (k.envs e).status ≤ 2 = r.three e in
          let runs : (k.envs e).status ≡ env_runnable = omega arith in
          let on : elem e k.env_sched_list ≡ true = r.well.envs.runnable e ∙ eq→== _ _ runs in
          rw (ne→== _ _ p, s, on) tt
    ]
  ]

  pub sys_set_env_status-IsSafe : (envid status : ℕ) → IsSafe (sys_set_env_status envid status k)
  unfolding sys_set_env_status
  sys_set_env_status-IsSafe envid status =
      elim (Bool-cases (status == env_runnable || status == env_not_runnable)) [
        | inr b ↦ rw b tt
        | inl b ↦ rw b (
            found-IsSafe envid true _ λ e n.
              IsSafe-then (set_status_list e status k) _ (set_list-IsSafe e status n (ground arith))
                (λ _ s. tt))
      ]

  pub sys_getenvid-IsSafe : IsSafe (sys_getenvid k)
  unfolding sys_getenvid cur
  sys_getenvid-IsSafe = rw r.someone.1 tt

  pub sys_set_tlb_mod_entry-IsSafe : (envid func : ℕ) → IsSafe (sys_set_tlb_mod_entry envid func k)
  unfolding sys_set_tlb_mod_entry
  sys_set_tlb_mod_entry-IsSafe envid func = found-IsSafe envid true _ (λ e n. tt)

  pub sys_set_trapframe-IsSafe :
      (m : Machine) (envid tf : ℕ) → IsSafe (sys_set_trapframe m envid tf k)
  unfolding sys_set_trapframe
  sys_set_trapframe-IsSafe m envid tf = elim (Bool-cases (is_illegal_va_range tf trapframe_size)) [
    | inl b ↦ rw b tt
    | inr b ↦ rw b (found-IsSafe envid true _ (λ e n. ground arith))
  ]

pub print_loop-IsSafe : (m : Machine) (n s : ℕ) (k : Kernel) → IsSafe (print_loop m n s k)
unfolding print_loop
print_loop-IsSafe m zero s k = tt
print_loop-IsSafe m (suc n) s k = print_loop-IsSafe m n (s + 1) _

pub sys_print_cons-IsSafe :
    (m : Machine) (s num : ℕ) (k : Kernel) → IsSafe (sys_print_cons m s num k)
unfolding sys_print_cons
sys_print_cons-IsSafe m s num k = elim (Bool-cases (is_bad_text s num)) [
  | inl b ↦ rw b tt
  | inr b ↦ rw b (IsSafe-then (print_loop m num s k) _ (print_loop-IsSafe m num s k) (λ _ t. tt))
]

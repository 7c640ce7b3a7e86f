-- ===== src/Syscall/Safe/Message.antt =====
-- The same for sys_ipc_try_send and sys_exofork, with env_alloc of kern/env.c.
use run_mos_on_risc_v.Prelude.{
  ℕ, ◌-◌, ◌≡◌, false, ◌&&◌, not, Option, none, some, List, [], ◌∷◌, arith, ◌==◌, inl, inr,
  Bool-cases, elem,
}
use run_mos_on_risc_v.Prelude.Proc.{
  Run, ok, err, left, panic, wild, Proc, ◌>>=◌, ◌>>◌, pure, modify, ignored, IsSafe, IsSafe-then,
}
use run_mos_on_risc_v.Kernel.{Kernel, set_env, sched_insert_tail, in_mm}
use run_mos_on_risc_v.Env.{ref_up, asid_alloc, env_setup_vm, mkenvid, env_alloc_from, env_alloc}
use run_mos_on_risc_v.Env.Asid.{asid_alloc-OnlyBitmap}
use run_mos_on_risc_v.Mmu.{page2pa, ustacktop}
use run_mos_on_risc_v.Syscall.Ipc.{hand_over}
use run_mos_on_risc_v.Syscall.{is_illegal_va, sys_exofork}
use run_mos_on_risc_v.Syscall.Message.{deliver, send_page, sys_ipc_try_send}
use run_mos_on_risc_v.Pmap.{Mem, set_ref, page2kva, page_alloc, page_insert, page_lookup}
use run_mos_on_risc_v.Pmap.Safe.{kaddr-IsSafe, page_alloc-IsSafe, page_lookup-IsSafe}
use run_mos_on_risc_v.Syscall.Safe.{IsUsable, found-IsSafe}
use run_mos_on_risc_v.Syscall.Safe.Memory.{in_mm-IsSafe, insert-IsSafe, current, waits}

pub send_page-IsSafe : (e : ℕ) (found : Option (ℕ × ℕ)) (k : Kernel) → IsSafe (send_page e found k)
unfolding send_page
send_page-IsSafe e none k = tt
send_page-IsSafe e (some (pp, _)) k =
    IsSafe-then (in_mm (page_insert _ _ pp _ _) k) _ (insert-IsSafe _ _ pp _ _ k) (λ _ s. tt)

pub hand_over-IsSafe : (c e srcva : ℕ) (k : Kernel) → IsSafe (hand_over c e srcva k)
hand_over-IsSafe c e srcva k = elim (Bool-cases (srcva == 0)) [
  | inl z ↦ rw z tt
  | inr z ↦ rw z (
      IsSafe-then (in_mm (page_lookup (k.envs c).pgdir srcva) k) _
        (in_mm-IsSafe (page_lookup (k.envs c).pgdir srcva) k
          (page_lookup-IsSafe (k.envs c).pgdir srcva k.mm))
        (send_page-IsSafe e))
]

module _ (k : Kernel) (r : IsUsable k) where
  -- A receiver that waits is not yet on the list that it is put on.
  pub deliver-IsSafe :
      (e value srcva perm : ℕ)
      → ((k.envs e).ipc_recving == 0) ≡ false
      → IsSafe (deliver e value srcva perm k)
  unfolding deliver sched_insert_tail
  deliver-IsSafe e value srcva perm waits =
      let (c, q, _) = r.someone in
      let out : elem e k.env_sched_list ≡ false = elim (Bool-cases (elem e k.env_sched_list)) [
        | inl i ↦ let z : (k.envs e).ipc_recving ≡ 0 = r.waiting e i in absurd (ground arith)
        | inr i ↦ i
      ] in
      rw (current k c q, out) (hand_over-IsSafe c e srcva _)

  pub sys_ipc_try_send-IsSafe :
      (envid value srcva perm : ℕ) → IsSafe (sys_ipc_try_send envid value srcva perm k)
  unfolding sys_ipc_try_send
  sys_ipc_try_send-IsSafe envid value srcva perm =
      elim (Bool-cases (not (srcva == 0) && is_illegal_va srcva)) [
        | inl b ↦ rw b tt
        | inr b ↦ rw b (
            found-IsSafe k r envid false _ λ e n. elim (Bool-cases ((k.envs e).ipc_recving == 0)) [
              | inl z ↦ rw z tt
              | inr z ↦ rw z (deliver-IsSafe e value srcva perm z)
            ])
      ]

pub ignored-IsSafe {ℓ} : {A : Type ℓ} (r : Run Kernel A) → IsSafe r → IsSafe (ignored r)
ignored-IsSafe (ok a s) h = tt
ignored-IsSafe (err e s) h = tt
ignored-IsSafe (left s) h = tt
ignored-IsSafe panic h = tt
ignored-IsSafe wild h = h

tame_bind {ℓ κ} :
    {A : Type ℓ} {B : Type κ} (p : Proc Kernel A) (f : A → Proc Kernel B)
    → ((s : Kernel) → IsSafe (p s))
    → ((a : A) (s : Kernel) → IsSafe (f a s))
    → (s : Kernel) → IsSafe ((p >>= f) s)
tame_bind p f h g s = IsSafe-then (p s) f (h s) g

pub tame_mm {ℓ} :
    {A : Type ℓ} (p : Proc Mem A) → ((m : Mem) → IsSafe (p m)) → (s : Kernel) → IsSafe (in_mm p s)
tame_mm p h s = in_mm-IsSafe p s (h s.mm)

pub ref_up-IsSafe : (pp : ℕ) (m : Mem) → IsSafe (ref_up pp m)
unfolding ref_up set_ref
ref_up-IsSafe pp m = tt

pub page2kva-IsSafe : (pp : ℕ) (m : Mem) → IsSafe (page2kva pp m)
unfolding page2kva
page2kva-IsSafe pp m = kaddr-IsSafe (page2pa pp) m

pub env_setup_vm-IsSafe : (e : ℕ) (k : Kernel) → IsSafe (env_setup_vm e k)
unfolding env_setup_vm
env_setup_vm-IsSafe e = tame_bind (in_mm page_alloc) _ (tame_mm page_alloc page_alloc-IsSafe) λ p.
    tame_bind (in_mm (ref_up p)) _ (tame_mm (ref_up p) (ref_up-IsSafe p))
      λ _. tame_bind (in_mm (page2kva p)) _ (tame_mm (page2kva p) (page2kva-IsSafe p)) λ pgdir t. tt

pub asid_alloc-IsSafe : (k : Kernel) → IsSafe (asid_alloc k)
asid_alloc-IsSafe k = elim (asid_alloc-OnlyBitmap k) [
  | inl q ↦ rw q tt
  | inr (i, bitmap, q) ↦ rw q tt
]

pub mkenvid-IsSafe : (e : ℕ) (k : Kernel) → IsSafe (mkenvid e k)
unfolding mkenvid
mkenvid-IsSafe e k = tt

-- The end of env_alloc.
abbrev pub given : ℕ → ℕ → List ℕ → ℕ → Proc Kernel ℕ
given e parent rest asid = do
  set_env e (λ r. record r {
    asid = asid;
    parent_id = parent;
    tf = record (r.tf) { sstatus = 2; sscratch = ustacktop - 8 };
  })
  modify (λ (s : Kernel). record s { env_free_list = rest })
  pure e

pub env_alloc_from-IsSafe :
    (free : List ℕ) (parent : ℕ) (k : Kernel) → IsSafe (env_alloc_from free parent k)
unfolding env_alloc_from
env_alloc_from-IsSafe [] parent k = tt
env_alloc_from-IsSafe (e ∷ rest) parent k =
    tame_bind (λ s. ignored (env_setup_vm e s)) _
      (λ s. ignored-IsSafe (env_setup_vm e s) (env_setup_vm-IsSafe e s))
      (λ _.
        tame_bind (set_env e (λ r. record r { user_tlb_mod_entry = 0; runs = 0 })) _ (λ s. tt)
          (λ _. tame_bind (mkenvid e) _ (mkenvid-IsSafe e) (λ id.
            tame_bind (set_env e (λ r. record r { id = id })) _ (λ s. tt)
              (λ _. tame_bind asid_alloc (given e parent rest) asid_alloc-IsSafe (λ asid t. tt)))))
      k

pub env_alloc-IsSafe : (parent : ℕ) (k : Kernel) → IsSafe (env_alloc parent k)
unfolding env_alloc
env_alloc-IsSafe parent k = env_alloc_from-IsSafe k.env_free_list parent k

pub sys_exofork-IsSafe : (k : Kernel) → IsUsable k → IsSafe (sys_exofork k)
unfolding sys_exofork
sys_exofork-IsSafe k r =
    let (c, q, _) = r.someone in
    rw (current k c q)
      (tame_bind (env_alloc (k.envs c).id) _ (env_alloc-IsSafe (k.envs c).id) (λ e s. tt) k)

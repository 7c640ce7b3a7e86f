-- ===== src/Syscall/Destroy.antt =====
-- env_free, env_destroy and sys_env_destroy keep the invariant.
use native.Mathlib.Decide.{ℕ_discrete}
use run_mos_on_risc_v.Prelude.{
  ℕ, ◌≡◌, ◌≢◌, refl, sym, ◌∙◌, true, Option, none, some, ◌∷◌, inl, inr, Bool-cases, arith, ◌==◌,
  if◌then◌else◌, eq→==, ne→==, elem, erase, IsNodup, elem-erase_ne, elem-erase_self, erase-IsNodup,
}
use mathlib.Core.Option.{some-injective}
use run_mos_on_risc_v.Prelude.Proc.{
  Run, ok, err, left, panic, wild, Proc, Ends, Ends-bind, ◌>>=◌, ◌>>◌, pure, get, modify, embed,
}
use run_mos_on_risc_v.Pmap.{Mem, tlb_flush}
use run_mos_on_risc_v.Kernel.{Kernel, in_mm, set_env, with_env, sched_remove, env_free_status}
use run_mos_on_risc_v.Env.{env_free, free_space, asid_free}
use run_mos_on_risc_v.Sched.{schedule, is_cur, env_destroy}
use run_mos_on_risc_v.Sched.Queue.{IsEnvs}
use run_mos_on_risc_v.Sched.Invariant.{IsOk, IsOk-same, Keeps}
use run_mos_on_risc_v.Sched.Keeps.{schedule-Keeps}
use run_mos_on_risc_v.Syscall.{sys_env_destroy}
use run_mos_on_risc_v.Syscall.Wake.{found_live, off_free}
use run_mos_on_risc_v.Syscall.Fork.{weaken}

Ends-embed {ℓ} :
    {A : Type ℓ} (Q : Kernel → Type 0) (k : Kernel) (r : Run Mem A)
    → ((m : Mem) → Q (record k { mm = m }))
    → Ends (λ _. Q) Q (embed (λ (s : Kernel) m. record s { mm = m }) k r)
Ends-embed Q k (ok a m) f = f m
Ends-embed Q k (err e m) f = f m
Ends-embed Q k (left m) f = f m
Ends-embed Q k panic f = tt
Ends-embed Q k wild f = tt

-- The invariant, for an environment that is not free.
abbrev Dying : ℕ → Kernel → Type 0
Dying e s = IsOk s × ((s.envs e).status ≢ env_free_status)

-- The invariant once e was freed, which may still be current.
pub record IsFreed (e : ℕ) (k : Kernel) : Type 0 where
  pub envs : IsEnvs k
  pub free_once : IsNodup k.env_free_list
  pub free_status : (x : ℕ) → elem x k.env_free_list ≡ true → (k.envs x).status ≡ env_free_status
  pub live : (c : ℕ) → k.curenv ≡ some c → c ≢ e → (k.envs c).status ≢ env_free_status

abbrev freed : ℕ → Kernel → Kernel
freed e k = record (with_env e (λ x. record x { status = env_free_status }) k) {
  env_free_list = e ∷ k.env_free_list;
  env_sched_list = erase e k.env_sched_list;
}

freed_status :
    (e : ℕ) (k : Kernel) (x : ℕ)
    → ((freed e k).envs x).status ≡ (if e == x then env_free_status else (k.envs x).status)
freed_status e k x = elim (ℕ_discrete e x) [ yes p ↦ rw (eq→== e x p) | no n ↦ rw (ne→== e x n) ]

freed-IsFreed : (e : ℕ) (k : Kernel) → Dying e k → IsFreed e (freed e k)
freed-IsFreed e k d = record {
  envs = record {
    once = erase-IsNodup e k.env_sched_list d.0.envs.once;
    runnable = λ x. rw (freed_status e k x) (elim (ℕ_discrete e x) [
      | yes p ↦ rw (eq→== e x p, ← p) (elem-erase_self e k.env_sched_list d.0.envs.once)
      | no n ↦
          rw (ne→== e x n, elem-erase_ne x e k.env_sched_list (ne→== x e (λ r. n (sym r))))
            (d.0.envs.runnable x)
    ]);
  };
  free_once = (off_free k e d.0 d.1, d.0.free_once);
  free_status = λ x i. rw (freed_status e k x) (elim (ℕ_discrete e x) [
    | yes p ↦ rw (eq→== e x p)
    | no n ↦ rw (ne→== e x n) (d.0.free_status x (ground (arith, i, n)))
  ]);
  live = λ c q n. rw (freed_status e k c) (rw (ne→== e c (λ r. n (sym r))) (d.0.live c q));
}

abbrev bury : ℕ → Proc Kernel (Unit {0})
bury e = do
  set_env e (λ x. record x { status = env_free_status })
  modify (λ (k : Kernel). record k { env_free_list = e ∷ k.env_free_list })
  sched_remove e

bury-IsFreed : (e : ℕ) (k : Kernel) → Dying e k → Ends (λ _. IsFreed e) IsOk (bury e k)
unfolding sched_remove
bury-IsFreed e k d = elim (Bool-cases (elem e k.env_sched_list)) [
  | inl i ↦ rw i (freed-IsFreed e k d)
  | inr i ↦ rw i tt
]

-- Only the memory of the kernel changes, and its bitmap.
mm-Dying :
    {A : Type 0} (e : ℕ) (p : Proc Mem A) (k : Kernel)
    → Dying e k
    → Ends (λ _. Dying e) IsOk (in_mm p k)
mm-Dying e p k d =
    weaken (λ _. Dying e) (Dying e) IsOk (in_mm p k) (λ s i. i.0)
      (Ends-embed (Dying e) k (p k.mm)
        (λ m. (IsOk-same k (record k { mm = m }) refl refl refl (λ x. refl) d.0, d.1)))

asid-Dying : (e i : ℕ) (k : Kernel) → Dying e k → Ends (λ _. Dying e) IsOk (asid_free i k)
unfolding asid_free
asid-Dying e i k d = (IsOk-same k _ refl refl refl (λ x. refl) d.0, d.1)

env_free-IsFreed : (e : ℕ) (k : Kernel) → Dying e k → Ends (λ _. IsFreed e) IsOk (env_free e k)
unfolding env_free
env_free-IsFreed e k d =
    let r = k.envs e in
    Ends-bind (λ _. Dying e) (λ _. IsFreed e) IsOk
      (in_mm (free_space (r.pgdir) (r.asid) (r.pgdir_copy_pa)) k)
      (λ _. do asid_free (r.asid); in_mm (tlb_flush (r.asid) 0); bury e)
      (mm-Dying e (free_space (r.pgdir) (r.asid) (r.pgdir_copy_pa)) k d)
      (λ _ s i.
        Ends-bind (λ _. Dying e) (λ _. IsFreed e) IsOk (asid_free (r.asid) s)
          (λ _. do in_mm (tlb_flush (r.asid) 0); bury e) (asid-Dying e (r.asid) s i)
          (λ _ t j.
            Ends-bind (λ _. Dying e) (λ _. IsFreed e) IsOk (in_mm (tlb_flush (r.asid) 0) t)
              (λ _. bury e) (mm-Dying e (tlb_flush (r.asid) 0) t j) (λ _ u n. bury-IsFreed e u n)))

abbrev leave : ℕ → Option ℕ → Proc Kernel (Unit {0})
leave e c =
    if is_cur c e
    then (do modify (λ (k : Kernel). record k { curenv = none }); schedule true)
    else pure tt

none-some : (c : ℕ) → none ≡ some c → ⊥
none-some c q = cc

leave-IsOk :
    (e : ℕ) (s : Kernel) (c : Option ℕ)
    → s.curenv ≡ c
    → IsFreed e s
    → Ends (λ _. IsOk) IsOk (leave e c s)
leave-IsOk e s none q f = record {
  envs = f.envs;
  free_once = f.free_once;
  free_status = f.free_status;
  live = λ x p. absurd (none-some x (sym q ∙ p));
}
leave-IsOk e s (some c) q f = elim (ℕ_discrete c e) [
  | yes p ↦ rw (eq→== c e p) (
      schedule-Keeps true (record s { curenv = none })
        (record {
          envs = record { once = f.envs.once; runnable = f.envs.runnable };
          free_once = f.free_once;
          free_status = f.free_status;
          live = λ x r. absurd (none-some x r);
        }))
  | no n ↦ rw (ne→== c e n) (record {
    envs = f.envs;
    free_once = f.free_once;
    free_status = f.free_status;
    live = λ x p. f.live x p (λ r. n (some-injective c x (sym q ∙ p) ∙ r));
  })
]

env_destroy-IsOk : (e : ℕ) (k : Kernel) → Dying e k → Ends (λ _. IsOk) IsOk (env_destroy e k)
unfolding env_destroy
env_destroy-IsOk e k d =
    Ends-bind (λ _. IsFreed e) (λ _. IsOk) IsOk (env_free e k)
      (λ _. do c ← get (λ (k : Kernel). k.curenv); leave e c) (env_free-IsFreed e k d)
      (λ _ s f. leave-IsOk e s s.curenv refl f)

pub sys_env_destroy-Keeps : (envid : ℕ) → Keeps (sys_env_destroy envid)
unfolding sys_env_destroy
sys_env_destroy-Keeps envid k h =
    found_live k envid true (λ e. do env_destroy e; pure 0) h
      (λ e n.
        Ends-bind (λ _. IsOk) (λ _. IsOk) IsOk (env_destroy e k) (λ _. pure 0)
          (env_destroy-IsOk e k (h, n)) (λ _ s i. i))

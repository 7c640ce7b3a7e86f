-- ===== src/Sched/Invariant.antt =====
-- The lists of environments and their states: the invariant of the kernel, and the procedures that keep
-- it.
use native.Mathlib.Decide.{ℕ_discrete}
use run_mos_on_risc_v.Prelude.{
  ℕ, ◌≡◌, ◌≢◌, refl, sym, ◌∙◌, true, false, some, List, ◌==◌, if◌then◌else◌, eq→==, ne→==, elem,
  IsNodup,
}
use run_mos_on_risc_v.Prelude.Proc.{Proc, Ends}
use run_mos_on_risc_v.Kernel.{Kernel, Env, env_free_status, env_runnable, with_env}
use run_mos_on_risc_v.Sched.Queue.{IsEnvs}

-- The list of runnable environments is right; the free list holds free environments, each once; and
-- the current environment is not free.
pub record IsOk (k : Kernel) : Type 0 where
  pub envs : IsEnvs k
  pub free_once : IsNodup k.env_free_list
  pub free_status : (e : ℕ) → elem e k.env_free_list ≡ true → (k.envs e).status ≡ env_free_status
  pub live : (c : ℕ) → k.curenv ≡ some c → (k.envs c).status ≢ env_free_status

-- The same lists, the same current environment, the same states.
pub IsOk-same :
    (k s : Kernel)
    → s.env_sched_list ≡ k.env_sched_list
    → s.env_free_list ≡ k.env_free_list
    → s.curenv ≡ k.curenv
    → ((e : ℕ) → (s.envs e).status ≡ (k.envs e).status)
    → IsOk k
    → IsOk s
IsOk-same k s l f c st h = record {
  envs = record { once = rw l h.envs.once; runnable = λ e. rw (l, st e) (h.envs.runnable e) };
  free_once = rw f h.free_once;
  free_status = λ e i. st e ∙ h.free_status e (rw (← f) i);
  live = λ e q z. h.live e (sym c ∙ q) (sym (st e) ∙ z);
}

pub with_env-status :
    (e : ℕ) (f : Env → Env) (k : Kernel)
    → ((r : Env) → (f r).status ≡ r.status)
    → (x : ℕ) → ((with_env e f k).envs x).status ≡ (k.envs x).status
with_env-status e f k s x = elim (ℕ_discrete e x) [
  | yes p ↦ rw (eq→== e x p, s (k.envs e), p)
  | no n ↦ rw (ne→== e x n)
]

pub with_env-IsOk :
    (e : ℕ) (f : Env → Env) (k : Kernel)
    → ((r : Env) → (f r).status ≡ r.status)
    → IsOk k
    → IsOk (with_env e f k)
with_env-IsOk e f k s h = IsOk-same k (with_env e f k) refl refl refl (with_env-status e f k s) h

-- An environment off the free list gets a state that is not free, and its place in the list of
-- runnable environments with it.
module _ (k : Kernel) (e s : ℕ) (f : Env → Env) (xs : List ℕ) where
  placed_status :
      ((r : Env) → (f r).status ≡ s)
      → (x : ℕ) → ((with_env e f k).envs x).status ≡ (if e == x then s else (k.envs x).status)
  placed_status sf x = elim (ℕ_discrete e x) [
    | yes p ↦ rw (eq→== e x p, sf (k.envs e))
    | no n ↦ rw (ne→== e x n)
  ]

  pub placed-IsOk :
      ((r : Env) → (f r).status ≡ s)
      → s ≢ env_free_status
      → elem e k.env_free_list ≡ false
      → IsNodup xs
      → ((x : ℕ) → elem x xs ≡ (if e == x then s == env_runnable else elem x k.env_sched_list))
      → IsOk k
      → IsOk (record (with_env e f k) { env_sched_list = xs })
  placed-IsOk sf nz off once listed h = record {
    envs = record {
      once = once;
      runnable = λ x. rw (placed_status sf x) (elim (ℕ_discrete e x) [
        | yes p ↦ listed x ∙ rw (eq→== e x p)
        | no n ↦ listed x ∙ rw (ne→== e x n) (h.envs.runnable x)
      ]);
    };
    free_once = h.free_once;
    free_status = λ x i. rw (placed_status sf x) (elim (ℕ_discrete e x) [
      | yes p ↦ let j : elem e k.env_free_list ≡ true = rw p i in absurd cc
      | no n ↦ rw (ne→== e x n) (h.free_status x i)
    ]);
    live = λ x q. rw (placed_status sf x) (elim (ℕ_discrete e x) [
      | yes p ↦ rw (eq→== e x p) nz
      | no n ↦ rw (ne→== e x n) (h.live x q)
    ]);
  }

-- A procedure that keeps the invariant, however it ends.
abbrev pub Keeps {ℓ} : {A : Type ℓ} → Proc Kernel A → Type 0
Keeps p = (k : Kernel) → IsOk k → Ends (λ _. IsOk) IsOk (p k)

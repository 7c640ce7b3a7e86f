-- ===== src/Sched/Start.antt =====
-- env_init establishes the invariant of the kernel.
use run_mos_on_risc_v.Prelude.{
  ℕ, zero, suc, ◌+◌, ◌≤◌, ◌≡◌, true, false, none, List, [], ◌∷◌, ◌==◌, elem, IsNodup,
}
use run_mos_on_risc_v.Kernel.{Kernel, env_free_status, env_runnable, nenv, with_env}
use run_mos_on_risc_v.Sched.Invariant.{IsOk}

-- The environments from n on are freed.
pub record IsFrom (n : ℕ) (k : Kernel) : Type 0 where
  pub idle : k.env_sched_list ≡ []
  pub nobody : k.curenv ≡ none
  pub once : IsNodup k.env_free_list
  pub above : (e : ℕ) → elem e k.env_free_list ≡ true → n ≤ e
  pub free : (e : ℕ) → elem e k.env_free_list ≡ true → (k.envs e).status ≡ env_free_status
  pub blocked : (e : ℕ) → n ≤ e → ((k.envs e).status == env_runnable) ≡ false

abbrev free_one : ℕ → Kernel → Kernel
free_one n k = record (with_env n (λ e. record e { status = env_free_status }) k) {
  env_free_list = n ∷ k.env_free_list;
}

-- n numbers from i.
pub counting : ℕ → ℕ → List ℕ
counting zero i = []
counting (suc n) i = i ∷ counting n (i + 1)

-- The lists are well formed, every environment of the array is on the free list, in the order of the
-- array, and none is runnable.
abbrev pub IsInitial : Kernel → Type 0
IsInitial k = IsOk k × (k.env_free_list ≡ counting nenv 0) × (k.env_sched_list ≡ [])

-- ===== src/Syscall/Wake.antt =====
-- The system calls that block and wake environments keep the invariant.
use native.Mathlib.Decide.{ℕ_discrete}
use run_mos_on_risc_v.Prelude.{
  ℕ, ◌≡◌, ◌≢◌, ◌⊎◌, refl, sym, ap, ◌∙◌, Bool, true, false, Option, none, some, inl, inr, Bool-cases,
  arith, ◌==◌, if◌then◌else◌, ◌||◌, ◌++◌, List, [], ◌∷◌, elem, erase, IsNodup, elem-append,
  elem-erase_ne, elem-erase_self, erase-IsNodup, append-IsNodup, eq→==, ne→==, ==-refl,
}
use run_mos_on_risc_v.Prelude.Proc.{
  ok, wild, Proc, Ends, Ends-bind, ◌>>=◌, ◌>>◌, pure, fail, bad_env,
}
use run_mos_on_risc_v.Kernel.{
  Kernel, Env, set_env, with_env, cur, sched_insert_tail, sched_remove, env_free_status,
  env_runnable, env_not_runnable,
}
use run_mos_on_risc_v.Env.{envid2env, not_permitted, envx}
use run_mos_on_risc_v.Sched.Invariant.{IsOk, Keeps, placed-IsOk}
use run_mos_on_risc_v.Syscall.{set_status_list, sys_set_env_status}

-- An environment that is not free, in the state k.
abbrev pub Live : Kernel → ℕ → Kernel → Type 0
Live k e s = (s ≡ k) × ((k.envs e).status ≢ env_free_status)

pub cur-Live : (k : Kernel) → IsOk k → Ends (Live k) IsOk (cur k)
unfolding cur
cur-Live k h = go k.curenv refl
  where
    go :
        (o : Option ℕ)
        → k.curenv ≡ o
        → Ends (Live k) IsOk (elim o [ none ↦ wild | some e ↦ ok e k ])
    go none q = tt
    go (some e) q = (refl, h.live e q)

permitted-Live :
    (k : Kernel) (e : ℕ) (checkperm : Bool) (o : Option ℕ)
    → IsOk k
    → (k.envs e).status ≢ env_free_status
    → Ends
        (Live k)
        IsOk
        ((do refused ← not_permitted checkperm e o; if refused then fail bad_env else pure e) k)
unfolding not_permitted
permitted-Live k e false o h n = (refl, n)
permitted-Live k e true none h n = tt
permitted-Live k e true (some c) h n = ground (arith, h, n)

pub envid2env-Live :
    (k : Kernel) (envid : ℕ) (checkperm : Bool)
    → IsOk k
    → Ends (Live k) IsOk (envid2env envid checkperm k)
unfolding envid2env
envid2env-Live k envid checkperm h = elim (Bool-cases (envid == 0)) [
  | inl z ↦ rw z (cur-Live k h)
  | inr z ↦ elim (ℕ_discrete (k.envs (envx envid)).status env_free_status) [
    | yes f ↦ rw (z, eq→== _ _ f) h
    | no f ↦ elim (Bool-cases ((k.envs (envx envid)).id == envid)) [
      | inl i ↦ rw (z, ne→== _ _ f, i) (permitted-Live k (envx envid) checkperm k.curenv h f)
      | inr i ↦ rw (z, ne→== _ _ f, i) h
    ]
  ]
]

pub off_free :
    (k : Kernel) (e : ℕ)
    → IsOk k
    → (k.envs e).status ≢ env_free_status
    → elem e k.env_free_list ≡ false
off_free k e h n = elim (Bool-cases (elem e k.env_free_list)) [
  | inl i ↦ absurd (n (h.free_status e i))
  | inr i ↦ i
]

tail_listed : (xs : List ℕ) (e x : ℕ) → elem x (xs ++ e ∷ []) ≡ (if e == x then true else elem x xs)
tail_listed xs e x = elim (ℕ_discrete e x) [
  | yes p ↦ rw (eq→== e x p, elem-append x xs (e ∷ []), p) (ground (arith, ==-refl x))
  | no n ↦ rw (ne→== e x n, elem-append x xs (e ∷ [])) (ground (arith, n))
]

erase_listed :
    (xs : List ℕ) (e x : ℕ)
    → IsNodup xs
    → elem x (erase e xs) ≡ (if e == x then false else elem x xs)
erase_listed xs e x n = elim (ℕ_discrete e x) [
  | yes p ↦ rw (eq→== e x p, ← p) (elem-erase_self e xs n)
  | no q ↦ rw (ne→== e x q) (elem-erase_ne x e xs (ne→== x e (λ r. q (sym r))))
]

pub same_listed :
    (xs : List ℕ) (e x : ℕ) (b : Bool)
    → elem e xs ≡ b
    → elem x xs ≡ (if e == x then b else elem x xs)
same_listed xs e x b i = elim (ℕ_discrete e x) [
  | yes p ↦ rw (eq→== e x p, ← p) i
  | no q ↦ rw (ne→== e x q)
]

-- An environment that is woken goes to the tail.
pub woken-IsOk :
    (k : Kernel) (e : ℕ) (f : Env → Env)
    → ((r : Env) → (f r).status ≡ env_runnable)
    → (k.envs e).status ≢ env_free_status
    → elem e k.env_sched_list ≡ false
    → IsOk k
    → IsOk (record (with_env e f k) { env_sched_list = k.env_sched_list ++ e ∷ [] })
woken-IsOk k e f sf n out h =
    placed-IsOk k e env_runnable f (k.env_sched_list ++ e ∷ []) sf (omega arith) (off_free k e h n)
      (append-IsNodup e k.env_sched_list out h.envs.once) (tail_listed k.env_sched_list e) h

-- An environment that is blocked leaves the list.
pub blocked-IsOk :
    (k : Kernel) (e : ℕ) (f : Env → Env)
    → ((r : Env) → (f r).status ≡ env_not_runnable)
    → (k.envs e).status ≢ env_free_status
    → IsOk k
    → IsOk (record (with_env e f k) { env_sched_list = erase e k.env_sched_list })
blocked-IsOk k e f sf n h =
    placed-IsOk k e env_not_runnable f (erase e k.env_sched_list) sf (omega arith)
      (off_free k e h n) (erase-IsNodup e k.env_sched_list h.envs.once)
      (λ x. erase_listed k.env_sched_list e x h.envs.once) h

abbrev to_status : ℕ → Env → Env
to_status status r = record r { status = status }

abbrev set_both : ℕ → ℕ → Proc Kernel ℕ
set_both e status = do set_status_list e status; set_env e (to_status status); pure 0

set_same :
    (k : Kernel) (e status : ℕ)
    → IsOk k
    → (k.envs e).status ≢ env_free_status
    → (k.envs e).status ≡ status
    → Ends (λ _. IsOk) IsOk (set_both e status k)
unfolding set_status_list
set_same k e status h n p = rw (eq→== _ _ p) (
    placed-IsOk k e status (to_status status) k.env_sched_list (λ r. refl) (λ z. n (p ∙ z))
      (off_free k e h n) h.envs.once
      (λ x.
        same_listed k.env_sched_list e x (status == env_runnable)
          (h.envs.runnable e ∙ ap (λ (v : ℕ). v == env_runnable) p))
      h)

set_runnable :
    (k : Kernel) (e : ℕ)
    → IsOk k
    → (k.envs e).status ≢ env_free_status
    → (k.envs e).status ≢ env_runnable
    → Ends (λ _. IsOk) IsOk (set_both e env_runnable k)
unfolding set_status_list sched_insert_tail
set_runnable k e h n p =
    let out : elem e k.env_sched_list ≡ false = h.envs.runnable e ∙ ne→== _ _ p in
    rw (ne→== _ _ p, out) (woken-IsOk k e (to_status env_runnable) (λ r. refl) n out h)

set_blocked :
    (k : Kernel) (e : ℕ)
    → IsOk k
    → (k.envs e).status ≢ env_free_status
    → (k.envs e).status ≢ env_not_runnable
    → Ends (λ _. IsOk) IsOk (set_both e env_not_runnable k)
unfolding set_status_list sched_remove
set_blocked k e h n p = elim (Bool-cases (elem e k.env_sched_list)) [
  | inl i ↦ rw (ne→== _ _ p, i) (blocked-IsOk k e (to_status env_not_runnable) (λ r. refl) n h)
  | inr i ↦ rw (ne→== _ _ p, i) tt
]

set_both-IsOk :
    (k : Kernel) (e status : ℕ)
    → IsOk k
    → (k.envs e).status ≢ env_free_status
    → (status ≡ env_runnable) ⊎ (status ≡ env_not_runnable)
    → Ends (λ _. IsOk) IsOk (set_both e status k)
set_both-IsOk k e status h n which = elim (ℕ_discrete (k.envs e).status status) [
  | yes p ↦ set_same k e status h n p
  | no p ↦ elim which [
    | inl s ↦ rw s (set_runnable k e h n (λ q. p (q ∙ sym s)))
    | inr s ↦ rw s (set_blocked k e h n (λ q. p (q ∙ sym s)))
  ]
]

-- What follows a successful envid2env.
pub found_live :
    (k : Kernel) (envid : ℕ) (checkperm : Bool) (f : ℕ → Proc Kernel ℕ)
    → IsOk k
    → ((e : ℕ) → (k.envs e).status ≢ env_free_status → Ends (λ _. IsOk) IsOk (f e k))
    → Ends (λ _. IsOk) IsOk ((do e ← envid2env envid checkperm; f e) k)
found_live k envid checkperm f h g =
    Ends-bind (Live k) (λ _. IsOk) IsOk (envid2env envid checkperm k) f
      (envid2env-Live k envid checkperm h) (λ e s l. rw (l.0) (g e l.1))

pub sys_set_env_status-Keeps : (envid status : ℕ) → Keeps (sys_set_env_status envid status)
unfolding sys_set_env_status
sys_set_env_status-Keeps envid status k h =
    elim (Bool-cases (status == env_runnable || status == env_not_runnable)) [
      | inl b ↦ rw b (
          found_live k envid true (λ e. set_both e status) h
            (λ e n. set_both-IsOk k e status h n (ground arith)))
      | inr b ↦ rw b h
    ]

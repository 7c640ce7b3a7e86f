-- ===== src/Pipe/Closed.antt =====
-- _pipe_is_closed of user/lib/pipe.c: the two reference counts belong to one moment.
use run_mos_on_risc_v.Prelude.{
  ℕ, zero, suc, ◌+◌, ◌*◌, ◌≤◌, ◌<◌, ◌≡◌, Bool, some, arith, ◌==◌, inl, inr, Bool-cases, eq→==,
}
use run_mos_on_risc_v.Pipe.{Moment, is_closed}

-- The counts change only while other environments run, and then env_runs grows: between two moments,
-- at most three apart, with the same env_runs they are the same.
abbrev pub IsSteady : (ℕ → Moment) → Type 0
IsSteady h =
    (t j : ℕ)
    → (h t).runs ≡ (h (t + 3)).runs
    → j ≤ 3
    → ((h (t + j)).fd_ref ≡ (h t).fd_ref) × ((h (t + j)).pipe_ref ≡ (h t).pipe_ref)

-- The answer holds at a moment between the call and the return.
abbrev pub IsSnapshot : (ℕ → Moment) → ℕ → Bool → ℕ → Type 0
IsSnapshot h t b u = (v : ℕ) × (t ≤ v) × (v < u) × (b ≡ ((h v).fd_ref == (h v).pipe_ref))

at_once :
    (h : ℕ → Moment) (t fuel : ℕ)
    → IsSteady h
    → (h t).runs ≡ (h (t + 3)).runs
    → (b : Bool) × (u : ℕ) × (is_closed (suc fuel) h t ≡ some (b, u)) × IsSnapshot h t b u
unfolding is_closed
at_once h t fuel st same =
    let (a, _) = st t 1 same (omega arith) in
    let (_, c) = st t 2 same (omega arith) in
    (
      (h (t + 1)).fd_ref == (h (t + 2)).pipe_ref,
      t + 4,
      rw (eq→== _ _ same),
      (t, omega arith, omega arith, rw (a, c)),
    )

-- If counts change only while env_runs grows, and env_runs is the same at the two ends of some round of
-- the loop, then _pipe_is_closed returns, with enough fuel for that round, and its answer compares the two
-- counts as they are at one moment between its call and its return.
pub is_closed-IsSnapshot :
    (h : ℕ → Moment) (t k fuel : ℕ)
    → IsSteady h
    → (h (t + 4 * k)).runs ≡ (h (t + 4 * k + 3)).runs
    → k < fuel
    → (b : Bool) × (u : ℕ) × (is_closed fuel h t ≡ some (b, u)) × IsSnapshot h t b u
unfolding is_closed
is_closed-IsSnapshot h t k zero st e l = absurd (omega arith)
is_closed-IsSnapshot h t zero (suc fuel) st e l =
    let p : t + 4 * 0 ≡ t = omega arith in
    let same : (h t).runs ≡ (h (t + 3)).runs = rw p at e in at_once h t fuel st same
is_closed-IsSnapshot h t (suc k) (suc fuel) st e l =
    elim (Bool-cases ((h t).runs == (h (t + 3)).runs)) [
      | inl g ↦ at_once h t fuel st (ground arith)
      | inr g ↦
          let p : t + 4 * suc k ≡ t + 4 + 4 * k = omega arith in
          let (b, u, r, (v, x, y, z)) =
            is_closed-IsSnapshot h (t + 4) k fuel st (rw p at e) (omega arith) in
          (b, u, rw g r, (v, omega arith, y, z))
    ]

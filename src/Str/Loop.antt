-- ===== src/Str/Loop.antt =====
-- The loops of lib/string.c that work through n places.
use run_mos_on_risc_v.Prelude.{
  ℕ, zero, suc, ◌+◌, ◌≤◌, ◌≡◌, ap, ◌∙◌, Bool, true, false, some, arith, inl, inr, Bool-cases,
}
use run_mos_on_risc_v.Str.{while}

-- at k is the state with k places done, and the loop's body does w more.
module _ {ℓ} {S : Type ℓ} (at : ℕ → S) (n : ℕ) (go : S → Bool) (step : S → S) where
  -- The loop that starts with k places done ends where its test fails.
  abbrev pub Stops : ℕ → ℕ → Type ℓ
  Stops fuel k = (l : ℕ) × (l ≤ n) × (go (at l) ≡ false) × (while go step fuel (at k) ≡ some (at l))

  pub loop_lem :
      (w : ℕ)
      → 1 ≤ w
      → ((k : ℕ) → k ≤ n → go (at k) ≡ true → k + w ≤ n)
      → ((k : ℕ) → k + w ≤ n → step (at k) ≡ at (k + w))
      → (fuel k : ℕ) → k ≤ n
      → n ≤ fuel + k
      → Stops fuel k
  unfolding while
  loop_lem w pos bound steps zero k low enough = elim (Bool-cases (go (at k))) [
    | inl g ↦ absurd (omega (arith, bound k low g))
    | inr g ↦ (k, low, g, rw g)
  ]
  loop_lem w pos bound steps (suc fuel) k low enough = elim (Bool-cases (go (at k))) [
    | inl g ↦
        let (l, d, f, e) = loop_lem w pos bound steps fuel (k + w) (bound k low g) (omega arith) in
        (l, d, f, rw g (ap (while go step fuel) (steps k (bound k low g)) ∙ e))
    | inr g ↦ (k, low, g, rw g)
  ]

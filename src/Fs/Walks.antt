-- ===== src/Fs/Walks.antt =====
-- fs/fs.c: the loop of walk_path ends, since each round shortens the path.
use mathlib.Core.Path.{fun_ext}
use run_mos_on_risc_v.Prelude.{
  ℕ, zero, suc, ◌+◌, ◌≤◌, ◌<◌, ◌≡◌, ◌≢◌, refl, sym, ap, ◌∙◌, not, List, [], ◌∷◌, arith, leb, ◌==◌,
  if◌then◌else◌, length, inl, inr, Bool-cases,
}
use run_mos_on_risc_v.Prelude.Proc.{
  Run, Error, and_then, Proc, ok, err, left, panic, wild, fail, ◌>>=◌, bad_path, not_found,
}
use run_mos_on_risc_v.Fs.Cache.{Server, load}
use run_mos_on_risc_v.Fs.File.{f_type}
use run_mos_on_risc_v.Fs.Path.{
  Walk, endless, walk, walk_path, lost, skip_slash, element, after_element, dir_lookup, maxnamelen,
  ftype_dir,
}

skip_slash-shorter : (p : List ℕ) → length (skip_slash p) ≤ length p
unfolding skip_slash
skip_slash-shorter [] = omega arith
skip_slash-shorter (c ∷ p) = elim (Bool-cases (c == b'/')) [
  | inl e ↦ rw e (omega (arith, skip_slash-shorter p))
  | inr e ↦ rw e (omega arith)
]

after_element-shorter : (p : List ℕ) → length (after_element p) ≤ length p
unfolding after_element
after_element-shorter [] = omega arith
after_element-shorter (c ∷ p) = elim (Bool-cases (c == b'/')) [
  | inl e ↦ rw e (omega arith)
  | inr e ↦ rw e (omega (arith, after_element-shorter p))
]

-- A round takes at least a character off the path.
walk_round-shorter : (c : ℕ) (p : List ℕ) → length (skip_slash (after_element (c ∷ p))) ≤ length p
unfolding after_element skip_slash
walk_round-shorter c p = elim (Bool-cases (c == b'/')) [
  | inl e ↦ rw (e, e) (skip_slash-shorter p)
  | inr e ↦ rw e (omega (arith, skip_slash-shorter (after_element p), after_element-shorter p))
]

-- What follows dir_lookup in a round of the loop, which goes on as `w` says, and the round.
abbrev looked_up : (ℕ → ℕ → Proc Server Walk) → ℕ → List ℕ → List ℕ → Run Server ℕ → Run Server Walk
looked_up w file name rest r = elim r [
  | ok f t ↦ w file f t
  | err e t ↦ lost e file name rest t
  | left t ↦ left t
  | panic ↦ panic
  | wild ↦ wild
]

abbrev walk_round : (ℕ → ℕ → Proc Server Walk) → ℕ → List ℕ → ℕ → Proc Server Walk
walk_round w c path file =
    let name : List ℕ = element (c ∷ path) in
    let rest : List ℕ = skip_slash (after_element (c ∷ path)) in
    if leb maxnamelen (length name) then fail bad_path else (do
      type ← load (f_type file)
      if not (type == ftype_dir)
          then fail not_found
          else (λ s. looked_up w file name rest (dir_lookup file name s)))

walk-rounds :
    (n c : ℕ) (path : List ℕ) (dir file : ℕ)
    → walk (suc n) (c ∷ path) dir file
      ≡ walk_round (walk n (skip_slash (after_element (c ∷ path)))) c path file
unfolding walk
walk-rounds n c path dir file = refl

walk-fuel :
    (n m : ℕ) (path : List ℕ) (dir file : ℕ)
    → length path < n
    → length path < m
    → walk n path dir file ≡ walk m path dir file
walk-fuel zero m path dir file h k = absurd (omega arith)
walk-fuel (suc n) zero path dir file h k = absurd (omega arith)
walk-fuel (suc n) (suc m) [] dir file h k = unfold walk in refl
walk-fuel (suc n) (suc m) (c ∷ path) dir file h k =
    let rest : List ℕ = skip_slash (after_element (c ∷ path)) in
    let low : length rest ≤ length path = walk_round-shorter c path in
    walk-rounds n c path dir file
    ∙ ap (λ w. walk_round w c path file)
        (fun_ext (λ d. fun_ext (λ f. walk-fuel n m rest d f (omega arith) (omega arith))))
    ∙ sym (walk-rounds m c path dir file)

-- A run of the loop that does not use up its fuel.
abbrev Stops : Run Server Walk → Type 0
Stops (ok endless t) = ⊥
Stops other = Unit {0}

lost-Stops :
    (e : Error) (dir : ℕ) (name rest : List ℕ) (t : Server) → Stops (lost e dir name rest t)
unfolding lost
lost-Stops not_found dir name [] t = tt
lost-Stops not_found dir name (c ∷ rest) t = tt
lost-Stops e dir name rest t = tt

Stops-then {ℓ} :
    {A : Type ℓ} (r : Run Server A) (k : A → Proc Server Walk)
    → ((a : A) (t : Server) → Stops (k a t))
    → Stops (and_then r k)
Stops-then (ok a t) k h = h a t
Stops-then (err e t) k h = tt
Stops-then (left t) k h = tt
Stops-then panic k h = tt
Stops-then wild k h = tt

looked_up-Stops :
    (w : ℕ → ℕ → Proc Server Walk) (file : ℕ) (name rest : List ℕ) (r : Run Server ℕ)
    → ((d f : ℕ) (t : Server) → Stops (w d f t))
    → Stops (looked_up w file name rest r)
looked_up-Stops w file name rest (ok f t) h = h file f t
looked_up-Stops w file name rest (err e t) h = lost-Stops e file name rest t
looked_up-Stops w file name rest (left t) h = tt
looked_up-Stops w file name rest panic h = tt
looked_up-Stops w file name rest wild h = tt

walk_round-Stops :
    (w : ℕ → ℕ → Proc Server Walk) (c : ℕ) (path : List ℕ) (file : ℕ) (s : Server)
    → ((d f : ℕ) (t : Server) → Stops (w d f t))
    → Stops (walk_round w c path file s)
walk_round-Stops w c path file s h =
    elim (Bool-cases (leb maxnamelen (length (element (c ∷ path))))) [
      | inl long ↦ rw long tt
      | inr short ↦ rw short (
          Stops-then (load (f_type file) s) _ λ type t.
            elim (Bool-cases (not (type == ftype_dir))) [
              | inl n ↦ rw n tt
              | inr d ↦ rw d (looked_up-Stops w file _ _ (dir_lookup file (element (c ∷ path)) t) h)
            ])
    ]

walk-Stops :
    (n : ℕ) (path : List ℕ) (dir file : ℕ) (s : Server)
    → length path < n
    → Stops (walk n path dir file s)
walk-Stops zero path dir file s h = absurd (omega arith)
walk-Stops (suc n) [] dir file s h = unfold walk in tt
walk-Stops (suc n) (c ∷ path) dir file s h =
    let rest : List ℕ = skip_slash (after_element (c ∷ path)) in
    let low : length rest ≤ length path = walk_round-shorter c path in
    rw (walk-rounds n c path dir file) (
      walk_round-Stops (walk n rest) c path file s (λ d f t. walk-Stops n rest d f t (omega arith)))

not_endless : (r : Run Server Walk) (t : Server) → Stops r → r ≢ ok endless t
not_endless r t h e = rw e at h

-- The loop of walk_path ends: it never uses up its rounds, of which there is one more than the path has
-- characters, and with any number of rounds above the length of the path walk_path gives the same.
pub walk_path-enough :
    (n : ℕ) (path : List ℕ) (s t : Server)
    → length path < n
    → (walk_path path s ≢ ok endless t)
      × (walk_path path s ≡ walk n (skip_slash path) 0 (s.super + 8) s)
unfolding walk_path
walk_path-enough n path s t h =
    let short = skip_slash-shorter path in
    (
      not_endless _ t
          (walk-Stops (suc (length path)) (skip_slash path) 0 (s.super + 8) s (omega arith)),
      ap (λ w. w s)
          (walk-fuel (suc (length path)) n (skip_slash path) 0 (s.super + 8) (omega arith)
            (omega arith)),
    )

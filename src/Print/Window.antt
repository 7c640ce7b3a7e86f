-- ===== src/Print/Window.antt =====
-- lib/print.c: the buffer of print_num as lists, read upwards and downwards.
use run_mos_on_risc_v.Prelude.{
  ℕ, zero, suc, ◌+◌, ◌-◌, ◌≤◌, ◌<◌, ◌≡◌, refl, ap, ◌∙◌, false, ◌&&◌, some, List, [], ◌∷◌, ◌++◌,
  arith, ltb, leb, le→ltb, if◌then◌else◌, update, inl, inr, Bool-cases,
}
use run_mos_on_risc_v.Print.{pad_with, reverse, window}

-- The n characters that end before i + n, the last one first.
unfoldable pub down : (ℕ → ℕ) → ℕ → ℕ → List ℕ
down buf i zero = []
down buf i (suc n) = buf (i + n) ∷ down buf i n

abbrev pub replicate : ℕ → ℕ → List ℕ
replicate zero c = []
replicate (suc n) c = c ∷ replicate n c

pub down-eq :
    (f g : ℕ → ℕ) (i n : ℕ) → ((q : ℕ) → i ≤ q → q < i + n → f q ≡ g q) → down f i n ≡ down g i n
unfolding down
down-eq f g i zero h = refl
down-eq f g i (suc n) h =
    rw (h (i + n) (omega arith) (omega arith))
      (ap (λ l. g (i + n) ∷ l) (down-eq f g i n (λ q a b. h q a (omega arith))))

pub down-const :
    (f : ℕ → ℕ) (c i n : ℕ) → ((q : ℕ) → i ≤ q → q < i + n → f q ≡ c) → down f i n ≡ replicate n c
unfolding down
down-const f c i zero h = refl
down-const f c i (suc n) h =
    rw (h (i + n) (omega arith) (omega arith))
      (ap (λ l. c ∷ l) (down-const f c i n (λ q a b. h q a (omega arith))))

pub down-add : (f : ℕ → ℕ) (i m n : ℕ) → down f i (m + n) ≡ down f (i + m) n ++ down f i m
unfolding down
down-add f i m zero = let e : m + 0 ≡ m = omega arith in rw e refl
down-add f i m (suc n) =
    let e : m + suc n ≡ suc (m + n) = omega arith in
    let a : i + (m + n) ≡ i + m + n = omega arith in
    rw (e, down, a) (ap (λ l. f (i + m + n) ∷ l) (down-add f i m n))

pub window-add : (f : ℕ → ℕ) (i m n : ℕ) → window f i (m + n) ≡ window f i m ++ window f (i + m) n
unfolding window
window-add f i zero n =
    let e : 0 + n ≡ n = omega arith in let a : i + 0 ≡ i = omega arith in rw (e, a) refl
window-add f i (suc m) n =
    let e : suc m + n ≡ suc (m + n) = omega arith in
    let a : i + suc m ≡ i + 1 + m = omega arith in
    rw (e, a) (ap (λ l. f i ∷ l) (window-add f (i + 1) m n))

pub window-const :
    (f : ℕ → ℕ) (c i n : ℕ) → ((q : ℕ) → i ≤ q → q < i + n → f q ≡ c) → window f i n ≡ replicate n c
unfolding window
window-const f c i zero h = refl
window-const f c i (suc n) h =
    rw (h i (omega arith) (omega arith))
      (ap (λ l. c ∷ l) (window-const f c (i + 1) n (λ q a b. h q (omega arith) (omega arith))))

-- A buffer that another one mirrors.
pub window-down :
    (f g : ℕ → ℕ) (i j n : ℕ)
    → ((q r : ℕ) → i ≤ q → q + r + 1 ≡ i + n → f q ≡ g (j + r))
    → window f i n ≡ down g j n
unfolding window down
window-down f g i j zero h = refl
window-down f g i j (suc n) h = rw (h i n (omega arith) (omega arith)) (
    ap (λ l. g (j + n) ∷ l)
      (window-down f g (i + 1) j n (λ q r a b. h q r (omega arith) (omega arith))))

pub pad_with_lem :
    (padc n i : ℕ) (buf : ℕ → ℕ) (q : ℕ)
    → pad_with padc n i buf q ≡ (if leb i q && leb (q + 1) (i + n) then padc else buf q)
unfolding pad_with
pad_with_lem padc zero i buf q = ground arith
pad_with_lem padc (suc n) i buf q =
    ground (arith, pad_with_lem padc n (i + 1) (update buf i padc) q)

-- The loop of swaps mirrors the characters from begin to end, if it has a round for each.
abbrev pub Mirrors : ℕ → ℕ → (ℕ → ℕ) → (ℕ → ℕ) → Type 0
Mirrors begin end buf turned =
    (q : ℕ) → turned q ≡ (if leb begin q && leb q end then buf (begin + end - q) else buf q)

swap : ℕ → ℕ → (ℕ → ℕ) → ℕ → ℕ
swap begin end buf = update (update buf begin (buf end)) end (buf begin)

swap-Mirrors :
    (begin end : ℕ) (buf turned : ℕ → ℕ)
    → begin < end
    → Mirrors (begin + 1) (end - 1) (swap begin end buf) turned
    → Mirrors begin end buf turned
unfolding swap
swap-Mirrors begin end buf turned h m q =
    let e : begin + 1 + (end - 1) - q ≡ begin + end - q = omega arith in
    m q ∙ rw e (ground (arith, ap buf))

reverse_ends :
    (k begin end : ℕ) (buf : ℕ → ℕ) → ltb begin end ≡ false → reverse k begin end buf ≡ some buf
unfolding reverse
reverse_ends zero begin end buf h = rw h
reverse_ends (suc k) begin end buf h = rw h

stays-Mirrors : (begin end : ℕ) (buf : ℕ → ℕ) → end ≤ begin → Mirrors begin end buf buf
stays-Mirrors begin end buf h q = elim (Bool-cases (leb begin q && leb q end)) [
  | inl g ↦ let e : begin + end - q ≡ q = ground arith in rw (g, e) refl
  | inr g ↦ rw g refl
]

pub reverse_lem :
    (k begin end : ℕ) (buf : ℕ → ℕ)
    → end < begin + k + k + 1
    → (turned : ℕ → ℕ) × (reverse k begin end buf ≡ some turned) × Mirrors begin end buf turned
unfolding reverse swap
reverse_lem zero begin end buf h =
    (buf, rw (le→ltb begin end (omega arith)), stays-Mirrors begin end buf (omega arith))
reverse_lem (suc k) begin end buf h = elim (Bool-cases (ltb begin end)) [
  | inl g ↦
      let (turned, e, m) =
        reverse_lem k (begin + 1) (end - 1) (swap begin end buf) (ground arith) in
      (turned, rw g e, swap-Mirrors begin end buf turned (ground arith) m)
  | inr g ↦ (buf, rw g, stays-Mirrors begin end buf (ground arith))
]

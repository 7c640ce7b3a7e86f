-- ===== src/Print/Digits.antt =====
-- lib/print.c: the digits that print_num makes, and the number that they spell.
use native.Mathlib.Nat.{mod-lt, div-add-mod', zero-div}
use run_mos_on_risc_v.Prelude.{
  ℕ, zero, suc, ◌+◌, ◌-◌, ◌*◌, ◌/◌, ◌%◌, ◌^◌, ◌≤◌, ◌<◌, ◌≡◌, ◌≢◌, refl, ap, ◌∙◌, Bool, true, false,
  some, List, [], ◌∷◌, ◌++◌, arith, leb, ◌==◌, if◌then◌else◌, update, length, inl, inr, Bool-cases,
  ne→==, ==-refl,
}
use run_mos_on_risc_v.Print.{put_digits, digit_char}
use run_mos_on_risc_v.Print.Window.{down}

-- What a reader makes of a digit, in either case.
unfoldable pub digit_value : ℕ → ℕ
digit_value c = if leb c b'9' then c - b'0' else if leb c b'Z' then c - b'A' + 10 else c - b'a' + 10

-- The number that digits spell behind n.
unfoldable pub spelled : ℕ → ℕ → List ℕ → ℕ
unfolding digit_value
spelled base n [] = n
spelled base n (c ∷ ds) = spelled base (n * base + digit_value c) ds

abbrev pub IsDigit : ℕ → Bool → ℕ → Type 0
IsDigit base upcase c = (d : ℕ) × (d < base) × (c ≡ digit_char upcase d)

abbrev pub IsDigits : ℕ → Bool → List ℕ → Type 0
IsDigits base upcase [] = Unit {0}
IsDigits base upcase (c ∷ ds) = IsDigit base upcase c × IsDigits base upcase ds

-- The first digit is a zero for the number 0 only.
abbrev pub Leads : ℕ → List ℕ → Type 0
Leads u [] = ⊥
Leads u (c ∷ ds) = (c == b'0') ≡ (u == 0)

-- The digits of u: each is one of the base, they spell u, and the first is 0 for the number 0 only.
pub record IsNumeral (base : ℕ) (upcase : Bool) (u : ℕ) (ds : List ℕ) : Type 0 where
  pub spells : spelled base 0 ds ≡ u
  pub digits : IsDigits base upcase ds
  pub leads : Leads u ds

digit_value-digit_char : (upcase : Bool) (d : ℕ) → d < 36 → digit_value (digit_char upcase d) ≡ d
unfolding digit_value digit_char
digit_value-digit_char true d h = ground arith
digit_value-digit_char false d h = ground arith

digit_char-zero : (upcase : Bool) (d : ℕ) → (digit_char upcase d == b'0') ≡ (d == 0)
unfolding digit_char
digit_char-zero true d = ground arith
digit_char-zero false d = ground arith

spelled-append :
    (base n : ℕ) (ds : List ℕ) (c : ℕ)
    → spelled base n (ds ++ c ∷ []) ≡ spelled base n ds * base + digit_value c
unfolding spelled
spelled-append base n [] c = refl
spelled-append base n (d ∷ ds) c = spelled-append base (n * base + digit_value d) ds c

IsDigits-append :
    (base : ℕ) (upcase : Bool) (ds : List ℕ) (c : ℕ)
    → IsDigits base upcase ds
    → IsDigit base upcase c
    → IsDigits base upcase (ds ++ c ∷ [])
IsDigits-append base upcase [] c h k = (k, tt)
IsDigits-append base upcase (d ∷ ds) c (h, hs) k = (h, IsDigits-append base upcase ds c hs k)

length-snoc : (ds : List ℕ) (c : ℕ) → length (ds ++ c ∷ []) ≡ length ds + 1
length-snoc [] c = refl
length-snoc (d ∷ ds) c = omega (arith, length-snoc ds c)

Leads-append :
    (u v : ℕ) (ds : List ℕ) (c : ℕ) → (u == 0) ≡ (v == 0) → Leads u ds → Leads v (ds ++ c ∷ [])
Leads-append u v [] c e h = absurd h
Leads-append u v (d ∷ ds) c e h = h ∙ e

-- Reading a buffer downwards, its lowest character comes last.
down_snoc : (f : ℕ → ℕ) (i n : ℕ) → down f i (suc n) ≡ down f (i + 1) n ++ f i ∷ []
unfolding down
down_snoc f i zero = let e : i + 0 ≡ i = omega arith in rw e refl
down_snoc f i (suc n) =
    let e : i + suc n ≡ i + 1 + n = omega arith in
    rw e (ap (λ l. f (i + 1 + n) ∷ l) (down_snoc f i n))

pub length-down : (f : ℕ → ℕ) (i n : ℕ) → length (down f i n) ≡ n
unfolding down
length-down f i zero = refl
length-down f i (suc n) = omega (arith, length-down f i n)

half_le : (u base q : ℕ) → 2 ≤ base → q * base ≤ u → q * 2 ≤ u
half_le u base q h k = grind arith

div_bound : (k u base : ℕ) → 2 ≤ base → u < 2 ^ suc k → u / base < 2 ^ k
div_bound k u base h l =
    let e : 2 ^ suc k ≡ 2 * 2 ^ k = omega arith in
    omega (arith, half_le u base (u / base) h (omega (arith, div-add-mod' u base)))

one_digit :
    (base : ℕ) (upcase : Bool) (u : ℕ)
    → 2 ≤ base
    → base ≤ 36
    → u / base ≡ 0
    → IsNumeral base upcase u (digit_char upcase (u % base) ∷ [])
unfolding spelled
one_digit base upcase u low high z =
    let m : u % base < base = mod-lt u (omega arith) in
    let e : u % base ≡ u = omega (arith, div-add-mod' u base, ap (λ (t : ℕ). t * base) z) in
    record {
      spells = rw (e, digit_value-digit_char upcase u (omega arith)) (omega arith);
      digits = ((u % base, m, refl), tt);
      leads = rw e (digit_char-zero upcase u);
    }

zero_div : (u base : ℕ) → u / base ≢ 0 → (u / base == 0) ≡ (u == 0)
zero_div u base z = let e : u ≢ 0 = λ h. z (rw h (zero-div base)) in ground arith

more_digits :
    (base : ℕ) (upcase : Bool) (u : ℕ) (ds : List ℕ)
    → 2 ≤ base
    → base ≤ 36
    → u / base ≢ 0
    → IsNumeral base upcase (u / base) ds
    → IsNumeral base upcase u (ds ++ digit_char upcase (u % base) ∷ [])
more_digits base upcase u ds low high z h =
    let m : u % base < base = mod-lt u (omega arith) in
    record {
      spells =
          spelled-append base 0 ds (digit_char upcase (u % base))
          ∙ rw (h.spells, digit_value-digit_char upcase (u % base) (omega arith))
              (div-add-mod' u base);
      digits = IsDigits-append base upcase ds _ h.digits (u % base, m, refl);
      leads = Leads-append (u / base) u ds _ (zero_div u base z) h.leads;
    }

ends-IsNumeral :
    (base : ℕ) (upcase : Bool) (u : ℕ) (buf : ℕ → ℕ) (p : ℕ)
    → 2 ≤ base
    → base ≤ 36
    → u / base ≡ 0
    → IsNumeral base upcase u (down (update buf p (digit_char upcase (u % base))) p 1)
unfolding down
ends-IsNumeral base upcase u buf p low high z =
    let a : p + 0 ≡ p = omega arith in rw (a, ==-refl p) (one_digit base upcase u low high z)

-- The digit loop ends, leaves what is below alone, and writes the numeral from its low end.
abbrev pub Put : ℕ → ℕ → Bool → ℕ → (ℕ → ℕ) → ℕ → Type 0
Put k base upcase u buf p =
    (buf' : ℕ → ℕ) × (n : ℕ) × (put_digits k base upcase u buf p ≡ some (buf', p + suc n))
    × (suc n ≤ k)
    × ((q : ℕ) → q < p → buf' q ≡ buf q)
    × IsNumeral base upcase u (down buf' p (suc n))

pub put_digits_lem :
    (k base : ℕ) (upcase : Bool) (u : ℕ) (buf : ℕ → ℕ) (p : ℕ)
    → 2 ≤ base
    → base ≤ 36
    → u < 2 ^ suc k
    → Put (suc k) base upcase u buf p
unfolding put_digits
put_digits_lem zero base upcase u buf p low high fits =
    let z : u / base ≡ 0 = omega (arith, div_bound 0 u base low fits) in
    (
      update buf p (digit_char upcase (u % base)),
      0,
      rw (z) refl,
      omega arith,
      λ q h. rw (ne→== p q (omega arith)) refl,
      ends-IsNumeral base upcase u buf p low high z,
    )
put_digits_lem (suc k) base upcase u buf p low high fits = elim (Bool-cases (u / base == 0)) [
  | inl g ↦ (
    update buf p (digit_char upcase (u % base)),
    0,
    rw g refl,
    omega arith,
    λ q h. rw (ne→== p q (omega arith)) refl,
    ends-IsNumeral base upcase u buf p low high (ground arith),
  )
  | inr g ↦
      let c = digit_char upcase (u % base) in
      let (buf', n, e, b, keeps, num) =
        put_digits_lem k base upcase (u / base) (update buf p c) (p + 1) low high
          (div_bound (suc k) u base low fits) in
      let a : p + 1 + suc n ≡ p + suc (suc n) = omega arith in
      let top : buf' p ≡ c = keeps p (omega arith) ∙ rw (==-refl p) refl in
      (
        buf',
        suc n,
        rw g (rw a at e),
        omega arith,
        λ q h. keeps q (omega arith) ∙ rw (ne→== p q (omega arith)) refl,
        rw (down_snoc buf' p (suc n), top)
            (more_digits base upcase u (down buf' (p + 1) (suc n)) low high (ground arith) num),
      )
]

-- ===== src/Print/Field.antt =====
-- lib/print.c: one conversion of a format, read back from the way it is written.
use run_mos_on_risc_v.Prelude.{
  ℕ, ◌+◌, ◌*◌, ◌%◌, ◌≤◌, ◌<◌, ◌≡◌, ◌≢◌, refl, ◌∙◌, Bool, true, false, ◌&&◌, List, [], ◌∷◌, ◌++◌,
  arith, ltb, leb, ◌==◌, if◌then◌else◌, ne→==, lt→ltb,
}
use run_mos_on_risc_v.Print.{Printer, ok, Print, and_then, pure, length_limit}
use run_mos_on_risc_v.Print.Digits.{digit_value, spelled}
use run_mos_on_risc_v.Print.Format.{first, rest, get_width, convert, conversion, directive}

-- The flags, the digits of the width, and the letter of a conversion.
pub record Spec : Type 0 where
  pub ladjust : Bool
  pub zeros : Bool
  pub width : List ℕ
  pub long : Bool
  pub letter : ℕ

abbrev pub with_flag : ℕ → Bool → List ℕ → List ℕ
with_flag c true fmt = c ∷ fmt
with_flag c false fmt = fmt

-- A conversion as it is written behind a '%', before the rest of a format.
abbrev pub written : Spec → List ℕ → List ℕ
written d fmt =
    with_flag b'-' d.ladjust
      (with_flag b'0' d.zeros (d.width ++ with_flag b'l' d.long (d.letter ∷ fmt)))

abbrev pub padding : Bool → ℕ
padding zeros = if zeros then b'0' else b' '

abbrev pub AreDecimal : List ℕ → Type 0
AreDecimal [] = Unit {0}
AreDecimal (c ∷ ds) = (b'0' ≤ c) × (c ≤ b'9') × AreDecimal ds

-- The width starts with no zero and is below the limit of print_num; the letter is behind the digits and not 'l'.
pub record IsSpec (d : Spec) : Type 0 where
  pub decimal : AreDecimal d.width
  pub leading : first d.width ≢ b'0'
  pub fits : spelled 10 0 d.width < length_limit
  pub is_letter : (b'9' < d.letter) × (d.letter ≢ b'l')

le-spelled : (n : ℕ) (ds : List ℕ) → n ≤ spelled 10 n ds
unfolding spelled
le-spelled n [] = omega arith
le-spelled n (c ∷ ds) = omega (arith, le-spelled (n * 10 + digit_value c) ds)

next_width : (n c : ℕ) → b'0' ≤ c → c ≤ b'9' → n * 2 + n * 8 + c % 16 ≡ n * 10 + digit_value c
unfolding digit_value
next_width n c low high = ground arith

get_width_ends :
    (n : ℕ) (fmt : List ℕ) (s : Printer) → b'9' < first fmt → get_width n fmt s ≡ ok ((n, fmt), s)
unfolding get_width
get_width_ends n [] s h = refl
get_width_ends n (c ∷ fmt) s h = ground arith

-- The width is read digit by digit, up to the first character that is none.
pub get_width_lem :
    (n : ℕ) (ds fmt : List ℕ) (s : Printer)
    → AreDecimal ds
    → spelled 10 n ds < 0x8000_0000
    → b'9' < first fmt
    → get_width n (ds ++ fmt) s ≡ ok ((spelled 10 n ds, fmt), s)
unfolding get_width spelled
get_width_lem n [] fmt s d small h = get_width_ends n fmt s h
get_width_lem n (c ∷ ds) fmt s (low, high, d) small h =
    let next = n * 10 + digit_value c in
    let isdigit : (leb b'0' c && leb c b'9') ≡ true = ground arith in
    let fits : ltb next 0x8000_0000 ≡ true =
      lt→ltb next 0x8000_0000 (omega (arith, le-spelled next ds)) in
    rw (isdigit, next_width n c low high, fits) (get_width_lem next ds fmt s d small h)

-- The part of a conversion behind the flags.
abbrev body : Spec → List ℕ → List ℕ
body d fmt = d.width ++ with_flag b'l' d.long (d.letter ∷ fmt)

first-append :
    (ds fmt : List ℕ)
    → AreDecimal ds
    → first ds ≢ b'0'
    → b'9' < first fmt
    → b'0' < first (ds ++ fmt)
first-append [] fmt d z h = omega arith
first-append (c ∷ ds) fmt d z h = ground arith

first-flag :
    (long : Bool) (c : ℕ) (fmt : List ℕ) → b'9' < c → b'9' < first (with_flag b'l' long (c ∷ fmt))
first-flag true c fmt h = omega arith
first-flag false c fmt h = h

-- What follows the width.
abbrev behind : Bool → ℕ → ℕ → List ℕ → Print (List ℕ)
behind ladjust padc width fmt s =
    let fmt' = if first fmt == b'l' then rest fmt else fmt in
    and_then (convert (first fmt') width ladjust padc s) (λ _. pure (rest fmt'))

flags_lem :
    (ladjust zeros : Bool) (fmt : List ℕ) (s : Printer)
    → b'0' < first fmt
    → directive (with_flag b'-' ladjust (with_flag b'0' zeros fmt)) s
      ≡ and_then (get_width 0 fmt s) (λ p. behind ladjust (padding zeros) p.0 p.1)
unfolding directive conversion
flags_lem true true fmt s h = refl
flags_lem true false fmt s h = rw (ne→== (first fmt) b'0' (omega arith)) refl
flags_lem false true fmt s h = refl
flags_lem false false fmt s h =
    rw
      (
        ne→== (first fmt) b'%' (omega arith),
        ne→== (first fmt) b'-' (omega arith),
        ne→== (first fmt) b'0' (omega arith),
      )
      refl

behind_lem :
    (ladjust long : Bool) (padc width letter : ℕ) (fmt : List ℕ) (s : Printer)
    → letter ≢ b'l'
    → behind ladjust padc width (with_flag b'l' long (letter ∷ fmt)) s
      ≡ and_then (convert letter width ladjust padc s) (λ _. pure fmt)
behind_lem ladjust true padc width letter fmt s h = refl
behind_lem ladjust false padc width letter fmt s h = rw (ne→== letter b'l' h) refl

-- A conversion that is written as a specification says is read as that.
pub directive-written :
    (d : Spec) (fmt : List ℕ) (s : Printer)
    → IsSpec d
    → directive (written d fmt) s
      ≡ and_then
          (convert d.letter (spelled 10 0 d.width) d.ladjust (padding d.zeros) s)
          (λ _. pure fmt)
directive-written d fmt s h =
    let tail = with_flag b'l' d.long (d.letter ∷ fmt) in
    let letter : b'9' < first tail = first-flag d.long d.letter fmt h.is_letter.0 in
    flags_lem d.ladjust d.zeros (d.width ++ tail) s
      (first-append d.width tail h.decimal h.leading letter)
    ∙ rw (get_width_lem 0 d.width tail s h.decimal (omega (arith, h.fits)) letter) (
        behind_lem d.ladjust d.long (padding d.zeros) (spelled 10 0 d.width) d.letter fmt s
          h.is_letter.1)

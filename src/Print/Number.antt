-- ===== src/Print/Number.antt =====
-- lib/print.c: the text that print_num puts out.
use run_mos_on_risc_v.Prelude.{
  ℕ, suc, ◌+◌, ◌-◌, ◌^◌, ◌≤◌, ◌<◌, ◌≡◌, refl, ap, ◌∙◌, Bool, true, false, List, arith, ltb, leb,
  if◌then◌else◌, length,
}
use run_mos_on_risc_v.Print.{Printer, undefined, print_num, out, length_limit}
use run_mos_on_risc_v.Print.Window.{down}
use run_mos_on_risc_v.Print.Digits.{IsNumeral, put_digits_lem, length-down}
use run_mos_on_risc_v.Print.Rows.{signed, layout, top, turned_lem}

-- A width that is too small counts as the length of what stands in the field.
layout-width :
    (neg_flag ladjust : Bool) (padc width a : ℕ) (ds : List ℕ)
    → length (signed neg_flag ds) ≡ a
    → layout neg_flag ladjust padc (a + (width - a)) ds ≡ layout neg_flag ladjust padc width ds
layout-width neg_flag true padc width a ds h =
    let e : a + (width - a) - a ≡ width - a = omega arith in rw (h, e) refl
layout-width neg_flag false padc width a ds h =
    let e : a + (width - a) - a ≡ width - a = omega arith in rw (h, e) refl

places : (neg_flag : Bool) (n : ℕ) → (if neg_flag then suc n + 1 else suc n) ≡ suc (top neg_flag n)
places true n = omega arith
places false n = refl

widened : (a width : ℕ) → (if ltb width a then a else width) ≡ a + (width - a)
widened a width = ground arith

length-signed :
    (neg_flag : Bool) (digits : ℕ → ℕ) (n : ℕ)
    → length (signed neg_flag (down digits 0 (suc n))) ≡ suc (top neg_flag n)
length-signed false digits n = length-down digits 0 (suc n)
length-signed true digits n = omega (arith, length-down digits 0 (suc n))

pub print_num-undefined :
    (u base : ℕ) (neg_flag : Bool) (width : ℕ) (ladjust : Bool) (padc : ℕ) (upcase : Bool)
    (s : Printer)
    → leb length_limit width ≡ true
    → print_num u base neg_flag width ladjust padc upcase s ≡ undefined
unfolding print_num
print_num-undefined u base neg_flag width ladjust padc upcase s h = rw h refl

-- What print_num puts out: one piece, the numeral of the number in a field of the width.
abbrev pub Prints : ℕ → ℕ → Bool → ℕ → Bool → ℕ → Bool → Printer → Type 0
Prints u base neg_flag width ladjust padc upcase s =
    (ds : List ℕ) × IsNumeral base upcase u ds
    × (length ds ≤ 32)
    × (print_num u base neg_flag width ladjust padc upcase s
        ≡ out (layout neg_flag ladjust padc width ds) s)

-- For a base from 2 to 36, a number of 32 bits and a length below 2^31 - 70, which leaves the size of
-- the buffer an int, print_num returns and puts out one piece: digits of the base, 32 at most, that spell the number and begin with a zero for the number 0 only, laid
-- out with the sign and the padding in the width.
pub print_num_lem :
    (u base : ℕ) (neg_flag : Bool) (width : ℕ) (ladjust : Bool) (padc : ℕ) (upcase : Bool)
    (s : Printer)
    → 2 ≤ base
    → base ≤ 36
    → u < 2 ^ 32
    → width < length_limit
    → Prints u base neg_flag width ladjust padc upcase s
unfolding print_num
print_num_lem u base neg_flag width ladjust padc upcase s low high fits short =
    let (digits, n, e, b, _, num) = put_digits_lem 31 base upcase u s.stack 0 low high fits in
    let p : 0 + suc n ≡ suc n = omega arith in
    let small : leb length_limit width ≡ false = ground arith in
    let m = top neg_flag n in
    let (turned, runs, shows) = turned_lem neg_flag ladjust padc digits n (width - suc m) in
    (
      down digits 0 (suc n),
      num,
      omega (arith, length-down digits 0 (suc n)),
      rw (small, e, p, places neg_flag n, widened (suc m) width, runs)
          (ap (λ x. out x s)
            (shows
              ∙ layout-width neg_flag ladjust padc width (suc m) _
                  (length-signed neg_flag digits n))),
    )

-- ===== src/Print/Values.antt =====
-- lib/print.c: the switch of vprintfmt, on an argument of the kind that the conversion takes.
use run_mos_on_risc_v.Prelude.{
  ℕ, ◌-◌, ◌%◌, ◌^◌, ◌≤◌, ◌<◌, ◌≡◌, ◌≢◌, refl, ◌∙◌, Bool, true, false, List, [], ◌∷◌, arith, ltb,
  if◌then◌else◌, ne→==, inl, inr, Bool-cases,
}
use run_mos_on_risc_v.Mmu.{word_mod}
use run_mos_on_risc_v.Print.{
  Arg, number, text, Printer, Print, and_then, print_num, print_char, print_str, length_limit,
}
use run_mos_on_risc_v.Print.Pieces.{Shows, out-Shows, aligned, print_str-Shows, print_char-Shows}
use run_mos_on_risc_v.Print.Digits.{IsNumeral}
use run_mos_on_risc_v.Print.Number.{print_num_lem}
use run_mos_on_risc_v.Print.Rows.{layout}
use run_mos_on_risc_v.Print.Format.{convert, print_signed, va_num, va_str}

-- An argument in the way a conversion shows it. `capital` chooses 'D', 'O', 'U' and 'X'.
pub data Value : Type 0 where
  bin : ℕ → Value
  dec oct uns hex : Bool → ℕ → Value
  chr : ℕ → Value
  str : List ℕ → Value

abbrev pub letter_of : Value → ℕ
letter_of (bin n) = b'b'
letter_of (dec capital n) = if capital then b'D' else b'd'
letter_of (oct capital n) = if capital then b'O' else b'o'
letter_of (uns capital n) = if capital then b'U' else b'u'
letter_of (hex capital n) = if capital then b'X' else b'x'
letter_of (chr c) = b'c'
letter_of (str t) = b's'

abbrev pub arg_of : Value → Arg
arg_of (bin n) = number n
arg_of (dec capital n) = number n
arg_of (oct capital n) = number n
arg_of (uns capital n) = number n
arg_of (hex capital n) = number n
arg_of (chr c) = number c
arg_of (str t) = text t

-- A number is a word; the least int has no negative.
abbrev pub IsValue : Value → Type 0
IsValue (bin n) = n < 2 ^ 32
IsValue (dec capital n) = (n < 2 ^ 32) × (n ≢ 0x8000_0000)
IsValue (oct capital n) = n < 2 ^ 32
IsValue (uns capital n) = n < 2 ^ 32
IsValue (hex capital n) = n < 2 ^ 32
IsValue (chr c) = Unit {0}
IsValue (str t) = Unit {0}

-- A number in a field: the digits of its numeral, laid out.
abbrev pub NumberText : ℕ → Bool → ℕ → Bool → ℕ → Bool → ℕ → List ℕ → Type 0
NumberText base neg_flag width ladjust padc upcase u t =
    (ds : List ℕ) × IsNumeral base upcase u ds × (t ≡ layout neg_flag ladjust padc width ds)

-- The texts that show a value.
abbrev pub IsText : Value → ℕ → Bool → ℕ → List ℕ → Type 0
IsText (bin n) width ladjust padc t = NumberText 2 false width ladjust padc false n t
IsText (dec capital n) width ladjust padc t =
    if ltb n 0x8000_0000
    then NumberText 10 false width ladjust padc false n t
    else NumberText 10 true width ladjust padc false (word_mod - n) t
IsText (oct capital n) width ladjust padc t = NumberText 8 false width ladjust padc false n t
IsText (uns capital n) width ladjust padc t = NumberText 10 false width ladjust padc false n t
IsText (hex capital n) width ladjust padc t = NumberText 16 false width ladjust padc capital n t
IsText (chr c) width ladjust padc t = t ≡ aligned ladjust width (c % 256 ∷ [])
IsText (str p) width ladjust padc t = t ≡ aligned ladjust width p

abbrev pub ShowsValue : (List ℕ → Type 0) → Print (Unit {0}) → List Arg → Printer → Type 0
ShowsValue P m args s = (t : List ℕ) × P t × Shows m t args s

number-Shows :
    (base : ℕ) (neg_flag : Bool) (width : ℕ) (ladjust : Bool) (padc : ℕ) (upcase : Bool) (u : ℕ)
    (s : Printer)
    → 2 ≤ base
    → base ≤ 36
    → u < 2 ^ 32
    → width < length_limit
    → ShowsValue
        (NumberText base neg_flag width ladjust padc upcase u)
        (print_num u base neg_flag width ladjust padc upcase)
        s.args
        s
number-Shows base neg_flag width ladjust padc upcase u s low high fits short =
    let (ds, num, _, e) =
      print_num_lem u base neg_flag width ladjust padc upcase s low high fits short in
    let (t, d, a) = out-Shows (layout neg_flag ladjust padc width ds) s in
    (layout neg_flag ladjust padc width ds, (ds, num, refl), (t, e ∙ d, a))

signed-Shows :
    (capital : Bool) (num width : ℕ) (ladjust : Bool) (padc : ℕ) (s : Printer)
    → IsValue (dec capital num)
    → width < length_limit
    → ShowsValue
        (IsText (dec capital num) width ladjust padc)
        (print_signed num width ladjust padc)
        s.args
        s
unfolding print_signed
signed-Shows capital num width ladjust padc s (fits, least) short =
    elim (Bool-cases (ltb num 0x8000_0000)) [
      | inl small ↦ rw small (
          number-Shows 10 false width ladjust padc false num s (omega arith) (omega arith) fits
            short)
      | inr large ↦
          rw (large, ne→== num 0x8000_0000 least)
            (number-Shows 10 true width ladjust padc false (word_mod - num) s (omega arith)
              (omega arith) (ground arith) short)
    ]

abbrev without : List Arg → Printer → Printer
without more s = record s { args = more }

-- A printer that has taken an argument.
num-Shows :
    (P : List ℕ → Type 0) (m : ℕ → Print (Unit {0})) (n : ℕ) (more : List Arg) (s : Printer)
    → s.args ≡ number n ∷ more
    → ShowsValue P (m n) more (without more s)
    → ShowsValue P (λ u. and_then (va_num u) m) more s
unfolding va_num
num-Shows P m n more s e (t, p, (u, d, a)) =
    (t, p, (u, rw e d, record { adds = a.adds; left = a.left }))

str-Shows :
    (P : List ℕ → Type 0) (m : List ℕ → Print (Unit {0})) (p : List ℕ) (more : List Arg)
    (s : Printer)
    → s.args ≡ text p ∷ more
    → ShowsValue P (m p) more (without more s)
    → ShowsValue P (λ u. and_then (va_str u) m) more s
unfolding va_str
str-Shows P m q more s e (t, p, (u, d, a)) =
    (t, p, (u, rw e d, record { adds = a.adds; left = a.left }))

unsigned-Shows :
    (base : ℕ) (width : ℕ) (ladjust : Bool) (padc : ℕ) (upcase : Bool) (u : ℕ) (more : List Arg)
    (s : Printer)
    → 2 ≤ base
    → base ≤ 36
    → u < 2 ^ 32
    → width < length_limit
    → s.args ≡ number u ∷ more
    → ShowsValue
        (NumberText base false width ladjust padc upcase u)
        (λ t. and_then (va_num t) (λ num. print_num num base false width ladjust padc upcase))
        more
        s
unsigned-Shows base width ladjust padc upcase u more s low high fits short e =
    num-Shows (NumberText base false width ladjust padc upcase u)
      (λ num. print_num num base false width ladjust padc upcase) u more s e
      (number-Shows base false width ladjust padc upcase u (without more s) low high fits short)

dec-Shows :
    (capital : Bool) (n width : ℕ) (ladjust : Bool) (padc : ℕ) (more : List Arg) (s : Printer)
    → IsValue (dec capital n)
    → width < length_limit
    → s.args ≡ number n ∷ more
    → ShowsValue
        (IsText (dec capital n) width ladjust padc)
        (λ t. and_then (va_num t) (λ num. print_signed num width ladjust padc))
        more
        s
dec-Shows capital n width ladjust padc more s h short e =
    num-Shows (IsText (dec capital n) width ladjust padc)
      (λ num. print_signed num width ladjust padc) n more s e
      (signed-Shows capital n width ladjust padc (without more s) h short)

-- The switch finds the argument of a value and shows it.
pub convert-Shows :
    (v : Value) (width : ℕ) (ladjust : Bool) (padc : ℕ) (more : List Arg) (s : Printer)
    → IsValue v
    → width < length_limit
    → s.args ≡ arg_of v ∷ more
    → ShowsValue (IsText v width ladjust padc) (convert (letter_of v) width ladjust padc) more s
unfolding convert va_num va_str
convert-Shows (bin n) width ladjust padc more s h short e =
    unsigned-Shows 2 width ladjust padc false n more s (omega arith) (omega arith) h short e
convert-Shows (dec true n) width ladjust padc more s h short e =
    dec-Shows true n width ladjust padc more s h short e
convert-Shows (dec false n) width ladjust padc more s h short e =
    dec-Shows false n width ladjust padc more s h short e
convert-Shows (oct true n) width ladjust padc more s h short e =
    unsigned-Shows 8 width ladjust padc false n more s (omega arith) (omega arith) h short e
convert-Shows (oct false n) width ladjust padc more s h short e =
    unsigned-Shows 8 width ladjust padc false n more s (omega arith) (omega arith) h short e
convert-Shows (uns true n) width ladjust padc more s h short e =
    unsigned-Shows 10 width ladjust padc false n more s (omega arith) (omega arith) h short e
convert-Shows (uns false n) width ladjust padc more s h short e =
    unsigned-Shows 10 width ladjust padc false n more s (omega arith) (omega arith) h short e
convert-Shows (hex true n) width ladjust padc more s h short e =
    unsigned-Shows 16 width ladjust padc true n more s (omega arith) (omega arith) h short e
convert-Shows (hex false n) width ladjust padc more s h short e =
    unsigned-Shows 16 width ladjust padc false n more s (omega arith) (omega arith) h short e
convert-Shows (chr c) width ladjust padc more s h short e =
    num-Shows _ (λ num. print_char (num % 256) width ladjust) c more s e
      (_, refl, print_char-Shows (c % 256) width ladjust (without more s))
convert-Shows (str t) width ladjust padc more s h short e =
    str-Shows _ (λ p. print_str p width ladjust) t more s e
      (_, refl, print_str-Shows t width ladjust (without more s))

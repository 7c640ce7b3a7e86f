-- ===== src/Print/Format.antt =====
-- lib/print.c: vprintfmt, which reads the format and the arguments.
use run_mos_on_risc_v.Prelude.{
  ℕ, zero, suc, ◌+◌, ◌-◌, ◌*◌, ◌%◌, Bool, true, false, ◌&&◌, ◌||◌, Option, none, some, List, [],
  ◌∷◌, ltb, leb, ◌==◌, if◌then◌else◌, length,
}
use run_mos_on_risc_v.Mmu.{word_mod}
use run_mos_on_risc_v.Print.{
  Arg, number, text, ok, undefined, endless, Print, pure, ◌>>=◌, ◌>>◌, out, print_char, print_str,
  print_num,
}

-- The character under the pointer, and the string from the next one on.
abbrev pub first : List ℕ → ℕ
first [] = 0
first (c ∷ fmt) = c

abbrev pub rest : List ℕ → List ℕ
rest [] = []
rest (c ∷ fmt) = fmt

-- The characters before the next '%', and the string from there.
unfoldable pub literal : List ℕ → List ℕ
literal [] = []
literal (c ∷ fmt) = if c == b'%' then [] else c ∷ literal fmt

unfoldable pub from_percent : List ℕ → List ℕ
from_percent [] = []
from_percent (c ∷ fmt) = if c == b'%' then c ∷ fmt else from_percent fmt

-- num = va_arg(ap, int), or long
abbrev pub num_arg : List Arg → Print ℕ
num_arg (number n ∷ more) s = ok (n, record s { args = more })
num_arg other s = undefined

abbrev pub str_arg : List Arg → Print (List ℕ)
str_arg (text t ∷ more) s = ok (t, record s { args = more })
str_arg other s = undefined

unfoldable pub va_num : Print ℕ
va_num s = num_arg s.args s

unfoldable pub va_str : Print (List ℕ)
va_str s = str_arg s.args s

-- The width. The bits of `*fmt & 15` are those of the digit, and an int ends at 2 ^ 31.
unfoldable pub get_width : ℕ → List ℕ → Print (ℕ × List ℕ)
get_width width [] = pure (width, [])
get_width width (c ∷ fmt) =
    if leb b'0' c && leb c b'9'
    then (let width' = width * 2 + width * 8 + c % 16 in
        let later = get_width width' fmt in
        if ltb width' 0x8000_0000 then later else λ s. undefined)
    else pure (width, c ∷ fmt)

-- case 'd', with `num = -num`, which overflows at the least number.
unfoldable pub print_signed : ℕ → ℕ → Bool → ℕ → Print (Unit {0})
unfolding print_num
print_signed num width ladjust padc =
    if ltb num 0x8000_0000
    then print_num num 10 false width ladjust padc false
    else if num == 0x8000_0000
    then (λ s. undefined)
    else print_num (word_mod - num) 10 true width ladjust padc false

-- The switch on the character of the conversion.
unfoldable pub convert : ℕ → ℕ → Bool → ℕ → Print (Unit {0})
unfolding va_num va_str print_num print_char print_str print_signed out
convert c width ladjust padc =
    if c == b'b'
    then (do num ← va_num; print_num num 2 false width ladjust padc false)
    else if c == b'd' || c == b'D'
    then (do num ← va_num; print_signed num width ladjust padc)
    else if c == b'o' || c == b'O'
    then (do num ← va_num; print_num num 8 false width ladjust padc false)
    else if c == b'u' || c == b'U'
    then (do num ← va_num; print_num num 10 false width ladjust padc false)
    else if c == b'x'
    then (do num ← va_num; print_num num 16 false width ladjust padc false)
    else if c == b'X'
    then (do num ← va_num; print_num num 16 false width ladjust padc true)
    else if c == b'c'
    then (do num ← va_num; print_char (num % 256) width ladjust)
    else if c == b's'
    then (do s ← va_str; print_str s width ladjust)
    else if c == 0
    then pure tt
    else out (c ∷ [])

-- The flags, the width and the conversion behind a '%'. At the end of the string the pointer steps
-- back and forth and stays where it is.
unfoldable pub conversion : List ℕ → Print (List ℕ)
unfolding get_width convert
conversion fmt =
    let ladjust = first fmt == b'-' in
    let fmt1 = if ladjust then rest fmt else fmt in
    let padc = if first fmt1 == b'0' then b'0' else b' ' in
    let fmt2 = if first fmt1 == b'0' then rest fmt1 else fmt1 in
    do
      (width, fmt3) ← get_width 0 fmt2
      let fmt4 = if first fmt3 == b'l' then rest fmt3 else fmt3
      convert (first fmt4) width ladjust padc
      pure (rest fmt4)

-- What follows a '%', with a second one for the character itself.
unfoldable pub directive : List ℕ → Print (List ℕ)
unfolding conversion out
directive fmt = if first fmt == b'%' then (do out (b'%' ∷ []); pure (rest fmt)) else conversion fmt

-- The rest of a round: the break at the end of the string, or the conversion behind a '%'.
unfoldable pub handle : List ℕ → Print (Option (List ℕ))
unfolding directive
handle [] = pure none
handle (p ∷ fmt) = do left ← directive fmt; pure (some left)

-- One round of the loop, which gives the string that is left, or `none` for the break.
unfoldable pub one_round : List ℕ → Print (Option (List ℕ))
unfolding literal from_percent handle out
one_round fmt = do out (literal fmt); handle (from_percent fmt)

unfoldable pub all_rounds : ℕ → List ℕ → Print (Unit {0})
unfolding one_round
all_rounds zero fmt s = endless
all_rounds (suc k) fmt s =
    (do more ← one_round fmt; elim more [ none ↦ pure tt | some left ↦ all_rounds k left ]) s

-- Each round but the last takes a '%'.
unfoldable pub vprintfmt : List ℕ → Print (Unit {0})
unfolding all_rounds
vprintfmt fmt = all_rounds (length fmt + 1) fmt

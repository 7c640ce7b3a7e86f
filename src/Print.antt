-- ===== src/Print.antt =====
-- lib/print.c. The sink `out` is called with one piece of text after another: the model keeps the
-- pieces. A C string is the list of its characters before the byte 0. int and long have 32 bits.
pub mod Window
pub mod Digits
pub mod Rows
pub mod Number
pub mod Fine
pub mod Rounds
pub mod Total
pub mod Debug
pub mod Tests
pub mod Pieces
pub mod Format
pub mod Field
pub mod Values
pub mod Items
use run_mos_on_risc_v.Prelude.{
  ℕ, zero, suc, ◌+◌, ◌-◌, ◌*◌, ◌/◌, ◌%◌, Bool, true, false, ◌&&◌, ◌||◌, not, Option, none, some,
  List, [], ◌∷◌, ◌++◌, ltb, leb, ◌==◌, if◌then◌else◌, update, length,
}
use run_mos_on_risc_v.Mmu.{word_mod}

-- What va_arg finds: a number of 32 bits, or a pointer to a string.
pub data Arg : Type 0 where
  number : ℕ → Arg
  text : List ℕ → Arg

-- The arguments that are left, the pieces of text that were put out, and what an array on the stack
-- holds before it is written.
pub record Printer : Type 0 where
  pub args : List Arg
  pub pieces : List (List ℕ)
  pub stack : ℕ → ℕ

-- `undefined` is what the C standard calls so: an overflow of an int, an argument that is missing or
-- has another type. `endless` says that the fuel of a loop was not enough.
pub data Outcome {ℓ} (A : Type ℓ) : Type ℓ where
  ok : A → Outcome A
  undefined : Outcome A
  endless : Outcome A

abbrev pub Print : Type 0 → Type 0
Print A = Printer → Outcome (A × Printer)

abbrev pub pure : {A : Type 0} → A → Print A
pure a s = ok (a, s)

abbrev pub and_then : {A B : Type 0} → Outcome (A × Printer) → (A → Print B) → Outcome (B × Printer)
and_then (ok (a, s)) k = k a s
and_then undefined k = undefined
and_then endless k = endless

infixl 5 ◌>>=◌ ◌>>◌
abbrev pub ◌>>=◌ : {A B : Type 0} → Print A → (A → Print B) → Print B
◌>>=◌ m k s = and_then (m s) k

abbrev pub ◌>>◌ : {B : Type 0} → Print (Unit {0}) → Print B → Print B
m >> k = m >>= λ _. k

-- The result of a loop.
abbrev pub looped : {A : Type 0} → Option A → Print A
looped none s = endless
looped (some a) s = ok (a, s)

-- out(data, piece, its length)
unfoldable pub out : List ℕ → Print (Unit {0})
out piece s = ok (tt, record s { pieces = s.pieces ++ piece ∷ [] })

-- A counted loop that puts out a space in each of n rounds.
unfoldable pub out_spaces : ℕ → Print (Unit {0})
unfolding out
out_spaces zero = pure tt
out_spaces (suc n) = do out (b' ' ∷ []); out_spaces n

unfoldable pub print_char : ℕ → ℕ → Bool → Print (Unit {0})
unfolding out out_spaces
print_char c length ladjust =
    let length = if ltb length 1 then 1 else length in
    if ladjust
    then (do out (c ∷ []); out_spaces (length - 1))
    else (do out_spaces (length - 1); out (c ∷ []))

unfoldable pub print_str : List ℕ → ℕ → Bool → Print (Unit {0})
unfolding out out_spaces
print_str s width ladjust =
    let len = length s in
    let width = if ltb width len then len else width in
    if ladjust then (do out s; out_spaces (width - len)) else (do out_spaces (width - len); out s)

unfoldable pub digit_char : Bool → ℕ → ℕ
digit_char upcase tmp =
    if leb tmp 9 then b'0' + tmp else if upcase then b'A' + tmp - 10 else b'a' + tmp - 10

-- The do loop of print_num, which gives the buffer and the place behind the last digit.
unfoldable pub put_digits : ℕ → ℕ → Bool → ℕ → (ℕ → ℕ) → ℕ → Option ((ℕ → ℕ) × ℕ)
unfolding digit_char
put_digits zero base upcase u buf p = none
put_digits (suc k) base upcase u buf p =
    let buf' = update buf p (digit_char upcase (u % base)) in
    let rest = put_digits k base upcase (u / base) buf' (p + 1) in
    if u / base == 0 then some (buf', p + 1) else rest

-- buf[i] = padc in n rounds from i.
unfoldable pub pad_with : ℕ → ℕ → ℕ → (ℕ → ℕ) → ℕ → ℕ
pad_with padc zero i buf = buf
pad_with padc (suc n) i buf = pad_with padc n (i + 1) (update buf i padc)

-- The loop that swaps the characters from begin to end.
unfoldable pub reverse : ℕ → ℕ → ℕ → (ℕ → ℕ) → Option (ℕ → ℕ)
reverse zero begin end buf = if ltb begin end then none else some buf
reverse (suc k) begin end buf =
    let rest =
      reverse k (begin + 1) (end - 1) (update (update buf begin (buf end)) end (buf begin)) in
    if ltb begin end then rest else some buf

-- The n characters of a buffer from i.
unfoldable pub window : (ℕ → ℕ) → ℕ → ℕ → List ℕ
window buf i zero = []
window buf i (suc n) = buf i ∷ window buf (i + 1) n

-- The padding of print_num, with the minus sign of a number that is filled up with zeros.
unfoldable pub pad : Bool → Bool → ℕ → ℕ → ℕ → (ℕ → ℕ) → ℕ → ℕ
unfolding pad_with
pad neg_flag ladjust padc actual length buf =
    if neg_flag && (not ladjust && padc == b'0')
    then update (pad_with padc (length - actual) (actual - 1) buf) (length - 1) b'-'
    else pad_with padc (length - actual) actual buf

-- From this length on `length + 70`, the size of buf, is no int.
abbrev pub length_limit : ℕ
length_limit = 0x7fff_ffba

-- A number of 32 bits has 32 digits at most, and each swap takes two places.
unfoldable pub print_num : ℕ → ℕ → Bool → ℕ → Bool → ℕ → Bool → Print (Unit {0})
unfolding put_digits pad reverse window out
print_num u base neg_flag width ladjust padc upcase s =
    if leb length_limit width
    then undefined
    else (do
      (digits, p) ← looped (put_digits 32 base upcase u s.stack 0)
      let buf = if neg_flag then update digits p b'-' else digits
      let actual = if neg_flag then p + 1 else p
      let width = if ltb width actual then actual else width
      let padc = if ladjust then b' ' else padc
      let padded = pad neg_flag ladjust padc actual width buf
      turned ← looped (reverse width 0 (if ladjust then actual - 1 else width - 1) padded)
      out (window turned 0 width))
        s

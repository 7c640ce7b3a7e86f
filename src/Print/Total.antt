-- ===== src/Print/Total.antt =====
-- lib/print.c: vprintfmt comes to an end on every format, the ill-formed ones included.
use run_mos_on_risc_v.Prelude.{
  ℕ, zero, suc, ◌+◌, ◌*◌, ◌%◌, ◌≤◌, ◌<◌, ◌≡◌, ◌≢◌, refl, Bool, true, false, ◌&&◌, Option, none,
  some, List, [], ◌∷◌, arith, ltb, leb, ◌==◌, if◌then◌else◌, length, inl, inr, Bool-cases,
}
use run_mos_on_risc_v.Print.{Printer, Outcome, ok, undefined, endless, and_then, pure, out}
use run_mos_on_risc_v.Print.Fine.{AreWords, Ends, Ends-then, Fine, convert-Fine, out-Fine}
use run_mos_on_risc_v.Print.Rounds.{go_on, all_rounds_step}
use run_mos_on_risc_v.Print.Format.{
  first, rest, literal, from_percent, get_width, convert, conversion, directive, handle, one_round,
  all_rounds, vprintfmt,
}

-- Words are left, and no more of the format than n characters.
abbrev Leaves : ℕ → List ℕ → Printer → Type 0
Leaves n fmt s = AreWords s.args × (length fmt ≤ n)

Ends-mono :
    (m n : ℕ) (r : Outcome ((ℕ × List ℕ) × Printer))
    → m ≤ n
    → Ends (λ p. Leaves m p.1) r
    → Ends (λ p. Leaves n p.1) r
Ends-mono m n (ok ((k, l), s)) h (w, b) = (w, omega arith)
Ends-mono m n undefined h e = tt
Ends-mono m n endless h e = e

get_width-Leaves :
    (width : ℕ) (fmt : List ℕ) (s : Printer)
    → AreWords s.args
    → Ends (λ p. Leaves (length fmt) p.1) (get_width width fmt s)
unfolding get_width
get_width-Leaves width [] s w = (w, omega arith)
get_width-Leaves width (c ∷ fmt) s w =
    let next = width * 2 + width * 8 + c % 16 in
    elim (Bool-cases (leb b'0' c && leb c b'9')) [
      | inl g ↦ elim (Bool-cases (ltb next 0x8000_0000)) [
        | inl h ↦
            rw (g, h)
              (Ends-mono (length fmt) (suc (length fmt)) _ (omega arith)
                (get_width-Leaves next fmt s w))
        | inr h ↦ rw (g, h) tt
      ]
      | inr g ↦ rw g (w, omega arith)
    ]

length-rest : (fmt : List ℕ) → length (rest fmt) ≤ length fmt
length-rest [] = omega arith
length-rest (c ∷ fmt) = omega arith

length-skip : (b : Bool) (fmt : List ℕ) → length (if b then rest fmt else fmt) ≤ length fmt
length-skip true fmt = length-rest fmt
length-skip false fmt = omega arith

-- The part of a conversion behind the flags.
-- The string that is left is no longer than before any of the steps.
width-Leaves :
    (n : ℕ) (ladjust : Bool) (padc : ℕ) (fmt : List ℕ) (s : Printer)
    → length fmt ≤ n
    → AreWords s.args
    → Ends (Leaves n) (
        and_then (get_width 0 fmt s) (λ p t.
          let fmt' = if first p.1 == b'l' then rest p.1 else p.1 in
          and_then (convert (first fmt') p.0 ladjust padc t) (λ _. pure (rest fmt'))))
width-Leaves n ladjust padc fmt s short w =
    Ends-then _ _ (get_width 0 fmt s) _ (get_width-Leaves 0 fmt s w) λ p t (g, b).
      let fmt' = if first p.1 == b'l' then rest p.1 else p.1 in
      Ends-then Fine _ (convert (first fmt') p.0 ladjust padc t) _
        (convert-Fine (first fmt') p.0 ladjust padc t g)
        λ _ u v. (v, omega (arith, length-rest fmt', length-skip (first p.1 == b'l') p.1))

conversion-Leaves :
    (fmt : List ℕ) (s : Printer) → AreWords s.args → Ends (Leaves (length fmt)) (conversion fmt s)
unfolding conversion
conversion-Leaves fmt s w =
    let fmt1 = if first fmt == b'-' then rest fmt else fmt in
    let fmt2 = if first fmt1 == b'0' then rest fmt1 else fmt1 in
    width-Leaves (length fmt) (first fmt == b'-') (if first fmt1 == b'0' then b'0' else b' ') fmt2 s
      (omega (arith, length-skip (first fmt == b'-') fmt, length-skip (first fmt1 == b'0') fmt1)) w

directive-eq :
    (fmt : List ℕ) (s : Printer)
    → directive fmt s
      ≡ (if first fmt == b'%'
            then (λ u. and_then (out (b'%' ∷ []) u) (λ _. pure (rest fmt)))
            else conversion fmt)
          s
unfolding directive
directive-eq fmt s = refl

directive-Leaves :
    (fmt : List ℕ) (s : Printer) → AreWords s.args → Ends (Leaves (length fmt)) (directive fmt s)
directive-Leaves fmt s w = rw (directive-eq fmt s) (elim (Bool-cases (first fmt == b'%')) [
  | inl g ↦ rw g (
      Ends-then Fine _ (out (b'%' ∷ []) s) _ (out-Fine (b'%' ∷ []) s w)
        λ _ u v. (v, length-rest fmt))
  | inr g ↦ rw g (conversion-Leaves fmt s w)
])

-- What is left for the next round.
abbrev Shrinks : ℕ → Option (List ℕ) → Printer → Type 0
Shrinks n none s = AreWords s.args
Shrinks n (some fmt) s = AreWords s.args × (length fmt < n)

one_round-eq :
    (fmt : List ℕ) (s : Printer)
    → one_round fmt s ≡ and_then (out (literal fmt) s) (λ _. handle (from_percent fmt))
unfolding one_round
one_round-eq fmt s = refl

handle-eq :
    (p : ℕ) (fmt : List ℕ) (s : Printer)
    → handle (p ∷ fmt) s ≡ and_then (directive fmt s) (λ left. pure (some left))
unfolding handle
handle-eq p fmt s = refl

handle-nil : (s : Printer) → handle [] s ≡ ok (none, s)
unfolding handle
handle-nil s = refl

length-from_percent : (fmt : List ℕ) → length (from_percent fmt) ≤ length fmt
unfolding from_percent
length-from_percent [] = omega arith
length-from_percent (c ∷ fmt) = ground (arith, length-from_percent fmt)

handle-Shrinks :
    (n : ℕ) (fmt : List ℕ) (s : Printer)
    → length fmt ≤ n
    → AreWords s.args
    → Ends (Shrinks n) (handle fmt s)
handle-Shrinks n [] s h w = rw (handle-nil s) w
handle-Shrinks n (p ∷ fmt) s h w =
    rw (handle-eq p fmt s) (
      Ends-then _ _ (directive fmt s) _ (directive-Leaves fmt s w)
        λ left t (v, b). (v, omega arith))

one_round-Shrinks :
    (fmt : List ℕ) (s : Printer) → AreWords s.args → Ends (Shrinks (length fmt)) (one_round fmt s)
one_round-Shrinks fmt s w = rw (one_round-eq fmt s) (
    Ends-then Fine _ (out (literal fmt) s) _ (out-Fine (literal fmt) s w)
      λ _ t v. handle-Shrinks (length fmt) (from_percent fmt) t (length-from_percent fmt) v)

go_on-Ends :
    (k n : ℕ) (more : Option (List ℕ)) (t : Printer)
    → n ≤ k
    → ((fmt : List ℕ) (s : Printer)
        → length fmt < k
        → AreWords s.args
        → Ends Fine (all_rounds k fmt s))
    → Shrinks n more t
    → Ends Fine (go_on k more t)
go_on-Ends k n none t h f v = v
go_on-Ends k n (some left) t h f (v, b) = f left t (omega arith) v

all_rounds-Ends :
    (k : ℕ) (fmt : List ℕ) (s : Printer)
    → length fmt < k
    → AreWords s.args
    → Ends Fine (all_rounds k fmt s)
all_rounds-Ends zero fmt s enough w = absurd (omega arith)
all_rounds-Ends (suc k) fmt s enough w = rw (all_rounds_step k fmt s) (
    Ends-then (Shrinks (length fmt)) Fine (one_round fmt s) (go_on k) (one_round-Shrinks fmt s w)
      λ more t h. go_on-Ends k (length fmt) more t (omega arith) (all_rounds-Ends k) h)

Ends-ne : (r : Outcome (Unit {0} × Printer)) → Ends Fine r → r ≢ endless
Ends-ne (ok (a, s)) h = λ e. cc
Ends-ne undefined h = λ e. cc
Ends-ne endless h = absurd h

-- On every format, if the numbers among the arguments are words, no loop of vprintfmt runs out of
-- its fuel: the rounds, as many as the format has characters and one, the 32 digits of print_num,
-- and the swaps.
pub vprintfmt-ne-endless :
    (fmt : List ℕ) (s : Printer) → AreWords s.args → vprintfmt fmt s ≢ endless
unfolding vprintfmt
vprintfmt-ne-endless fmt s w =
    Ends-ne (all_rounds (length fmt + 1) fmt s)
      (all_rounds-Ends (length fmt + 1) fmt s (omega arith) w)

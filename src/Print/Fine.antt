-- ===== src/Print/Fine.antt =====
-- lib/print.c: the conversions of vprintfmt do not run out of fuel.
use run_mos_on_risc_v.Prelude.{
  ℕ, ◌-◌, ◌%◌, ◌^◌, ◌≤◌, ◌<◌, Bool, true, false, ◌||◌, List, [], ◌∷◌, arith, ltb, leb, ◌==◌,
  if◌then◌else◌, inl, inr, Bool-cases,
}
use run_mos_on_risc_v.Mmu.{word_mod}
use run_mos_on_risc_v.Print.{
  Arg, number, text, Printer, Outcome, ok, undefined, endless, Print, and_then, out, print_num,
  print_char, print_str, length_limit,
}
use run_mos_on_risc_v.Print.Pieces.{out-Shows, print_str-Shows, print_char-Shows, Shows}
use run_mos_on_risc_v.Print.Number.{print_num_lem, print_num-undefined}
use run_mos_on_risc_v.Print.Format.{convert, print_signed, num_arg, str_arg, va_num, va_str}

-- The numbers among the arguments are words.
abbrev pub AreWords : List Arg → Type 0
AreWords [] = Unit {0}
AreWords (number n ∷ more) = (n < 2 ^ 32) × AreWords more
AreWords (text t ∷ more) = AreWords more

-- A run that does not use up its fuel, with what holds where it returns.
abbrev pub Ends : {A : Type 0} → (A → Printer → Type 0) → Outcome (A × Printer) → Type 0
Ends R (ok (a, s)) = R a s
Ends R undefined = Unit {0}
Ends R endless = ⊥

pub Ends-then :
    {A B : Type 0} (Q : A → Printer → Type 0) (R : B → Printer → Type 0) (r : Outcome (A × Printer))
    (k : A → Print B)
    → Ends Q r
    → ((a : A) (s : Printer) → Q a s → Ends R (k a s))
    → Ends R (and_then r k)
Ends-then Q R (ok (a, s)) k h f = f a s h
Ends-then Q R undefined k h f = tt
Ends-then Q R endless k h f = absurd h

-- The arguments that are left are words.
abbrev pub Fine : {A : Type 0} → A → Printer → Type 0
Fine a s = AreWords s.args

if-Fine :
    (b : Bool) (m k : Print (Unit {0})) (s : Printer)
    → Ends Fine (m s)
    → Ends Fine (k s)
    → Ends Fine ((if b then m else k) s)
if-Fine true m k s h g = h
if-Fine false m k s h g = g

Shows-Fine :
    (m : Print (Unit {0})) (p : List ℕ) (s : Printer)
    → AreWords s.args
    → Shows m p s.args s
    → Ends Fine (m s)
Shows-Fine m p s w (t, e, a) = rw e (rw a.left w)

pub out-Fine : (p : List ℕ) (s : Printer) → AreWords s.args → Ends Fine (out p s)
out-Fine p s w = Shows-Fine (out p) p s w (out-Shows p s)

print_num-Fine :
    (u base : ℕ) (neg_flag : Bool) (width : ℕ) (ladjust : Bool) (padc : ℕ) (upcase : Bool)
    (s : Printer)
    → 2 ≤ base
    → base ≤ 36
    → u < 2 ^ 32
    → AreWords s.args
    → Ends Fine (print_num u base neg_flag width ladjust padc upcase s)
print_num-Fine u base neg_flag width ladjust padc upcase s low high fits w =
    elim (Bool-cases (leb length_limit width)) [
      | inl long ↦ rw (print_num-undefined u base neg_flag width ladjust padc upcase s long) tt
      | inr short ↦
          let (ds, _, _, e) =
            print_num_lem u base neg_flag width ladjust padc upcase s low high fits
              (ground arith) in
          rw e (out-Fine _ s w)
    ]

print_signed-Fine :
    (num width : ℕ) (ladjust : Bool) (padc : ℕ) (s : Printer)
    → num < 2 ^ 32
    → AreWords s.args
    → Ends Fine (print_signed num width ladjust padc s)
unfolding print_signed
print_signed-Fine num width ladjust padc s fits w = elim (Bool-cases (ltb num 0x8000_0000)) [
  | inl small ↦
      rw small
        (print_num-Fine num 10 false width ladjust padc false s (omega arith) (omega arith) fits w)
  | inr large ↦ rw large (
      if-Fine (num == 0x8000_0000) (λ t. undefined) _ s tt
        (print_num-Fine (word_mod - num) 10 true width ladjust padc false s (omega arith)
          (omega arith) (ground arith) w))
]

num_arg-Fine :
    (args : List Arg) (k : ℕ → Print (Unit {0})) (s : Printer)
    → AreWords args
    → ((n : ℕ) (t : Printer) → n < 2 ^ 32 → AreWords t.args → Ends Fine (k n t))
    → Ends Fine (and_then (num_arg args s) k)
num_arg-Fine [] k s w f = tt
num_arg-Fine (number n ∷ more) k s (h, w) f = f n _ h w
num_arg-Fine (text t ∷ more) k s w f = tt

va_num-Fine :
    (k : ℕ → Print (Unit {0})) (s : Printer)
    → AreWords s.args
    → ((n : ℕ) (t : Printer) → n < 2 ^ 32 → AreWords t.args → Ends Fine (k n t))
    → Ends Fine (and_then (va_num s) k)
unfolding va_num
va_num-Fine k s w f = num_arg-Fine s.args k s w f

str_arg-Fine :
    (args : List Arg) (k : List ℕ → Print (Unit {0})) (s : Printer)
    → AreWords args
    → ((p : List ℕ) (t : Printer) → AreWords t.args → Ends Fine (k p t))
    → Ends Fine (and_then (str_arg args s) k)
str_arg-Fine [] k s w f = tt
str_arg-Fine (number n ∷ more) k s w f = tt
str_arg-Fine (text p ∷ more) k s w f = f p _ w

va_str-Fine :
    (k : List ℕ → Print (Unit {0})) (s : Printer)
    → AreWords s.args
    → ((p : List ℕ) (t : Printer) → AreWords t.args → Ends Fine (k p t))
    → Ends Fine (and_then (va_str s) k)
unfolding va_str
va_str-Fine k s w f = str_arg-Fine s.args k s w f

unsigned-Fine :
    (base width : ℕ) (ladjust : Bool) (padc : ℕ) (upcase : Bool) (s : Printer)
    → 2 ≤ base
    → base ≤ 36
    → AreWords s.args
    → Ends Fine (and_then (va_num s) (λ num. print_num num base false width ladjust padc upcase))
unsigned-Fine base width ladjust padc upcase s low high w =
    va_num-Fine _ s w
      (λ n t h g. print_num-Fine n base false width ladjust padc upcase t low high h g)

pub convert-Fine :
    (c width : ℕ) (ladjust : Bool) (padc : ℕ) (s : Printer)
    → AreWords s.args
    → Ends Fine (convert c width ladjust padc s)
unfolding convert
convert-Fine c width ladjust padc s w =
    let shows = λ (base : ℕ) (up : Bool) (low : 2 ≤ base) (high : base ≤ 36).
      unsigned-Fine base width ladjust padc up s low high w in
    if-Fine (c == b'b') _ _ s (shows 2 false (omega arith) (omega arith)) (
      if-Fine (c == b'd' || c == b'D') _ _ s
        (va_num-Fine _ s w (λ n t h g. print_signed-Fine n width ladjust padc t h g))
        (if-Fine (c == b'o' || c == b'O') _ _ s (shows 8 false (omega arith) (omega arith)) (
          if-Fine (c == b'u' || c == b'U') _ _ s (shows 10 false (omega arith) (omega arith)) (
            if-Fine (c == b'x') _ _ s (shows 16 false (omega arith) (omega arith)) (
              if-Fine (c == b'X') _ _ s (shows 16 true (omega arith) (omega arith)) (
                if-Fine (c == b'c') _ _ s
                  (va_num-Fine _ s w (λ n t h g.
                    Shows-Fine (print_char (n % 256) width ladjust) _ t g
                      (print_char-Shows (n % 256) width ladjust t)))
                  (if-Fine (c == b's') _ _ s
                    (va_str-Fine _ s w (λ p t g.
                      Shows-Fine (print_str p width ladjust) _ t g
                        (print_str-Shows p width ladjust t)))
                    (if-Fine (c == 0) _ _ s w (out-Fine (c ∷ []) s w)))))))))

-- ===== src/Print/Items.antt =====
-- lib/print.c: whole formats, as literal texts and conversions with their arguments.
use run_mos_on_risc_v.Prelude.{
  ℕ, zero, suc, ◌+◌, ◌≤◌, ◌<◌, ◌≡◌, ◌≢◌, refl, ap, ◌∙◌, Bool, true, false, none, some, List, [],
  ◌∷◌, ◌++◌, arith, ne→==, length,
}
use run_mos_on_risc_v.Print.Rounds.{all_rounds_step}
use run_mos_on_risc_v.Print.{Arg, Printer, ok, Print, and_then, pure, out}
use run_mos_on_risc_v.Print.Pieces.{Adds, Shows, out-Shows, Adds-trans}
use run_mos_on_risc_v.Print.Digits.{spelled}
use run_mos_on_risc_v.Print.Format.{
  literal, from_percent, directive, one_round, all_rounds, vprintfmt,
}
use run_mos_on_risc_v.Print.Field.{Spec, IsSpec, with_flag, written, padding, directive-written}
use run_mos_on_risc_v.Print.Values.{Value, IsValue, IsText, letter_of, arg_of, convert-Shows}

-- What stands behind a '%': a second one, or flags, a width, perhaps an 'l', and a letter.
pub data Part : Type 0 where
  percent : Part
  conv : Bool → Bool → List ℕ → Bool → Value → Part

abbrev pub spec_of : Bool → Bool → List ℕ → Bool → Value → Spec
spec_of ladjust zeros width long v = record {
  ladjust = ladjust;
  zeros = zeros;
  width = width;
  long = long;
  letter = letter_of v;
}

abbrev pub part : Part → List ℕ → List ℕ
part percent fmt = b'%' ∷ fmt
part (conv ladjust zeros width long v) fmt = written (spec_of ladjust zeros width long v) fmt

abbrev pub arg : Part → List Arg → List Arg
arg percent more = more
arg (conv ladjust zeros width long v) more = arg_of v ∷ more

abbrev pub IsPart : Part → Type 0
IsPart percent = Unit {0}
IsPart (conv ladjust zeros width long v) = IsSpec (spec_of ladjust zeros width long v) × IsValue v

abbrev pub PartText : Part → List ℕ → Type 0
PartText percent t = t ≡ b'%' ∷ []
PartText (conv ladjust zeros width long v) t =
    IsText v (spelled 10 0 width) ladjust (padding zeros) t

abbrev pub IsLiteral : List ℕ → Type 0
IsLiteral [] = Unit {0}
IsLiteral (c ∷ l) = (c ≢ b'%') × IsLiteral l

-- A format: literal texts, each before such a part, and a last one.
abbrev pub format : List (List ℕ × Part) → List ℕ → List ℕ
format [] last = last
format ((l, p) ∷ ps) last = l ++ b'%' ∷ part p (format ps last)

abbrev pub args_of : List (List ℕ × Part) → List Arg → List Arg
args_of [] more = more
args_of ((l, p) ∷ ps) more = arg p (args_of ps more)

abbrev pub IsFormat : List (List ℕ × Part) → Type 0
IsFormat [] = Unit {0}
IsFormat ((l, p) ∷ ps) = IsLiteral l × IsPart p × IsFormat ps

-- The literal texts as they are, and in between a text for each part.
abbrev pub FormatText : List (List ℕ × Part) → List ℕ → List ℕ → Type 0
FormatText [] last t = t ≡ last
FormatText ((l, p) ∷ ps) last t =
    (a b : List ℕ) × PartText p a × FormatText ps last b × (t ≡ l ++ (a ++ b))

literal-append : (l fmt : List ℕ) → IsLiteral l → literal (l ++ b'%' ∷ fmt) ≡ l
unfolding literal
literal-append [] fmt h = refl
literal-append (c ∷ l) fmt (h, hs) = rw (ne→== c b'%' h) (ap (λ x. c ∷ x) (literal-append l fmt hs))

from_percent-append : (l fmt : List ℕ) → IsLiteral l → from_percent (l ++ b'%' ∷ fmt) ≡ b'%' ∷ fmt
unfolding from_percent
from_percent-append [] fmt h = refl
from_percent-append (c ∷ l) fmt (h, hs) = rw (ne→== c b'%' h) (from_percent-append l fmt hs)

literal-all : (l : List ℕ) → IsLiteral l → literal l ≡ l
unfolding literal
literal-all [] h = refl
literal-all (c ∷ l) (h, hs) = rw (ne→== c b'%' h) (ap (λ x. c ∷ x) (literal-all l hs))

from_percent-all : (l : List ℕ) → IsLiteral l → from_percent l ≡ []
unfolding from_percent
from_percent-all [] h = refl
from_percent-all (c ∷ l) (h, hs) = rw (ne→== c b'%' h) (from_percent-all l hs)

-- A part is shown, and the format goes on behind it.
abbrev ShowsPart : Part → List ℕ → List Arg → Printer → Type 0
ShowsPart p fmt more s =
    (a : List ℕ) × PartText p a
    × ((t : Printer) × (directive (part p fmt) s ≡ ok (fmt, t)) × Adds a more s t)

directive-percent :
    (fmt : List ℕ) (s : Printer)
    → directive (b'%' ∷ fmt) s ≡ and_then (out (b'%' ∷ []) s) (λ _. pure fmt)
unfolding directive
directive-percent fmt s = refl

part-Shows :
    (p : Part) (fmt : List ℕ) (more : List Arg) (s : Printer)
    → IsPart p
    → s.args ≡ arg p more
    → ShowsPart p fmt more s
part-Shows percent fmt more s h e =
    let (t, d, a) = out-Shows (b'%' ∷ []) s in
    (
      b'%' ∷ [],
      refl,
      (t, directive-percent fmt s ∙ rw d refl, record { adds = a.adds; left = a.left ∙ e }),
    )
part-Shows (conv ladjust zeros width long v) fmt more s (h, k) e =
    let (t, p, (u, d, a)) =
      convert-Shows v (spelled 10 0 width) ladjust (padding zeros) more s k h.fits e in
    (t, p, (u, directive-written (spec_of ladjust zeros width long v) fmt s h ∙ rw d refl, a))

-- One round with a conversion, and the round with the last text.
one_round-part :
    (l fmt : List ℕ) (s : Printer)
    → IsLiteral l
    → one_round (l ++ b'%' ∷ fmt) s
      ≡ and_then (out l s) (λ _ t. and_then (directive fmt t) (λ left. pure (some left)))
unfolding one_round
one_round-part l fmt s h = rw (literal-append l fmt h, from_percent-append l fmt h) refl

one_round-last :
    (l : List ℕ) (s : Printer) → IsLiteral l → one_round l s ≡ and_then (out l s) (λ _. pure none)
unfolding one_round
one_round-last l s h = rw (literal-all l h, from_percent-all l h) refl

all_rounds-part :
    (k : ℕ) (l fmt fmt' : List ℕ) (s t u : Printer)
    → IsLiteral l
    → out l s ≡ ok (tt, t)
    → directive fmt t ≡ ok (fmt', u)
    → all_rounds (suc k) (l ++ b'%' ∷ fmt) s ≡ all_rounds k fmt' u
all_rounds-part k l fmt fmt' s t u h e d =
    all_rounds_step k (l ++ b'%' ∷ fmt) s ∙ rw (one_round-part l fmt s h, e, d) refl

all_rounds-last :
    (k : ℕ) (l : List ℕ) (s t : Printer)
    → IsLiteral l
    → out l s ≡ ok (tt, t)
    → all_rounds (suc k) l s ≡ ok (tt, t)
all_rounds-last k l s t h e = all_rounds_step k l s ∙ rw (one_round-last l s h, e) refl

abbrev pub ShowsFormat :
    Print (Unit {0}) → List (List ℕ × Part) → List ℕ → List Arg → Printer → Type 0
ShowsFormat m ps last more s = (t : List ℕ) × FormatText ps last t × Shows m t more s

all_rounds-Shows :
    (k : ℕ) (ps : List (List ℕ × Part)) (last : List ℕ) (more : List Arg) (s : Printer)
    → length ps < k
    → IsFormat ps
    → IsLiteral last
    → s.args ≡ args_of ps more
    → ShowsFormat (all_rounds k (format ps last)) ps last more s
all_rounds-Shows zero ps last more s enough h g e = absurd (omega arith)
all_rounds-Shows (suc k) [] last more s enough h g e =
    let (t, d, a) = out-Shows last s in
    (last, refl, (t, all_rounds-last k last s t g d, record { adds = a.adds; left = a.left ∙ e }))
all_rounds-Shows (suc k) ((l, p) ∷ ps) last more s enough (hl, hp, hs) g e =
    let (t, d, a) = out-Shows l s in
    let fmt = format ps last in
    let (x, px, (u, dx, ax)) = part-Shows p fmt (args_of ps more) t hp (a.left ∙ e) in
    let (y, py, (v, dy, ay)) = all_rounds-Shows k ps last more u (omega arith) hs g ax.left in
    (
      l ++ (x ++ y),
      (x, y, px, py, refl),
      (
        v,
        all_rounds-part k l (part p fmt) fmt s t u hl d dx ∙ dy,
        Adds-trans l (x ++ y) s.args more s t v a
            (Adds-trans x y (args_of ps more) more t u v ax ay),
      ),
    )

length-flag : (c : ℕ) (b : Bool) (fmt : List ℕ) → length fmt ≤ length (with_flag c b fmt)
length-flag c true fmt = omega arith
length-flag c false fmt = omega arith

length-after : (ds fmt : List ℕ) → length fmt ≤ length (ds ++ fmt)
length-after [] fmt = omega arith
length-after (d ∷ ds) fmt = omega (arith, length-after ds fmt)

length-part : (p : Part) (fmt : List ℕ) → length fmt ≤ length (part p fmt)
length-part percent fmt = omega arith
length-part (conv ladjust zeros width long v) fmt =
    let tail = with_flag b'l' long (letter_of v ∷ fmt) in
    omega (
      arith,
      length-flag b'-' ladjust (with_flag b'0' zeros (width ++ tail)),
      length-flag b'0' zeros (width ++ tail),
      length-after width tail,
      length-flag b'l' long (letter_of v ∷ fmt),
    )

-- Each part takes a '%' of the format.
parts_fit : (ps : List (List ℕ × Part)) (last : List ℕ) → length ps ≤ length (format ps last)
parts_fit [] last = omega arith
parts_fit ((l, p) ∷ ps) last = omega (
  arith,
  parts_fit ps last,
  length-part p (format ps last),
  length-after l (b'%' ∷ part p (format ps last)),
)

-- For a format of literal texts and conversions, with an argument for each (widths below
-- 2^31 - 70, numbers of 32 bits, for %d not the least int), vprintfmt returns, puts out the literal
-- texts with a text for each conversion in between, and leaves the arguments behind them. The text
-- of a number is a numeral that spells it, laid out with sign and padding.
pub vprintfmt_lem :
    (ps : List (List ℕ × Part)) (last : List ℕ) (more : List Arg) (s : Printer)
    → IsFormat ps
    → IsLiteral last
    → s.args ≡ args_of ps more
    → ShowsFormat (vprintfmt (format ps last)) ps last more s
unfolding vprintfmt
vprintfmt_lem ps last more s h g e =
    all_rounds-Shows (length (format ps last) + 1) ps last more s (omega (arith, parts_fit ps last))
      h g e

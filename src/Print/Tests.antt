-- ===== src/Print/Tests.antt =====
-- lib/print.c: what the functions give on small inputs, and the theorems at concrete inputs.
use run_mos_on_risc_v.Prelude.{ℕ, ◌≡◌, ◌≢◌, refl, true, false, List, [], ◌∷◌, arith}
use run_mos_on_risc_v.Print.{number, text, Printer, Outcome, ok, undefined, endless}
use run_mos_on_risc_v.Print.Format.{vprintfmt}
use run_mos_on_risc_v.Print.Pieces.{joined}
use run_mos_on_risc_v.Print.Number.{Prints, print_num_lem}
use run_mos_on_risc_v.Print.Values.{dec, str, hex}
use run_mos_on_risc_v.Print.Items.{
  Part, conv, percent, IsFormat, format, ShowsFormat, vprintfmt_lem,
}
use run_mos_on_risc_v.Print.Digits.{spelled}
use run_mos_on_risc_v.Print.Debug.{vdebugf}
use run_mos_on_risc_v.Print.Debug.Sent.{SendsFormat, vdebugf-vprintfmt}
use run_mos_on_risc_v.Print.Total.{vprintfmt-ne-endless}

abbrev printer : Printer
printer = record {
  args = number 0xffff_fffb ∷ text (b'o' ∷ b'k' ∷ []) ∷ number 255 ∷ [];
  pieces = [];
  stack = λ i. i;
}

-- The text that a run puts out.
abbrev shown : Outcome (Unit {0} × Printer) → List ℕ
shown (ok (a, s)) = joined s.pieces
shown undefined = []
shown endless = []

-- printf("%05d|%-4s|%x%%", -5, "ok", 255)
example_shown :
    shown (
      vprintfmt
        (b'%' ∷ b'0' ∷ b'5' ∷ b'd' ∷ b'|' ∷ b'%' ∷ b'-' ∷ b'4' ∷ b's' ∷ b'|' ∷ b'%' ∷ b'x' ∷ b'%'
          ∷ b'%' ∷ [])
        printer)
    ≡ b'-' ∷ b'0' ∷ b'0' ∷ b'0' ∷ b'5' ∷ b'|' ∷ b'o' ∷ b'k' ∷ b' ' ∷ b' ' ∷ b'|' ∷ b'f' ∷ b'f'
      ∷ b'%' ∷ []
unfolding vprintfmt joined
example_shown = refl

-- printf("%") leaves the pointer where it is.
percent_shown : shown (vprintfmt (b'a' ∷ b'%' ∷ []) printer) ≡ b'a' ∷ []
unfolding vprintfmt joined
percent_shown = refl

print_num_lem_example : Prints 255 16 false 6 true b' ' true printer
print_num_lem_example =
    print_num_lem 255 16 false 6 true b' ' true printer (omega arith) (omega arith) (omega arith)
      (omega arith)

-- "%05d|%-4s|%lx%%" and what it needs.
abbrev parts : List (List ℕ × Part)
parts =
    ([], conv false true (b'5' ∷ []) false (dec false 0xffff_fffb))
    ∷ (b'|' ∷ [], conv true false (b'4' ∷ []) false (str (b'o' ∷ b'k' ∷ [])))
    ∷ (b'|' ∷ [], conv false false [] true (hex false 255))
    ∷ ([], percent)
    ∷ []

parts-IsFormat : IsFormat parts
unfolding spelled
parts-IsFormat = (
  tt,
  (
    record {
      decimal = omega arith;
      leading = omega arith;
      fits = omega arith;
      is_letter = omega arith;
    },
    omega arith,
  ),
  (
    omega arith,
    (
      record {
        decimal = omega arith;
        leading = omega arith;
        fits = omega arith;
        is_letter = omega arith;
      },
      tt,
    ),
    (
      omega arith,
      (
        record {
          decimal = omega arith;
          leading = omega arith;
          fits = omega arith;
          is_letter = omega arith;
        },
        omega arith,
      ),
      (tt, tt, tt),
    ),
  ),
)

vprintfmt_lem_example : ShowsFormat (vprintfmt (format parts [])) parts [] [] printer
vprintfmt_lem_example = vprintfmt_lem parts [] [] printer parts-IsFormat tt refl

vprintfmt-ne-endless_example : vprintfmt (b'%' ∷ b'd' ∷ b'%' ∷ b'-' ∷ []) printer ≢ endless
vprintfmt-ne-endless_example =
    vprintfmt-ne-endless (b'%' ∷ b'd' ∷ b'%' ∷ b'-' ∷ []) printer (omega arith)

vdebugf-vprintfmt_example :
    SendsFormat (vdebugf (λ p. true) (vprintfmt (format parts []) printer)) parts []
vdebugf-vprintfmt_example =
    vdebugf-vprintfmt (λ p. true) parts [] [] printer (λ p h. refl) parts-IsFormat tt refl refl

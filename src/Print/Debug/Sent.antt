-- ===== src/Print/Debug/Sent.antt =====
-- user/lib/debugf.c: what the console is sent by debugf.
use mathlib.Core.List.{append_assoc, append-nil}
use run_mos_on_risc_v.Prelude.{
  ℕ, ◌+◌, ◌≤◌, ◌≡◌, refl, sym, ap, ◌∙◌, Bool, true, List, [], ◌∷◌, ◌++◌, arith, length,
}
use run_mos_on_risc_v.Print.{Arg, Printer, ok}
use run_mos_on_risc_v.Print.Pieces.{joined}
use run_mos_on_risc_v.Print.Format.{vprintfmt}
use run_mos_on_risc_v.Print.Items.{
  Part, format, args_of, IsFormat, IsLiteral, FormatText, vprintfmt_lem,
}
use run_mos_on_risc_v.Print.Debug.{
  buf_len, Context, Result, done, and_then, debug_flush, debug_output, outputs, vdebugf,
}
use run_mos_on_risc_v.Print.Debug.Buffer.{ArePieces, IsFilled, total, Puts, flush_lem, fill_up_lem}

module _ (print_cons : List ℕ → Bool)
    (takes : (p : List ℕ) → length p ≤ buf_len → print_cons p ≡ true) where
  debug_output_lem :
      (s : List ℕ) (c : Context)
      → IsFilled c
      → Puts print_cons takes (debug_output print_cons s c) s c
  unfolding debug_output
  debug_output_lem s c h = fill_up_lem print_cons takes (length s + 1) s c h (omega (arith, h.room))

  outputs_step :
      (p : List ℕ) (ps : List (List ℕ)) (c d : Context)
      → debug_output print_cons p c ≡ done d
      → outputs print_cons (p ∷ ps) c ≡ outputs print_cons ps d
  unfolding outputs
  outputs_step p ps c d e = ap (λ r. and_then r (outputs print_cons ps)) e

  outputs-nil : (c : Context) → outputs print_cons [] c ≡ done c
  unfolding outputs
  outputs-nil c = refl

  outputs_lem :
      (ps : List (List ℕ)) (c : Context)
      → IsFilled c
      → Puts print_cons takes (outputs print_cons ps c) (joined ps) c
  unfolding joined
  outputs_lem [] c h = (c, outputs-nil c, h, sym (append-nil (total c)))
  outputs_lem (p ∷ ps) c h =
      let (d, e, g, t) = debug_output_lem p c h in
      let (d', e', g', t') = outputs_lem ps d g in
      (
        d',
        outputs_step p ps c d e ∙ e',
        g',
        t' ∙ ap (λ l. l ++ joined ps) t ∙ append_assoc (total c) p (joined ps),
      )

  -- Everything that vprintfmt puts out is sent.
  abbrev pub Sends : Result → List ℕ → Type 0
  Sends r p = (c : Context) × (r ≡ done c) × (c.buf ≡ []) × (joined c.sent ≡ p) × ArePieces c.sent

  vdebugf_step :
      (s : Printer) (c : Context)
      → outputs print_cons s.pieces (record { buf = []; sent = [] }) ≡ done c
      → vdebugf print_cons (ok (tt, s)) ≡ debug_flush print_cons c
  unfolding vdebugf
  vdebugf_step s c e = ap (λ r. and_then r (debug_flush print_cons)) e

  vdebugf-Sends : (s : Printer) → Sends (vdebugf print_cons (ok (tt, s))) (joined s.pieces)
  unfolding joined
  vdebugf-Sends s =
      let empty : Context = record { buf = []; sent = [] } in
      let (c, e, h, t) = outputs_lem s.pieces empty (record { room = omega arith; pieces = tt }) in
      let (d, e', z, p, u) = flush_lem print_cons takes c h in
      (d, vdebugf_step s c e ∙ e', z, u ∙ t, p)

joined-empty : (t : List ℕ) → joined [] ++ t ≡ t
unfolding joined
joined-empty t = refl

abbrev pub SendsFormat : Result → List (List ℕ × Part) → List ℕ → Type 0
SendsFormat r ps last =
    (t : List ℕ) × FormatText ps last t
    × ((c : Context) × (r ≡ done c) × (c.buf ≡ []) × (joined c.sent ≡ t) × ArePieces c.sent)

-- If the console takes every text that fits into the buffer, then for such a format as
-- vprintfmt_lem is about, with widths below 2^31 - 70 and nothing put out yet, debugf returns and has sent the literal texts
-- with the arguments shown in between: in order, nothing lost or kept back, in pieces of 1 to 1024
-- characters.
pub vdebugf-vprintfmt :
    (print_cons : List ℕ → Bool) (ps : List (List ℕ × Part)) (last : List ℕ) (more : List Arg)
    (s : Printer)
    → ((p : List ℕ) → length p ≤ buf_len → print_cons p ≡ true)
    → IsFormat ps
    → IsLiteral last
    → s.args ≡ args_of ps more
    → s.pieces ≡ []
    → SendsFormat (vdebugf print_cons (vprintfmt (format ps last) s)) ps last
vdebugf-vprintfmt print_cons ps last more s takes h g e z =
    let (t, p, (u, d, a)) = vprintfmt_lem ps last more s h g e in
    let (c, r, b, j, q) = vdebugf-Sends print_cons takes u in
    (t, p, (c, rw d r, b, j ∙ a.adds ∙ ap (λ x. joined x ++ t) z ∙ joined-empty t, q))

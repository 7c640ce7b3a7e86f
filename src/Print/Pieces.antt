-- ===== src/Print/Pieces.antt =====
-- lib/print.c: the text that the pieces of the sink make up, and print_char and print_str.
use mathlib.Core.List.{append_assoc, append-nil}
use run_mos_on_risc_v.Prelude.{
  ℕ, zero, suc, ◌-◌, ◌≡◌, refl, sym, ap, ◌∙◌, Bool, true, false, List, [], ◌∷◌, ◌++◌, arith, ltb,
  if◌then◌else◌, length,
}
use run_mos_on_risc_v.Print.{
  Arg, Printer, ok, Print, and_then, out, out_spaces, print_char, print_str,
}
use run_mos_on_risc_v.Print.Window.{replicate}

-- The text of pieces.
unfoldable pub joined : List (List ℕ) → List ℕ
joined [] = []
joined (p ∷ ps) = p ++ joined ps

pub joined-snoc : (ps : List (List ℕ)) (p : List ℕ) → joined (ps ++ p ∷ []) ≡ joined ps ++ p
unfolding joined
joined-snoc [] p = append-nil p
joined-snoc (q ∷ ps) p = rw (joined-snoc ps p) (sym (append_assoc q (joined ps) p))

-- A printer that goes on to a text, with the arguments that are left.
pub record Adds (piece : List ℕ) (args : List Arg) (s t : Printer) : Type 0 where
  pub adds : joined t.pieces ≡ joined s.pieces ++ piece
  pub left : t.args ≡ args

-- A procedure that returns and puts out a text.
abbrev pub Shows : Print (Unit {0}) → List ℕ → List Arg → Printer → Type 0
Shows m piece args s = (t : Printer) × (m s ≡ ok (tt, t)) × Adds piece args s t

pub out-Shows : (p : List ℕ) (s : Printer) → Shows (out p) p s.args s
unfolding out
out-Shows p s = (
  record s { pieces = s.pieces ++ p ∷ [] },
  refl,
  record { adds = joined-snoc s.pieces p; left = refl },
)

pub Adds-trans :
    (p q : List ℕ) (args args' : List Arg) (s t u : Printer)
    → Adds p args s t
    → Adds q args' t u
    → Adds (p ++ q) args' s u
Adds-trans p q args args' s t u a b = record {
  adds = b.adds ∙ ap (λ x. x ++ q) a.adds ∙ append_assoc (joined s.pieces) p q;
  left = b.left;
}

-- One procedure after another.
pub Shows-then :
    (m k : Print (Unit {0})) (p q : List ℕ) (args args' : List Arg) (s : Printer)
    → Shows m p args s
    → ((t : Printer) → t.args ≡ args → Shows k q args' t)
    → Shows (λ u. and_then (m u) (λ _. k)) (p ++ q) args' s
Shows-then m k p q args args' s (t, e, a) f =
    let (u, d, b) = f t a.left in (u, rw e d, Adds-trans p q args args' s t u a b)

pub Shows-text :
    (m : Print (Unit {0})) (p q : List ℕ) (args : List Arg) (s : Printer)
    → p ≡ q
    → Shows m p args s
    → Shows m q args s
Shows-text m p q args s e h = rw (← e) h

pub out_spaces-Shows : (n : ℕ) (s : Printer) → Shows (out_spaces n) (replicate n b' ') s.args s
unfolding out_spaces
out_spaces-Shows zero s = (s, refl, record { adds = sym (append-nil _); left = refl })
out_spaces-Shows (suc n) s =
    Shows-then (out (b' ' ∷ [])) (out_spaces n) (b' ' ∷ []) (replicate n b' ') s.args s.args s
      (out-Shows (b' ' ∷ []) s) (λ t e. rw (← e) (out_spaces-Shows n t))

-- A text in a field: spaces before it, or with `ladjust` behind it.
abbrev pub aligned : Bool → ℕ → List ℕ → List ℕ
aligned true width p = p ++ replicate (width - length p) b' '
aligned false width p = replicate (width - length p) b' ' ++ p

spaces_after :
    (p : List ℕ) (n : ℕ) (s : Printer)
    → Shows (λ u. and_then (out p u) (λ _. out_spaces n)) (p ++ replicate n b' ') s.args s
spaces_after p n s =
    Shows-then (out p) (out_spaces n) p (replicate n b' ') s.args s.args s (out-Shows p s)
      (λ t e. rw (← e) (out_spaces-Shows n t))

spaces_before :
    (p : List ℕ) (n : ℕ) (s : Printer)
    → Shows (λ u. and_then (out_spaces n u) (λ _. out p)) (replicate n b' ' ++ p) s.args s
spaces_before p n s =
    Shows-then (out_spaces n) (out p) (replicate n b' ') p s.args s.args s (out_spaces-Shows n s)
      (λ t e. rw (← e) (out-Shows p t))

widen : (width len : ℕ) → (if ltb width len then len else width) - len ≡ width - len
widen width len = ground arith

pub print_str-Shows :
    (p : List ℕ) (width : ℕ) (ladjust : Bool) (s : Printer)
    → Shows (print_str p width ladjust) (aligned ladjust width p) s.args s
unfolding print_str
print_str-Shows p width true s = rw (widen width (length p)) (spaces_after p (width - length p) s)
print_str-Shows p width false s = rw (widen width (length p)) (spaces_before p (width - length p) s)

pub print_char-Shows :
    (c width : ℕ) (ladjust : Bool) (s : Printer)
    → Shows (print_char c width ladjust) (aligned ladjust width (c ∷ [])) s.args s
unfolding print_char
print_char-Shows c width true s = rw (widen width 1) (spaces_after (c ∷ []) (width - 1) s)
print_char-Shows c width false s = rw (widen width 1) (spaces_before (c ∷ []) (width - 1) s)

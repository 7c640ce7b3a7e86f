-- ===== src/Print/Rows.antt =====
-- lib/print.c: what print_num makes of the digits in its buffer: the row with sign and padding, turned.
use run_mos_on_risc_v.Prelude.{
  ℕ, suc, ◌+◌, ◌-◌, ◌≤◌, ◌≡◌, refl, sym, ap, ap₂, ◌∙◌, Bool, true, false, ◌&&◌, not, some, List,
  ◌∷◌, ◌++◌, arith, leb, ◌==◌, if◌then◌else◌, update, length, inl, inr, Bool-cases, ne→==, ==-refl,
  leb-zero,
}
use run_mos_on_risc_v.Print.{pad, pad_with, reverse, window}
use run_mos_on_risc_v.Print.Window.{
  down, replicate, down-eq, down-const, down-add, window-add, window-const, window-down,
  pad_with_lem, Mirrors, reverse_lem,
}
use run_mos_on_risc_v.Print.Digits.{length-down}

-- The sign and the digits of a number.
abbrev pub signed : Bool → List ℕ → List ℕ
signed true ds = b'-' ∷ ds
signed false ds = ds

-- A field: with `ladjust` spaces behind the number, else the padding before it, zeros between the
-- sign and the digits.
abbrev pub layout : Bool → Bool → ℕ → ℕ → List ℕ → List ℕ
layout neg_flag true padc width ds =
    signed neg_flag ds ++ replicate (width - length (signed neg_flag ds)) b' '
layout neg_flag false padc width ds =
    let gap = replicate (width - length (signed neg_flag ds)) padc in
    if padc == b'0' then signed neg_flag (gap ++ ds) else gap ++ signed neg_flag ds

-- A buffer that is mirrored whole is put out downwards.
window-Mirrors :
    (padded turned : ℕ → ℕ) (n : ℕ)
    → Mirrors 0 n padded turned
    → window turned 0 (suc n) ≡ down padded 0 (suc n)
window-Mirrors padded turned n m = window-down turned padded 0 0 (suc n) λ q r low e.
    m q
    ∙ (let z : leb q n ≡ true = ground arith in
        let y : 0 + n - q ≡ 0 + r = omega arith in rw (leb-zero q, z, y) refl)

-- What stands in the buffer after the digits, the sign and r characters of padding.
module _ (buf : ℕ → ℕ) (actual r padc : ℕ) where
  down-pad_with :
      down (pad_with padc r actual buf) 0 (actual + r) ≡ replicate r padc ++ down buf 0 actual
  down-pad_with =
      down-add (pad_with padc r actual buf) 0 actual r
      ∙ ap₂ ◌++◌
          (down-const (pad_with padc r actual buf) padc (0 + actual) r
            (λ q a b. ground (arith, pad_with_lem padc r actual buf q)))
          (down-eq (pad_with padc r actual buf) buf 0 actual
            (λ q a b. ground (arith, pad_with_lem padc r actual buf q)))

  down_below : down (pad_with padc r actual buf) 0 actual ≡ down buf 0 actual
  down_below =
      down-eq (pad_with padc r actual buf) buf 0 actual
        (λ q a b. ground (arith, pad_with_lem padc r actual buf q))

  window_above :
      (turned : ℕ → ℕ) (n : ℕ)
      → actual ≡ suc n
      → Mirrors 0 n (pad_with padc r actual buf) turned
      → window turned (0 + actual) r ≡ replicate r padc
  window_above turned n e m =
      window-const turned padc (0 + actual) r
        (λ q a b. ground (arith, m q, pad_with_lem padc r actual buf q))

window-pad_with :
    (buf : ℕ → ℕ) (n r padc : ℕ) (turned : ℕ → ℕ)
    → Mirrors 0 n (pad_with padc r (suc n) buf) turned
    → window turned 0 (suc n + r) ≡ down buf 0 (suc n) ++ replicate r padc
window-pad_with buf n r padc turned m =
    window-add turned 0 (suc n) r
    ∙ ap₂ ◌++◌
        (window-Mirrors (pad_with padc r (suc n) buf) turned n m ∙ down_below buf (suc n) r padc)
        (window_above buf (suc n) r padc turned n refl m)

-- A character written on top of n others is the first of them downwards.
down_top : (f : ℕ → ℕ) (n c : ℕ) → down (update f n c) 0 (suc n) ≡ c ∷ down f 0 n
unfolding down
down_top f n c =
    let z : 0 + n ≡ n = omega arith in
    rw (z, ==-refl n)
      (ap (λ l. c ∷ l) (down-eq (update f n c) f 0 n (λ q a b. rw (ne→== n q (omega arith)) refl)))

-- The row of a negative number that is filled up with zeros: the sign goes behind them.
down-pad_sign :
    (buf : ℕ → ℕ) (n r : ℕ)
    → down (update (pad_with b'0' r n buf) (n + r) b'-') 0 (suc (n + r))
      ≡ b'-' ∷ (replicate r b'0' ++ down buf 0 n)
down-pad_sign buf n r =
    down_top (pad_with b'0' r n buf) (n + r) b'-' ∙ ap (λ l. b'-' ∷ l) (down-pad_with buf n r b'0')

-- The array with the sign, if there is one.
abbrev pub with_sign : Bool → (ℕ → ℕ) → ℕ → ℕ → ℕ
with_sign neg_flag digits p = if neg_flag then update digits p b'-' else digits

-- The highest place that the sign and n + 1 digits take.
abbrev pub top : Bool → ℕ → ℕ
top neg_flag n = if neg_flag then suc n else n

down-with_sign :
    (neg_flag : Bool) (digits : ℕ → ℕ) (n : ℕ)
    → down (with_sign neg_flag digits (suc n)) 0 (suc (top neg_flag n))
      ≡ signed neg_flag (down digits 0 (suc n))
down-with_sign false digits n = refl
down-with_sign true digits n = down_top digits (suc n) b'-'

pad_plain :
    (neg_flag ladjust : Bool) (padc a r : ℕ) (buf : ℕ → ℕ)
    → (neg_flag && (not ladjust && padc == b'0')) ≡ false
    → pad neg_flag ladjust padc a (a + r) buf ≡ pad_with padc r a buf
unfolding pad
pad_plain neg_flag ladjust padc a r buf h = let e : a + r - a ≡ r = omega arith in rw (h, e) refl

-- What the last part of print_num makes of the digits, on a row of suc m + r places.
abbrev pub MakesRow : Bool → Bool → ℕ → (ℕ → ℕ) → ℕ → ℕ → ℕ → Type 0
MakesRow neg_flag ladjust padc digits n m r =
    let row =
      pad neg_flag ladjust (if ladjust then b' ' else padc) (suc m) (suc m + r)
        (with_sign neg_flag digits (suc n)) in
    (turned : ℕ → ℕ) × (reverse (suc m + r) 0 (if ladjust then suc m - 1 else suc m + r - 1) row
      ≡ some turned)
    × (window turned 0 (suc m + r)
        ≡ layout neg_flag ladjust padc (suc m + r) (down digits 0 (suc n)))

gap :
    (neg_flag : Bool) (digits : ℕ → ℕ) (n r : ℕ)
    → suc (top neg_flag n) + r - length (signed neg_flag (down digits 0 (suc n))) ≡ r
gap false digits n r = omega (arith, length-down digits 0 (suc n))
gap true digits n r = omega (arith, length-down digits 0 (suc n))

and_false : (b c : Bool) → (b && (false && c)) ≡ false
and_false true c = refl
and_false false c = refl

-- A row that is mirrored up to e, and what that makes of it.
mirrored :
    (k e e' : ℕ) (row row' : ℕ → ℕ) (piece : List ℕ)
    → e' ≡ e
    → row' ≡ row
    → e ≤ k
    → ((turned : ℕ → ℕ) → Mirrors 0 e row turned → window turned 0 k ≡ piece)
    → (turned : ℕ → ℕ) × (reverse k 0 e' row' ≡ some turned) × (window turned 0 k ≡ piece)
mirrored k e e' row row' piece p q fits f =
    let (turned, runs, mirrors) = reverse_lem k 0 e row (omega arith) in
    (turned, ap₂ (reverse k 0) p q ∙ runs, f turned mirrors)

window-whole :
    (row turned : ℕ → ℕ) (k e : ℕ)
    → k ≡ suc e
    → Mirrors 0 e row turned
    → window turned 0 k ≡ down row 0 k
window-whole row turned k e p m = rw p (window-Mirrors row turned e m)

turned_left :
    (neg_flag : Bool) (padc : ℕ) (digits : ℕ → ℕ) (n r : ℕ)
    → MakesRow neg_flag true padc digits n (top neg_flag n) r
turned_left neg_flag padc digits n r =
    let m = top neg_flag n in
    let buf = with_sign neg_flag digits (suc n) in
    mirrored (suc m + r) m (suc m - 1) (pad_with b' ' r (suc m) buf) _ _ (omega arith)
      (pad_plain neg_flag true b' ' (suc m) r buf (and_false neg_flag true)) (omega arith)
      λ turned mirrors.
        window-pad_with buf m r b' ' turned mirrors
        ∙ ap₂ (λ x y. x ++ replicate y b' ') (down-with_sign neg_flag digits n)
            (sym (gap neg_flag digits n r))

pad_zeros :
    (n r : ℕ) (buf : ℕ → ℕ)
    → pad true false b'0' (suc n) (suc n + r) buf ≡ update (pad_with b'0' r n buf) (n + r) b'-'
unfolding pad
pad_zeros n r buf =
    let e : suc n + r - 1 ≡ n + r = omega arith in
    let d : suc n + r - suc n ≡ r = omega arith in
    let f : suc n - 1 ≡ n = omega arith in rw (e, d, f) refl

down_under : (digits : ℕ → ℕ) (n c : ℕ) → down (update digits n c) 0 n ≡ down digits 0 n
down_under digits n c =
    down-eq (update digits n c) digits 0 n (λ q a b. rw (ne→== n q (omega arith)) refl)

turned_zeros : (digits : ℕ → ℕ) (n r : ℕ) → MakesRow true false b'0' digits n (suc n) r
turned_zeros digits n r =
    let buf = update digits (suc n) b'-' in
    let row = update (pad_with b'0' r (suc n) buf) (suc n + r) b'-' in
    mirrored (suc (suc n) + r) (suc n + r) (suc (suc n) + r - 1) row _ _ (omega arith)
      (pad_zeros (suc n) r buf) (omega arith)
      λ turned mirrors.
        window-whole row turned (suc (suc n) + r) (suc n + r) (omega arith) mirrors
        ∙ (let a : suc (suc n) + r ≡ suc (suc n + r) = omega arith in
            ap (down row 0) a
            ∙ down-pad_sign buf (suc n) r
            ∙ ap₂ (λ x y. b'-' ∷ (replicate x b'0' ++ y)) (sym (gap true digits n r))
                (down_under digits (suc n) b'-'))

layout_right :
    (neg_flag : Bool) (padc width : ℕ) (ds : List ℕ)
    → (neg_flag && padc == b'0') ≡ false
    → replicate (width - length (signed neg_flag ds)) padc ++ signed neg_flag ds
      ≡ layout neg_flag false padc width ds
layout_right false padc width ds h = elim (Bool-cases (padc == b'0')) [
  | inl z ↦ rw z refl
  | inr z ↦ rw z refl
]
layout_right true padc width ds h = rw h refl

turned_right :
    (neg_flag : Bool) (padc : ℕ) (digits : ℕ → ℕ) (n r : ℕ)
    → (neg_flag && padc == b'0') ≡ false
    → MakesRow neg_flag false padc digits n (top neg_flag n) r
turned_right neg_flag padc digits n r h =
    let m = top neg_flag n in
    let buf = with_sign neg_flag digits (suc n) in
    let row = pad_with padc r (suc m) buf in
    mirrored (suc m + r) (m + r) (suc m + r - 1) row _ _ (omega arith)
      (pad_plain neg_flag false padc (suc m) r buf h) (omega arith)
      λ turned mirrors.
        window-whole row turned (suc m + r) (m + r) (omega arith) mirrors
        ∙ down-pad_with buf (suc m) r padc
        ∙ ap₂ (λ x y. replicate x padc ++ y) (sym (gap neg_flag digits n r))
            (down-with_sign neg_flag digits n)
        ∙ layout_right neg_flag padc (suc m + r) (down digits 0 (suc n)) h

pub turned_lem :
    (neg_flag ladjust : Bool) (padc : ℕ) (digits : ℕ → ℕ) (n r : ℕ)
    → MakesRow neg_flag ladjust padc digits n (top neg_flag n) r
turned_lem neg_flag true padc digits n r = turned_left neg_flag padc digits n r
turned_lem false false padc digits n r = turned_right false padc digits n r refl
turned_lem true false padc digits n r = elim (Bool-cases (padc == b'0')) [
  | inl z ↦ let e : padc ≡ b'0' = ground arith in rw e (turned_zeros digits n r)
  | inr z ↦ turned_right true padc digits n r z
]

-- ===== src/Print/Debug/Buffer.antt =====
-- user/lib/debugf.c: debug_output and debug_flush lose no character.
use mathlib.Core.List.{append_assoc, append-nil}
use run_mos_on_risc_v.Prelude.{
  ℕ, zero, suc, ◌+◌, ◌-◌, ◌/◌, ◌≤◌, ◌<◌, ◌≡◌, refl, sym, ap, ◌∙◌, Bool, true, false, List, [], ◌∷◌,
  ◌++◌, arith, ltb, le→ltb, ◌==◌, length, inl, inr, Bool-cases,
}
use run_mos_on_risc_v.Print.Pieces.{joined, joined-snoc}
use run_mos_on_risc_v.Print.Debug.{
  buf_len, Context, Result, done, and_then, take, drop, debug_flush, fill_up,
}

-- Each call sends some characters, no more than the buffer has.
abbrev pub ArePieces : List (List ℕ) → Type 0
ArePieces [] = Unit {0}
ArePieces (p ∷ ps) = (1 ≤ length p) × (length p ≤ buf_len) × ArePieces ps

-- What was sent and what is still in the buffer.
abbrev pub total : Context → List ℕ
total c = joined c.sent ++ c.buf

pub record IsFilled (c : Context) : Type 0 where
  pub room : length c.buf ≤ buf_len
  pub pieces : ArePieces c.sent

ArePieces-snoc :
    (ps : List (List ℕ)) (p : List ℕ)
    → ArePieces ps
    → 1 ≤ length p
    → length p ≤ buf_len
    → ArePieces (ps ++ p ∷ [])
ArePieces-snoc [] p h a b = (a, b, tt)
ArePieces-snoc (q ∷ ps) p (x, y, h) a b = (x, y, ArePieces-snoc ps p h a b)

length-take : (n : ℕ) (xs : List ℕ) → n ≤ length xs → length (take n xs) ≡ n
length-take zero xs h = refl
length-take (suc n) [] h = absurd (omega arith)
length-take (suc n) (x ∷ xs) h = omega (arith, length-take n xs (omega arith))

length-drop : (n : ℕ) (xs : List ℕ) → length (drop n xs) ≡ length xs - n
length-drop zero xs = omega arith
length-drop (suc n) [] = omega arith
length-drop (suc n) (x ∷ xs) = omega (arith, length-drop n xs)

take-drop : (n : ℕ) (xs : List ℕ) → take n xs ++ drop n xs ≡ xs
take-drop zero xs = refl
take-drop (suc n) [] = refl
take-drop (suc n) (x ∷ xs) = ap (λ l. x ∷ l) (take-drop n xs)

length-append : (xs ys : List ℕ) → length (xs ++ ys) ≡ length xs + length ys
length-append [] ys = omega arith
length-append (x ∷ xs) ys = omega (arith, length-append xs ys)

nil_of_length : (xs : List ℕ) → (length xs == 0) ≡ true → xs ≡ []
nil_of_length [] h = refl
nil_of_length (x ∷ xs) h = absurd (ground arith)

-- A flush in between loses nothing.
total_lem :
    (n : ℕ) (s : List ℕ) (c d : Context)
    → d.buf ≡ []
    → joined d.sent ≡ joined c.sent ++ (c.buf ++ take n s)
    → total d ++ drop n s ≡ total c ++ s
total_lem n s c d empty sent =
    rw (empty, append-nil (joined d.sent), sent)
      (append_assoc (joined c.sent) (c.buf ++ take n s) (drop n s)
        ∙ rw (append_assoc c.buf (take n s) (drop n s), take-drop n s)
            (sym (append_assoc (joined c.sent) c.buf s)))

module _ (print_cons : List ℕ → Bool)
    (takes : (p : List ℕ) → length p ≤ buf_len → print_cons p ≡ true) where
  -- A call that returns with a text more.
  abbrev pub Puts : Result → List ℕ → Context → Type 0
  Puts r p c = (d : Context) × (r ≡ done d) × IsFilled d × (total d ≡ total c ++ p)

  pub flush_lem :
      (c : Context)
      → IsFilled c
      → (d : Context) × (debug_flush print_cons c ≡ done d)
        × (d.buf ≡ [])
        × ArePieces d.sent
        × (joined d.sent ≡ total c)
  unfolding debug_flush
  flush_lem c h = elim (Bool-cases (length c.buf == 0)) [
    | inl z ↦
        let e = nil_of_length c.buf z in
        (
          c,
          rw z refl,
          e,
          h.pieces,
          sym (append-nil (joined c.sent)) ∙ ap (λ l. joined c.sent ++ l) (sym e),
        )
    | inr z ↦ (
      record { buf = []; sent = c.sent ++ c.buf ∷ [] },
      rw (z, takes c.buf h.room) refl,
      refl,
      ArePieces-snoc c.sent c.buf h.pieces (ground arith) h.room,
      joined-snoc c.sent c.buf,
    )
  ]

  fill_up_step :
      (k : ℕ) (s : List ℕ) (c : Context)
      → ltb buf_len (length c.buf + length s) ≡ true
      → fill_up print_cons (suc k) s c ≡ (
          let n = buf_len - length c.buf in
          and_then
            (debug_flush print_cons (record c { buf = c.buf ++ take n s }))
            (fill_up print_cons k (drop n s)))
  unfolding fill_up
  fill_up_step k s c g = rw g refl

  fill_up_ends :
      (k : ℕ) (s : List ℕ) (c : Context)
      → ltb buf_len (length c.buf + length s) ≡ false
      → fill_up print_cons k s c ≡ done (record c { buf = c.buf ++ s })
  unfolding fill_up
  fill_up_ends zero s c g = rw g refl
  fill_up_ends (suc k) s c g = rw g refl

  fits_lem :
      (k : ℕ) (s : List ℕ) (c : Context)
      → IsFilled c
      → ltb buf_len (length c.buf + length s) ≡ false
      → Puts (fill_up print_cons k s c) s c
  fits_lem k s c h g = (
    record c { buf = c.buf ++ s },
    fill_up_ends k s c g,
    record { room = ground (arith, length-append c.buf s); pieces = h.pieces },
    sym (append_assoc (joined c.sent) c.buf s),
  )

  pub fill_up_lem :
      (k : ℕ) (s : List ℕ) (c : Context)
      → IsFilled c
      → length s + length c.buf / buf_len ≤ k
      → Puts (fill_up print_cons k s c) s c
  fill_up_lem zero s c h enough = fits_lem 0 s c h (le→ltb _ _ (omega (arith, h.room)))
  fill_up_lem (suc k) s c h enough = elim (Bool-cases (ltb buf_len (length c.buf + length s))) [
    | inr g ↦ fits_lem (suc k) s c h g
    | inl g ↦
        let n = buf_len - length c.buf in
        let mid : Context = record c { buf = c.buf ++ take n s } in
        let more : buf_len < length c.buf + length s = ground arith in
        let full : length (c.buf ++ take n s) ≡ buf_len = omega (
          arith,
          length-append c.buf (take n s),
          length-take n s (omega (arith, h.room)),
          h.room,
        ) in
        let (d, e, empty, pieces, sent) =
          flush_lem mid (record { room = omega (arith, full); pieces = h.pieces }) in
        let z : length d.buf ≡ 0 = ap length empty in
        let (d', e', h', t) =
          fill_up_lem k (drop n s) d (record { room = omega (arith, z); pieces = pieces })
            (omega (arith, length-drop n s, z, h.room)) in
        (d', fill_up_step k s c g ∙ rw e e', h', t ∙ total_lem n s c d empty sent)
  ]

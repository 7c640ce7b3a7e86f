-- ===== src/Str/Copy.antt =====
-- memcpy and memset of lib/string.c, by characters and by words, against the plain copy.
use mathlib.Core.Path.{fun_ext}
use run_mos_on_risc_v.Prelude.{
  ℕ, ◌+◌, ◌%◌, ◌≤◌, ◌<◌, ◌≡◌, ◌⊎◌, refl, ap, ◌∙◌, Bool, true, false, ◌&&◌, not, Option, some, arith,
  ◌==◌, ltb, leb, update, inl, inr, Bool-cases,
}
use run_mos_on_risc_v.Bytes.{load_word, store_word, copy_bytes, copy_bytes_more, word_bytes}
use run_mos_on_risc_v.Mmu.{word_mod}
use run_mos_on_risc_v.Str.Loop.{loop_lem}
use run_mos_on_risc_v.Str.{Cursor, copy_char, copy_word, while, memcpy, ◌>>=◌}

-- A copy of n bytes between areas that are apart, at least four bytes below the end of the address space.
module _ (m : ℕ → ℕ) (dst src n : ℕ) (below : dst + n + 4 < word_mod)
    (src_below : src + n + 4 < word_mod) (apart : (src + n ≤ dst) ⊎ (dst + n ≤ src)) where
  -- The cursor with k bytes copied.
  abbrev at : ℕ → Cursor
  at k = record { mem = copy_bytes dst k (λ j. m (src + j)) m; dst = dst + k; src = src + k }

  source_kept : (k j : ℕ) → k ≤ n → j < n → (at k).mem (src + j) ≡ m (src + j)
  unfolding copy_bytes
  source_kept k j h l = ground arith

  one_more : (k : ℕ) → update (at k).mem (dst + k) (m (src + k)) ≡ (at (k + 1)).mem
  one_more k = copy_bytes_more dst k (λ j. m (src + j)) m

  one_more_at :
      (k l a b : ℕ) → a ≡ dst + k → b ≡ src + k → l ≡ k + 1 → update (at k).mem a (m b) ≡ (at l).mem
  one_more_at k l a b p q r = rw (p, q, r) (one_more k)

  four_more :
      (k : ℕ)
      → ((a : ℕ) → m a < 256)
      → store_word (dst + k) (load_word m (src + k)) (at k).mem ≡ (at (k + 4)).mem
  unfolding store_word load_word
  four_more k b =
      let (e0, e1, e2, e3) =
        word_bytes (m (src + k)) (m (src + k + 1)) (m (src + k + 2)) (m (src + k + 3)) (b (src + k))
          (b (src + k + 1)) (b (src + k + 2)) (b (src + k + 3)) (load_word m (src + k)) refl in
      rw (
        e0,
        e1,
        e2,
        e3,
        one_more k,
        one_more_at (k + 1) (k + 2) (dst + k + 1) (src + k + 1) (omega arith) (omega arith)
            (omega arith),
        one_more_at (k + 2) (k + 3) (dst + k + 2) (src + k + 2) (omega arith) (omega arith)
            (omega arith),
        one_more_at (k + 3) (k + 4) (dst + k + 3) (src + k + 3) (omega arith) (omega arith)
            (omega arith),
      )

  kept_at : (k i a : ℕ) → a ≡ src + (k + i) → k + i < n → (at k).mem a ≡ m a
  kept_at k i a e l = rw e (source_kept k (k + i) (omega arith) l)

  word_kept : (k : ℕ) → k + 4 ≤ n → load_word (at k).mem (src + k) ≡ load_word m (src + k)
  unfolding load_word
  word_kept k h = rw (
    kept_at k 0 (src + k) (omega arith) (omega arith),
    kept_at k 1 (src + k + 1) (omega arith) (omega arith),
    kept_at k 2 (src + k + 2) (omega arith) (omega arith),
    kept_at k 3 (src + k + 3) (omega arith) (omega arith),
  )

  moved : (a k j : ℕ) → a + n + 4 < word_mod → k + j ≤ n → (a + k + j) % word_mod ≡ a + (k + j)
  moved a k j l h = omega arith

  copy_char_lem : (k : ℕ) → k + 1 ≤ n → copy_char (at k) ≡ at (k + 1)
  copy_char_lem k h = rw (
    source_kept k k (omega arith) (omega arith),
    one_more k,
    moved dst k 1 below h,
    moved src k 1 src_below h,
  )

  copy_word_lem : ((a : ℕ) → m a < 256) → (k : ℕ) → k + 4 ≤ n → copy_word (at k) ≡ at (k + 4)
  copy_word_lem b k h =
      rw (word_kept k h, four_more k b, moved dst k 4 below h, moved src k 4 src_below h)

  abbrev chars : Cursor → Bool
  chars x = ltb x.dst ((dst + n) % word_mod)

  abbrev unaligned : Cursor → Bool
  unaligned x = not (x.dst % 4 == 0) && ltb x.dst ((dst + n) % word_mod)

  abbrev words : Cursor → Bool
  words x = leb ((x.dst + 4) % word_mod) ((dst + n) % word_mod)

  chars_bound : (k : ℕ) → k ≤ n → chars (at k) ≡ true → k + 1 ≤ n
  chars_bound k h g = ground arith

  unaligned_bound : (k : ℕ) → k ≤ n → unaligned (at k) ≡ true → k + 1 ≤ n
  unaligned_bound k h g = ground arith

  words_bound : (k : ℕ) → k ≤ n → words (at k) ≡ true → k + 4 ≤ n
  words_bound k h g = ground arith

  chars_end : (k : ℕ) → k ≤ n → chars (at k) ≡ false → k ≡ n
  chars_end k h g = ground arith

  start_is : ◌≡◌ {A = Cursor} (record { mem = m; dst = dst; src = src }) (at 0)
  unfolding copy_bytes
  start_is =
      let e : copy_bytes dst 0 (λ j. m (src + j)) m ≡ m = fun_ext (λ x. ground arith) in
      let p : dst + 0 ≡ dst = omega arith in let q : src + 0 ≡ src = omega arith in rw (e, p, q)

  abbrev result : Cursor → Option (ℕ → ℕ)
  result x = some x.mem

  abbrev rest : Cursor → Option (ℕ → ℕ)
  rest x = while chars copy_char n x >>= result

  -- The last loop copies what is left.
  rest_lem : (k : ℕ) → k ≤ n → rest (at k) ≡ some (at n).mem
  rest_lem k h =
      let (l, c, f, e) =
        loop_lem at n chars copy_char 1 (omega arith) chars_bound copy_char_lem n k h
          (omega arith) in
      ap (λ r. r >>= result) e ∙ ap (λ x. some (at x).mem) (chars_end l c f)

  all_copied : ((a : ℕ) → m a < 256) → memcpy dst src n m ≡ some (at n).mem
  unfolding memcpy
  all_copied bytes = elim (Bool-cases (src % 4 == dst % 4)) [
    | inr t ↦ rw t (ap rest start_is ∙ rest_lem 0 (omega arith))
    | inl t ↦
        let (k1, l1, f1, e1) =
          loop_lem at n unaligned copy_char 1 (omega arith) unaligned_bound copy_char_lem n 0
            (omega arith) (omega arith) in
        let (k2, l2, f2, e2) =
          loop_lem at n words copy_word 4 (omega arith) words_bound (copy_word_lem bytes) n k1 l1
            (omega arith) in
        rw t (
          ap after0 start_is ∙ ap (λ r. r >>= after1) e1 ∙ ap (λ r. r >>= rest) e2 ∙ rest_lem k2 l2)
  ]
    where
      after1 : Cursor → Option (ℕ → ℕ)
      after1 x = while words copy_word n x >>= rest

      after0 : Cursor → Option (ℕ → ℕ)
      after0 x = while unaligned copy_char n x >>= after1

-- Between areas that are apart and end at least four bytes below the end of the address space, memcpy
-- copies the n bytes, whether it goes by characters or by words, and changes no other; n rounds are
-- enough for each of its loops.
pub memcpy_lem :
    (m : ℕ → ℕ) (dst src n : ℕ)
    → ((a : ℕ) → m a < 256)
    → dst + n + 4 < word_mod
    → src + n + 4 < word_mod
    → (src + n ≤ dst) ⊎ (dst + n ≤ src)
    → memcpy dst src n m ≡ some (copy_bytes dst n (λ j. m (src + j)) m)
memcpy_lem m dst src n bytes b c apart = all_copied m dst src n b c apart bytes

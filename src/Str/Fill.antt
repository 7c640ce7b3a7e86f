-- ===== src/Str/Fill.antt =====
-- memset of lib/string.c, by characters and by words, against the plain fill.
use mathlib.Core.Path.{fun_ext}
use run_mos_on_risc_v.Prelude.{
  ℕ, ◌+◌, ◌*◌, ◌%◌, ◌≤◌, ◌<◌, ◌≡◌, refl, ap, ◌∙◌, Bool, true, false, ◌&&◌, not, Option, some, arith,
  ◌==◌, ltb, leb, update,
}
use run_mos_on_risc_v.Bytes.{store_word, copy_bytes, copy_bytes_more, word_bytes}
use run_mos_on_risc_v.Mmu.{word_mod}
use run_mos_on_risc_v.Str.Loop.{loop_lem}
use run_mos_on_risc_v.Str.{Filler, fill_char, fill_word, while, memset, ◌>>=◌}

module _ (m : ℕ → ℕ) (dst c n : ℕ) (below : dst + n + 4 < word_mod) where
  abbrev byte : ℕ
  byte = c % 256

  -- The pointer with k bytes filled.
  abbrev at : ℕ → Filler
  at k = record { mem = copy_bytes dst k (λ _. byte) m; dst = dst + k }

  one_more_at : (k l a : ℕ) → a ≡ dst + k → l ≡ k + 1 → update (at k).mem a byte ≡ (at l).mem
  one_more_at k l a p r = rw (p, r) (copy_bytes_more dst k (λ _. byte) m)

  four_more : (k : ℕ) → store_word (dst + k) (byte * 0x101_0101) (at k).mem ≡ (at (k + 4)).mem
  unfolding store_word
  four_more k =
      let (e0, e1, e2, e3) =
        word_bytes byte byte byte byte (omega arith) (omega arith) (omega arith) (omega arith)
          (byte * 0x101_0101) (omega arith) in
      rw (
        e0,
        e1,
        e2,
        e3,
        one_more_at k (k + 1) (dst + k) (omega arith) (omega arith),
        one_more_at (k + 1) (k + 2) (dst + k + 1) (omega arith) (omega arith),
        one_more_at (k + 2) (k + 3) (dst + k + 2) (omega arith) (omega arith),
        one_more_at (k + 3) (k + 4) (dst + k + 3) (omega arith) (omega arith),
      )

  moved : (k j : ℕ) → k + j ≤ n → j ≤ 4 → (dst + k + j) % word_mod ≡ dst + (k + j)
  moved k j h l = omega arith

  fill_char_lem : (k : ℕ) → k + 1 ≤ n → fill_char byte (at k) ≡ at (k + 1)
  fill_char_lem k h = rw (one_more_at k (k + 1) (dst + k) refl refl, moved k 1 h (omega arith))

  fill_word_lem : (k : ℕ) → k + 4 ≤ n → fill_word byte (at k) ≡ at (k + 4)
  fill_word_lem k h = rw (four_more k, moved k 4 h (omega arith))

  abbrev chars : Filler → Bool
  chars x = ltb x.dst ((dst + n) % word_mod)

  abbrev unaligned : Filler → Bool
  unaligned x = not (x.dst % 4 == 0) && ltb x.dst ((dst + n) % word_mod)

  abbrev words : Filler → Bool
  words x = leb ((x.dst + 4) % word_mod) ((dst + n) % word_mod)

  chars_bound : (k : ℕ) → k ≤ n → chars (at k) ≡ true → k + 1 ≤ n
  chars_bound k h g = ground arith

  unaligned_bound : (k : ℕ) → k ≤ n → unaligned (at k) ≡ true → k + 1 ≤ n
  unaligned_bound k h g = ground arith

  words_bound : (k : ℕ) → k ≤ n → words (at k) ≡ true → k + 4 ≤ n
  words_bound k h g = ground arith

  chars_end : (k : ℕ) → k ≤ n → chars (at k) ≡ false → k ≡ n
  chars_end k h g = ground arith

  start_is : ◌≡◌ {A = Filler} (record { mem = m; dst = dst }) (at 0)
  unfolding copy_bytes
  start_is =
      let e : copy_bytes dst 0 (λ _. byte) m ≡ m = fun_ext (λ x. ground arith) in
      let p : dst + 0 ≡ dst = omega arith in rw (e, p)

  all_filled : memset dst c n m ≡ some (at n).mem
  unfolding memset
  all_filled =
      let (k1, l1, f1, e1) =
        loop_lem at n unaligned (fill_char byte) 1 (omega arith) unaligned_bound fill_char_lem n 0
          (omega arith) (omega arith) in
      let (k2, l2, f2, e2) =
        loop_lem at n words (fill_word byte) 4 (omega arith) words_bound fill_word_lem n k1 l1
          (omega arith) in
      let (k3, l3, f3, e3) =
        loop_lem at n chars (fill_char byte) 1 (omega arith) chars_bound fill_char_lem n k2 l2
          (omega arith) in
      ap after0 start_is
      ∙ ap (λ r. r >>= after1) e1
      ∙ ap (λ r. r >>= after2) e2
      ∙ ap (λ r. r >>= λ f. some f.mem) e3
      ∙ ap (λ x. some (at x).mem) (chars_end k3 l3 f3)
    where
      after2 : Filler → Option (ℕ → ℕ)
      after2 x = do f ← while chars (fill_char byte) n x; some f.mem

      after1 : Filler → Option (ℕ → ℕ)
      after1 x = do f ← while words (fill_word byte) n x; after2 f

      after0 : Filler → Option (ℕ → ℕ)
      after0 x = do f ← while unaligned (fill_char byte) n x; after1 f

-- On an area that ends at least four bytes below the end of the address space, memset stores the low
-- byte of c at each of the n places, whether it goes by characters or by words, and nothing elsewhere;
-- n rounds are enough for each of its loops.
memset_lem :
    (m : ℕ → ℕ) (dst c n : ℕ)
    → dst + n + 4 < word_mod
    → memset dst c n m ≡ some (copy_bytes dst n (λ _. c % 256) m)
memset_lem m dst c n b = all_filled m dst c n b

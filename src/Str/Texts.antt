-- ===== src/Str/Texts.antt =====
-- The functions of lib/string.c on strings, against the lists of their characters.
use run_mos_on_risc_v.Prelude.{
  ℕ, zero, suc, ◌+◌, ◌%◌, ◌<◌, ◌≡◌, ◌≢◌, ◌⊎◌, refl, ap, ◌∙◌, Bool, true, false, some, List, [], ◌∷◌,
  arith, ◌==◌, ltb, if◌then◌else◌, update, length,
}
use run_mos_on_risc_v.Mmu.{word_mod}
use run_mos_on_risc_v.Str.{
  count_chars, strlen, strcpy, strchr, strcmp, Sign, less, equal, more, sign_of,
}

-- The string at a has the characters of the list, none of them 0, before its end.
abbrev pub IsText : (ℕ → ℕ) → ℕ → List ℕ → Type 0
IsText m a [] = m a ≡ 0
IsText m a (c ∷ cs) = (m a ≡ c) × (c ≢ 0) × (a + 1 < word_mod) × IsText m (a + 1) cs

-- The order of texts, by the first place where they differ.
abbrev pub compare_texts : List ℕ → List ℕ → Sign
compare_texts [] [] = equal
compare_texts [] (d ∷ ds) = less
compare_texts (c ∷ cs) [] = more
compare_texts (c ∷ cs) (d ∷ ds) = if c == d then compare_texts cs ds else sign_of c d

next : (a : ℕ) → a + 1 < word_mod → (a + 1) % word_mod ≡ a + 1
next a h = omega arith

-- For texts at p and q, with more fuel than the first has characters, strcmp compares them by the
-- first place where they differ, an end being less than any character.
strcmp_lem :
    (m : ℕ → ℕ) (p q : ℕ) (cs ds : List ℕ) (fuel : ℕ)
    → IsText m p cs
    → IsText m q ds
    → length cs < fuel
    → strcmp fuel p q m ≡ some (compare_texts cs ds)
unfolding strcmp
strcmp_lem m p q cs ds zero s t h = absurd (omega arith)
strcmp_lem m p q [] [] (suc k) s t h = rw (s, t)
strcmp_lem m p q [] (d ∷ ds) (suc k) s (t, o, _, _) h =
    let l : ltb 0 d ≡ true = ground arith in rw (s, t, l)
strcmp_lem m p q (c ∷ cs) [] (suc k) (s, o, _, _) t h =
    let l : ltb c 0 ≡ false = ground arith in
    let g : ltb 0 c ≡ true = ground arith in
    let e : (c == 0) ≡ false = ground arith in rw (s, t, e, l, g)
strcmp_lem m p q (c ∷ cs) (d ∷ ds) (suc k) (s, o, b, u) (t, o', b', v) h =
    let e : (c == 0) ≡ false = ground arith in
    rw (s, t, e, next p b, next q b', strcmp_lem m (p + 1) (q + 1) cs ds k u v (omega arith))
      (either (c == d))
  where
    either :
        (x : Bool)
        → (if x then some (compare_texts cs ds) else some (sign_of c d))
          ≡ some (if x then compare_texts cs ds else sign_of c d)
    either true = refl
    either false = refl

count_chars_lem :
    (m : ℕ → ℕ) (n a : ℕ) (cs : List ℕ) (fuel : ℕ)
    → IsText m a cs
    → length cs < fuel
    → count_chars fuel n a m ≡ some (n + length cs)
unfolding count_chars
count_chars_lem m n a cs zero s h = absurd (omega arith)
count_chars_lem m n a [] (suc k) s h = let e : n ≡ n + 0 = omega arith in rw s (ap some e)
count_chars_lem m n a (c ∷ cs) (suc k) (s, o, b, u) h =
    let e : (c == 0) ≡ false = ground arith in
    let p : n + 1 + length cs ≡ n + suc (length cs) = omega arith in
    rw (s, e, next a b) (count_chars_lem m (n + 1) (a + 1) cs k u (omega arith) ∙ ap some p)

-- For a text at a, with more fuel than it has characters, strlen counts them.
strlen_lem :
    (m : ℕ → ℕ) (a : ℕ) (cs : List ℕ) (fuel : ℕ)
    → IsText m a cs
    → length cs < fuel
    → strlen fuel a m ≡ some (length cs)
unfolding strlen
strlen_lem m a cs fuel s h =
    let e : 0 + length cs ≡ length cs = omega arith in count_chars_lem m 0 a cs fuel s h ∙ ap some e

-- The address of the first c in a text at a, or 0.
abbrev pub first_place : ℕ → ℕ → List ℕ → ℕ
first_place a c [] = 0
first_place a c (d ∷ ds) = if d == c then a else first_place (a + 1) c ds

-- For a text at a, with more fuel than it has characters, strchr gives the address of the first c
-- in the text, or 0 where there is none.
strchr_lem :
    (m : ℕ → ℕ) (a c : ℕ) (cs : List ℕ) (fuel : ℕ)
    → IsText m a cs
    → length cs < fuel
    → strchr fuel a c m ≡ some (first_place a c cs)
unfolding strchr
strchr_lem m a c cs zero s h = absurd (omega arith)
strchr_lem m a c [] (suc k) s h = rw s
strchr_lem m a c (d ∷ ds) (suc k) (s, o, b, u) h =
    let e : (d == 0) ≡ false = ground arith in
    rw (s, e, next a b, strchr_lem m (a + 1) c ds k u (omega arith)) (either (d == c))
  where
    either :
        (x : Bool)
        → (if x then some a else some (first_place (a + 1) c ds))
          ≡ some (if x then a else first_place (a + 1) c ds)
    either true = refl
    either false = refl

-- The memory with the text and its end at dst.
abbrev pub with_text : ℕ → List ℕ → (ℕ → ℕ) → ℕ → ℕ
with_text dst [] m = update m dst 0
with_text dst (c ∷ cs) m = with_text (dst + 1) cs (update m dst c)

off : (m : ℕ → ℕ) (a x v : ℕ) → x ≢ a → update m x v a ≡ m a
off m a x v o = ground arith

-- A text that lies off an address survives a store there.
IsText-kept :
    (m : ℕ → ℕ) (a : ℕ) (cs : List ℕ) (x v : ℕ)
    → IsText m a cs
    → (x < a) ⊎ (a + length cs < x)
    → IsText (update m x v) a cs
IsText-kept m a [] x v s o = off m a x v (ground arith) ∙ s
IsText-kept m a (c ∷ cs) x v (s, p, b, u) o =
    (off m a x v (ground arith) ∙ s, p, b, IsText-kept m (a + 1) cs x v u (ground arith))

-- From a text to an area that is apart from it and within the address space, strcpy, with more fuel
-- than the text has characters, stores the text and its end and nothing else.
strcpy_lem :
    (m : ℕ → ℕ) (dst src : ℕ) (cs : List ℕ) (fuel : ℕ)
    → IsText m src cs
    → dst + length cs < word_mod
    → (dst + length cs < src) ⊎ (src + length cs < dst)
    → length cs < fuel
    → strcpy fuel dst src m ≡ some (with_text dst cs m)
unfolding strcpy
strcpy_lem m dst src cs zero s b o h = absurd (omega arith)
strcpy_lem m dst src [] (suc k) s b o h = rw s
strcpy_lem m dst src (c ∷ cs) (suc k) (s, p, l, u) b o h =
    let e : (c == 0) ≡ false = ground arith in
    rw (s, e, next src l, next dst (omega arith))
      (strcpy_lem (update m dst c) (dst + 1) (src + 1) cs k
        (IsText-kept m (src + 1) cs dst c u (ground arith)) (omega arith) (ground arith)
        (omega arith))

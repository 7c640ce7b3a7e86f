-- ===== src/Fs/Bitmap.antt =====
-- fs/fs.c: the bitmap in the cache as a set of free blocks.
use native.Mathlib.Decide.{ℕ_discrete, dec_lt}
use run_mos_on_risc_v.Prelude.{
  ℕ, ◌+◌, ◌*◌, ◌/◌, ◌%◌, ◌^◌, ◌≤◌, ◌<◌, ◌≡◌, sym, ap, ◌∙◌, Bool, true, false, not, arith, ◌==◌, ltb,
  leb, ◌&&◌, if◌then◌else◌, inl, inr, Bool-cases, update,
}
use run_mos_on_risc_v.Prelude.Bits.{
  test_bit, set_bit, clear_bit, test_bit-set_bit, test_bit-clear_bit, set_bit-bound,
  clear_bit-bound,
}
use run_mos_on_risc_v.Prelude.Proc.{Run, ok, pure, and_then, ◌>>=◌}
use run_mos_on_risc_v.Bytes.{
  load_word, store_word, load_word-store_word_self, load_word-store_word_other,
}
use run_mos_on_risc_v.Fs.Cache.{
  Server, vpn, diskaddr, load, store, s_nblocks, bit_of, block_is_free,
}
use run_mos_on_risc_v.Fs.Blocks.{change_bits, free_block}

-- A server whose super block and bitmap are in the cache, for a disk of n blocks.
pub record IsMounted (n : ℕ) (s : Server) : Type 0 where
  pub super_is : s.super ≡ diskaddr 1
  pub bitmap_is : s.bitmap ≡ diskaddr 2
  pub small : n ≤ 0x4_0000
  pub super_page : s.mapped 0x1_0001 ≡ true
  pub bitmap_pages : (i : ℕ) → i ≤ n / 32768 → s.mapped (0x1_0002 + i) ≡ true
  pub count : load_word s.mem 0x1000_1004 ≡ n
  pub bytes : (a : ℕ) → s.mem a < 256

-- The place of the word of the bitmap that holds block b, and its bit.
abbrev pub word_of : ℕ → ℕ
word_of b = 0x1000_2000 + 4 * (b / 32)

abbrev pub is_free : Server → ℕ → Bool
is_free s b = test_bit (load_word s.mem (word_of b)) (b % 32)

-- The server with the word of block b changed.
abbrev pub marked : ℕ → (ℕ → ℕ) → Server → Server
marked b f s = record s {
  mem = store_word (word_of b) (f (load_word s.mem (word_of b))) s.mem;
  dirty = update s.dirty (vpn (word_of b)) true;
}

word_page : (b : ℕ) → vpn (word_of b) ≡ 0x1_0002 + b / 32768
word_page b = omega arith

word-IsMapped : (n b : ℕ) (s : Server) → IsMounted n s → b < n → s.mapped (vpn (word_of b)) ≡ true
word-IsMapped n b s m h = ap (s.mapped) (word_page b) ∙ m.bitmap_pages (b / 32768) (omega arith)

pub load_at :
    (a p : ℕ) (s : Server) → p ≡ a → s.mapped (vpn a) ≡ true → load p s ≡ ok (load_word s.mem a) s
unfolding load
load_at a p s e t = rw (e, t)

pub store_at :
    (a p v : ℕ) (s : Server)
    → p ≡ a
    → s.mapped (vpn a) ≡ true
    → store p v s
      ≡ ok tt (record s { mem = store_word a v s.mem; dirty = update s.dirty (vpn a) true })
unfolding store
store_at a p v s e t = rw (e, t)

pub s_nblocks_lem : (n : ℕ) (s : Server) → IsMounted n s → s_nblocks s ≡ ok n s
unfolding s_nblocks
s_nblocks_lem n s m =
    load_at 0x1000_1004 (s.super + 4) s (ap (λ p. p + 4) m.super_is) m.super_page
    ∙ ap (λ k. ok k s) m.count

pub bit_of_lem : (n b : ℕ) (s : Server) → IsMounted n s → b < n → bit_of b s ≡ ok (is_free s b) s
unfolding bit_of
bit_of_lem n b s m h =
    ap (λ r. and_then r (λ w. pure (test_bit w (b % 32))))
      (load_at (word_of b) (s.bitmap + 4 * (b / 32)) s (ap (λ p. p + 4 * (b / 32)) m.bitmap_is)
        (word-IsMapped n b s m h))

ptr_tests : (p : ℕ) → p ≡ diskaddr 1 → (p == 0) ≡ false
ptr_tests p e = rw e

-- In a mounted file system block_is_free answers by the bitmap below the number of blocks, and not free
-- from there on; it changes nothing.
pub block_is_free_lem :
    (n b : ℕ) (s : Server) → IsMounted n s → block_is_free b s ≡ ok (ltb b n && is_free s b) s
unfolding block_is_free
block_is_free_lem n b s m =
    ap
      (λ t.
        (if t then pure false else (do k ← s_nblocks; if leb k b then pure false else bit_of b)) s)
      (ptr_tests s.super m.super_is)
    ∙ ap (λ r. and_then r (λ k. if leb k b then pure false else bit_of b)) (s_nblocks_lem n s m)
    ∙ elim (dec_lt b n) [
      | yes h ↦
          let e : leb n b ≡ false = ground arith in
          let f : ltb b n ≡ true = ground arith in rw (e, f) (bit_of_lem n b s m h)
      | no h ↦
          let e : leb n b ≡ true = ground arith in
          let f : ltb b n ≡ false = ground arith in rw (e, f)
    ]

-- What a change of block b's bit does to the bits of all blocks: v is the new bit.
module _ (f : ℕ → ℕ) (b : ℕ) (v : Bool)
    (bits : (w j : ℕ) → test_bit (f w) j ≡ (if b % 32 == j then v else test_bit w j))
    (fits : (w : ℕ) → w < 2 ^ 32 → f w < 2 ^ 32) where
  load_word-bound : (m : ℕ → ℕ) (a : ℕ) → ((x : ℕ) → m x < 256) → load_word m a < 2 ^ 32
  unfolding load_word
  load_word-bound m a h = omega (arith, h a, h (a + 1), h (a + 2), h (a + 3))

  pub is_free-marked :
      (s : Server) (c : ℕ)
      → ((x : ℕ) → s.mem x < 256)
      → is_free (marked b f s) c ≡ (if b == c then v else is_free s c)
  is_free-marked s c h = elim (ℕ_discrete (b / 32) (c / 32)) [
    | yes e ↦
        let w : word_of c ≡ word_of b = omega arith in
        let t : (b % 32 == c % 32) ≡ (b == c) = ground arith in
        ap (λ a. test_bit (load_word (marked b f s).mem a) (c % 32)) w
        ∙ ap (λ k. test_bit k (c % 32))
            (load_word-store_word_self s.mem (word_of b) (f (load_word s.mem (word_of b)))
              (fits (load_word s.mem (word_of b)) (load_word-bound s.mem (word_of b) h)))
        ∙ bits (load_word s.mem (word_of b)) (c % 32)
        ∙ ap (λ x. if x then v else test_bit (load_word s.mem (word_of b)) (c % 32)) t
        ∙ ap (λ a. if b == c then v else test_bit (load_word s.mem a) (c % 32)) (sym w)
    | no n ↦
        let t : (b == c) ≡ false = ground arith in
        ap (λ k. test_bit k (c % 32))
          (load_word-store_word_other s.mem (word_of b) (f (load_word s.mem (word_of b)))
            (word_of c) (ground arith))
        ∙ ap (λ x. if x then v else is_free s c) (sym t)
  ]

pub store_word-bytes : (m : ℕ → ℕ) (a v x : ℕ) → ((y : ℕ) → m y < 256) → store_word a v m x < 256
unfolding store_word
store_word-bytes m a v x h = let k : m x < 256 = h x in ground arith

pub marked-IsMounted :
    (n b : ℕ) (f : ℕ → ℕ) (s : Server) → IsMounted n s → IsMounted n (marked b f s)
marked-IsMounted n b f s m = record {
  super_is = m.super_is;
  bitmap_is = m.bitmap_is;
  small = m.small;
  super_page = m.super_page;
  bitmap_pages = m.bitmap_pages;
  count =
      load_word-store_word_other s.mem (word_of b) (f (load_word s.mem (word_of b))) 0x1000_1004
        (inl (omega arith))
      ∙ m.count;
  bytes = λ a. store_word-bytes s.mem (word_of b) (f (load_word s.mem (word_of b))) a m.bytes;
}

pub change_bits_lem :
    (n b : ℕ) (f : ℕ → ℕ) (s : Server)
    → IsMounted n s
    → b < n
    → change_bits b f s ≡ ok tt (marked b f s)
unfolding change_bits
change_bits_lem n b f s m h =
    let e : s.bitmap + 4 * (b / 32) ≡ word_of b = ap (λ p. p + 4 * (b / 32)) m.bitmap_is in
    let t : s.mapped (vpn (word_of b)) ≡ true = word-IsMapped n b s m h in
    ap (λ r. and_then r (λ w. store (s.bitmap + 4 * (b / 32)) (f w)))
      (load_at (word_of b) (s.bitmap + 4 * (b / 32)) s e t)
    ∙ store_at (word_of b) (s.bitmap + 4 * (b / 32)) (f (load_word s.mem (word_of b))) s e t

abbrev pub give : ℕ → ℕ → ℕ
give b w = set_bit w (b % 32)

abbrev pub take : ℕ → ℕ → ℕ
take b w = clear_bit w (b % 32)

pub is_free-given :
    (b : ℕ) (s : Server) (c : ℕ)
    → ((x : ℕ) → s.mem x < 256)
    → is_free (marked b (give b) s) c ≡ (if b == c then true else is_free s c)
is_free-given b =
    is_free-marked (give b) b true (λ w j. test_bit-set_bit w (b % 32) j)
      (λ w h. set_bit-bound 32 w (b % 32) h (omega arith))

pub is_free-taken :
    (b : ℕ) (s : Server) (c : ℕ)
    → ((x : ℕ) → s.mem x < 256)
    → is_free (marked b (take b) s) c ≡ (if b == c then false else is_free s c)
is_free-taken b =
    is_free-marked (take b) b false (λ w j. test_bit-clear_bit w (b % 32) j)
      (λ w h. clear_bit-bound 32 w (b % 32) h)

-- free_block on block b leaves the bits of exactly the blocks of which `free_after` holds.
abbrev pub free_after : ℕ → ℕ → Server → ℕ → Bool
free_after n b s c = if b == c && not (b == 0) && ltb b n then true else is_free s c

abbrev pub Freed : ℕ → ℕ → Server → Type 0
Freed n b s =
    (s' : Server) × (free_block b s ≡ ok tt s')
    × IsMounted n s'
    × ((c : ℕ) → is_free s' c ≡ free_after n b s c)

-- In a mounted file system free_block succeeds and keeps it mounted: block b, if it is a block of the
-- disk but not block 0, is free then, and no other bit changes.
pub free_block-Freed : (n b : ℕ) (s : Server) → IsMounted n s → Freed n b s
unfolding free_block
free_block-Freed n b s m = elim (Bool-cases (b == 0)) [
  | inl z ↦ (s, rw z, m, (λ c. rw z (ground arith)))
  | inr z ↦ elim (Bool-cases (leb n b)) [
    | inl l ↦ (s, rw z (counted ∙ rw l), m, (λ c. ground arith))
    | inr l ↦ (
      marked b (give b) s,
      rw z (counted ∙ rw l (change_bits_lem n b (give b) s m (ground arith))),
      marked-IsMounted n b (give b) s m,
      (λ c. is_free-given b s c m.bytes ∙ ground arith),
    )
  ]
]
  where
    step : ℕ → Server → Run Server (Unit {0})
    step k = if leb k b then pure tt else change_bits b (give b)

    counted : and_then (s_nblocks s) step ≡ step n s
    counted = ap (λ r. and_then r step) (s_nblocks_lem n s m)

-- ===== src/Fs/Alloc.antt =====
-- fs/fs.c: alloc_block_num takes the first free block and writes the bitmap to the disk.
use mathlib.Core.Path.{subst}
use native.Mathlib.Decide.{ℕ_discrete, dec_lt}
use run_mos_on_risc_v.Prelude.{
  ℕ, zero, suc, ◌+◌, ◌-◌, ◌*◌, ◌/◌, ◌≤◌, ◌<◌, ◌≡◌, ◌≢◌, ◌⊎◌, refl, sym, ap, ◌∙◌, Bool, true, false,
  arith, ◌==◌, ltb, leb, ◌&&◌, if◌then◌else◌, inl, inr, Bool-cases,
}
use run_mos_on_risc_v.Prelude.Proc.{Run, ok, err, pure, and_then, no_disk, ◌>>◌}
use run_mos_on_risc_v.Bytes.{store_word_other}
use run_mos_on_risc_v.Fs.Cache.{Server, vpn, diskaddr, write_block}
use run_mos_on_risc_v.Fs.Cache.Sectors.{disk_of, write_block_lem, copy_bytes_at, copy_bytes_off}
use run_mos_on_risc_v.Fs.Blocks.{change_bits, find_block, alloc_block_num}
use run_mos_on_risc_v.Fs.Bitmap.{
  IsMounted, is_free, word_of, marked, take, is_free-taken, marked-IsMounted, change_bits_lem,
  bit_of_lem, s_nblocks_lem,
}

-- The block of the disk that holds the bit of block b.
abbrev pub bitmap_block : ℕ → ℕ
bitmap_block b = b / 32768 + 2

-- From s to s', block b was taken: it alone is no longer free, the cache differs at most in its word of
-- the bitmap, and the disk only in that block of the bitmap, which is as cached.
pub record IsTaken (n b : ℕ) (s s' : Server) : Type 0 where
  pub below : b < n
  pub was_free : is_free s b ≡ true
  pub bits : (c : ℕ) → is_free s' c ≡ (if b == c then false else is_free s c)
  pub cache : (a : ℕ) → (a < word_of b) ⊎ (word_of b + 4 ≤ a) → s'.mem a ≡ s.mem a
  pub pages : s'.mapped ≡ s.mapped
  pub on_disk :
      (j : ℕ)
      → j < 4096
      → s'.disk (bitmap_block b * 4096 + j) ≡ s'.mem (diskaddr (bitmap_block b) + j)
  pub off_disk : (x : ℕ) → x / 4096 ≢ bitmap_block b → s'.disk x ≡ s.disk x
  pub mounted : IsMounted n s'

block-IsSmall : (n b : ℕ) (s : Server) → IsMounted n s → b < n → bitmap_block b < 0x4_0000
block-IsSmall n b s m h = omega (arith, m.small)

abbrev taken : (n b : ℕ) (s : Server) → IsMounted n s → b < n → Server
taken n b s m h =
    let t : Server = marked b (take b) s in
    record t { disk = disk_of (bitmap_block b) (block-IsSmall n b s m h) t }

take-IsTaken :
    (n b : ℕ) (s : Server) (m : IsMounted n s) (h : b < n)
    → is_free s b ≡ true
    → IsTaken n b s (taken n b s m h)
take-IsTaken n b s m h f =
    let t : Server = marked b (take b) s in
    let mt : IsMounted n t = marked-IsMounted n b (take b) s m in
    record {
      below = h;
      was_free = f;
      bits = λ c. is_free-taken b s c m.bytes;
      cache = λ a o. store_word_other s.mem (word_of b) _ a o;
      pages = refl;
      on_disk = λ j l.
          copy_bytes_at (bitmap_block b * 4096) 4096 (λ j. t.mem (diskaddr (bitmap_block b) + j))
            s.disk j l;
      off_disk = λ x o.
          copy_bytes_off (bitmap_block b * 4096) 4096 (λ j. t.mem (diskaddr (bitmap_block b) + j))
            s.disk x (outside (bitmap_block b) x o);
      mounted = record {
        super_is = mt.super_is;
        bitmap_is = mt.bitmap_is;
        small = mt.small;
        super_page = mt.super_page;
        bitmap_pages = mt.bitmap_pages;
        count = mt.count;
        bytes = mt.bytes;
      };
    }
  where
    outside : (k x : ℕ) → x / 4096 ≢ k → (leb (k * 4096) x && ltb x (k * 4096 + 4096)) ≡ false
    outside k x o = ground arith

block-IsMapped :
    (n b : ℕ) (s : Server)
    → IsMounted n s
    → b < n
    → s.mapped (vpn (diskaddr (bitmap_block b))) ≡ true
block-IsMapped n b s m h =
    let e : vpn (diskaddr (bitmap_block b)) ≡ 0x1_0002 + b / 32768 = omega (arith, m.small) in
    ap (s.mapped) e ∙ m.bitmap_pages (b / 32768) (omega arith)

take_lem :
    (n b : ℕ) (s : Server) (m : IsMounted n s) (h : b < n)
    → (do change_bits b (take b); write_block (bitmap_block b); pure b) s ≡ ok b (taken n b s m h)
take_lem n b s m h =
    ap (λ r. and_then r (λ _. write_block (bitmap_block b) >> pure b))
      (change_bits_lem n b (take b) s m h)
    ∙ ap (λ r. and_then r (λ _. pure b))
        (write_block_lem (bitmap_block b) (block-IsSmall n b s m h) (marked b (take b) s)
          (block-IsMapped n b s m h))

-- The first free block from i among k, taken, or none.
pub data Found (n i k : ℕ) (s : Server) : Run Server ℕ → Type 0 where
  hit :
      (b : ℕ) (s' : Server)
      → i ≤ b
      → IsTaken n b s s'
      → ((c : ℕ) → i ≤ c → c < b → is_free s c ≡ false)
      → Found n i k s (ok b s')
  miss : ((c : ℕ) → i ≤ c → c < i + k → is_free s c ≡ false) → Found n i k s (err no_disk s)

beyond :
    (i : ℕ) (s : Server) (c : ℕ)
    → is_free s i ≡ false
    → i ≤ c
    → (i + 1 ≤ c → is_free s c ≡ false)
    → is_free s c ≡ false
beyond i s c u lo f = elim (ℕ_discrete i c) [
  | yes e ↦ ap (is_free s) (sym e) ∙ u
  | no n ↦ f (omega arith)
]

Found-beyond :
    (n i k : ℕ) (s : Server) (r : Run Server ℕ)
    → is_free s i ≡ false
    → Found n (i + 1) k s r
    → Found n i (suc k) s r
Found-beyond n i k s _ u (hit b s' lo t first) =
    hit b s' (omega arith) t (λ c a h. beyond i s c u a (λ l. first c l h))
Found-beyond n i k s _ u (miss f) = miss (λ c a h. beyond i s c u a (λ l. f c l (omega arith)))

find_block-Found :
    (n i k : ℕ) (s : Server) → IsMounted n s → i + k ≤ n → Found n i k s (find_block k i s)
unfolding find_block
find_block-Found n i zero s m h = miss (λ c a l. absurd (omega arith))
find_block-Found n i (suc k) s m h =
    let at : find_block (suc k) i s ≡ step (is_free s i) =
      ap (λ r. and_then r chosen) (bit_of_lem n i s m (omega arith)) in
    subst (Found n i (suc k) s) (sym at) (elim (Bool-cases (is_free s i)) [
      | inl f ↦
          rw (f, take_lem n i s m (omega arith))
            (hit i (taken n i s m (omega arith)) (omega arith)
              (take-IsTaken n i s m (omega arith) f) (λ c a l. absurd (omega arith)))
      | inr f ↦ rw f (
          Found-beyond n i k s (find_block k (i + 1) s) f
            (find_block-Found n (i + 1) k s m (omega arith)))
    ])
  where
    chosen : Bool → Server → Run Server ℕ
    chosen free =
        if free
        then (do change_bits i (take i); write_block (bitmap_block i); pure i)
        else find_block k (i + 1)

    step : Bool → Run Server ℕ
    step free = chosen free s

-- In a mounted file system of n blocks alloc_block_num takes the least free block from 3 on: its bit is
-- cleared in the cache, the block of the bitmap is written to the disk, and no other byte changes; it
-- fails, without a change, exactly when no block from 3 on is free.
pub alloc_block_num-Found :
    (n : ℕ) (s : Server) → IsMounted n s → Found n 3 (n - 3) s (alloc_block_num s)
unfolding alloc_block_num
alloc_block_num-Found n s m =
    subst (Found n 3 (n - 3) s)
      (sym (ap (λ r. and_then r (λ k. find_block (k - 3) 3)) (s_nblocks_lem n s m)))
      (elim (dec_lt n 3) [
        | yes l ↦ rw (few l) (none_there l)
        | no l ↦ find_block-Found n 3 (n - 3) s m (omega arith)
      ])
  where
    few : n < 3 → n - 3 ≡ 0
    few l = omega arith

    none_there : n < 3 → Found n 3 0 s (find_block 0 3 s)
    none_there l = miss (λ c a h. absurd (omega arith))

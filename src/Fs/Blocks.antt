-- ===== src/Fs/Blocks.antt =====
-- fs/fs.c: the bitmap of free blocks, the super block, and the start of the file system.
use run_mos_on_risc_v.Prelude.{
  ℕ, zero, suc, ◌+◌, ◌-◌, ◌*◌, ◌/◌, ◌%◌, Bool, true, false, ◌&&◌, not, List, [], ◌∷◌, leb, ◌==◌,
  if◌then◌else◌, update,
}
use run_mos_on_risc_v.Prelude.Bits.{set_bit, clear_bit}
use run_mos_on_risc_v.Prelude.Proc.{
  Run, ok, err, left, panic, wild, Proc, pure, fail, assert, get, modify, no_error, ignored, ◌>>=◌,
  ◌>>◌, no_disk,
}
use run_mos_on_risc_v.Bytes.{copy_bytes}
use run_mos_on_risc_v.Fs.Cache.{
  Server, load, store, load_byte, store_byte, vpn, by2blk, bit2blk, diskaddr, block_is_mapped,
  block_is_free, write_block, read_block, map_block, mem_unmap, s_nblocks, bit_of,
}

-- bitmap[blockno / 32] = f(bitmap[blockno / 32])
unfoldable pub change_bits : ℕ → (ℕ → ℕ) → Proc Server (Unit {0})
unfolding load store
change_bits blockno f = do
  p ← get (λ (s : Server). s.bitmap)
  w ← load (p + 4 * (blockno / 32))
  store (p + 4 * (blockno / 32)) (f w)

unfoldable pub free_block : ℕ → Proc Server (Unit {0})
unfolding s_nblocks change_bits
free_block blockno = if blockno == 0 then pure tt else (do
  n ← s_nblocks
  if leb n blockno then pure tt else change_bits blockno (λ w. set_bit w (blockno % 32)))

-- The loop of alloc_block_num over n blocks from blockno.
unfoldable pub find_block : ℕ → ℕ → Proc Server ℕ
unfolding bit_of change_bits write_block
find_block zero blockno = fail no_disk
find_block (suc n) blockno = do
  free ← bit_of blockno
  if free
      then (do
        change_bits blockno (λ w. clear_bit w (blockno % 32))
        write_block (blockno / bit2blk + 2)
        pure blockno)
      else find_block n (blockno + 1)

unfoldable pub alloc_block_num : Proc Server ℕ
unfolding s_nblocks find_block
alloc_block_num = do n ← s_nblocks; find_block (n - 3) 3

-- What follows map_block in alloc_block: on an error the block is given back.
unfoldable pub or_free : ℕ → Run Server (Unit {0}) → Run Server ℕ
unfolding free_block
or_free bno (ok u s) = ok bno s
or_free bno (err e s) = (do free_block bno; fail e) s
or_free bno (left s) = left s
or_free bno panic = panic
or_free bno wild = wild

unfoldable pub alloc_block : Proc Server ℕ
unfolding alloc_block_num map_block or_free
alloc_block = do bno ← alloc_block_num; (λ s. or_free bno (map_block bno s))

-- FS_MAGIC, and DISKMAX / BY2BLK
abbrev pub fs_magic : ℕ
fs_magic = 0x6828_6097

abbrev pub max_blocks : ℕ
max_blocks = 0x4_0000

unfoldable pub read_super : Proc Server (Unit {0})
unfolding read_block load s_nblocks
read_super = do
  blk ← (λ s. no_error (read_block 1 s))
  modify (λ s. record s { super = blk })
  magic ← load blk
  assert (magic == fs_magic)
  n ← s_nblocks
  assert (leb n max_blocks)

-- The first loop of read_bitmap over n blocks from i, and the last.
unfoldable pub read_blocks : ℕ → ℕ → Proc Server (Unit {0})
unfolding read_block
read_blocks zero i = pure tt
read_blocks (suc n) i = do (λ s. ignored (read_block (i + 2) s)); read_blocks n (i + 1)

unfoldable pub assert_used : ℕ → ℕ → Proc Server (Unit {0})
unfolding block_is_free
assert_used zero i = pure tt
assert_used (suc n) i = do free ← block_is_free (i + 2); assert (not free); assert_used n (i + 1)

unfoldable pub read_bitmap : Proc Server (Unit {0})
unfolding s_nblocks read_blocks block_is_free assert_used
read_bitmap = do
  n ← s_nblocks
  read_blocks (n / bit2blk + 1) 0
  modify (λ s. record s { bitmap = diskaddr 2 })
  free0 ← block_is_free 0
  assert (not free0)
  free1 ← block_is_free 1
  assert (not free1)
  assert_used (n / bit2blk + 1) 0

-- memcpy(dst, src, BY2PG) between two pages, and strcpy of a text whose bytes are given
unfoldable pub copy_page : ℕ → ℕ → Proc Server (Unit {0})
copy_page dst src s =
    if s.mapped (vpn dst) && s.mapped (vpn src)
    then ok tt (record s {
      mem = copy_bytes dst by2blk (λ j. s.mem (src + j)) s.mem;
      dirty = update s.dirty (vpn dst) true;
    })
    else wild

unfoldable pub store_text : ℕ → List ℕ → Proc Server (Unit {0})
unfolding store_byte
store_text a [] = store_byte a 0
store_text a (c ∷ cs) = do store_byte a c; store_text (a + 1) cs

-- strcmp(s, text) == 0, for a text without the byte 0
unfoldable pub same_text : ℕ → List ℕ → Proc Server Bool
unfolding load_byte
same_text a [] = do b ← load_byte a; pure (b == 0)
same_text a (c ∷ cs) = do b ← load_byte a; if b == c then same_text (a + 1) cs else pure false

-- "OOPS!\n"
abbrev pub oops : List ℕ
oops = b'O' ∷ b'O' ∷ b'P' ∷ b'S' ∷ b'!' ∷ 10 ∷ []

unfoldable pub check_write_block : Proc Server (Unit {0})
unfolding read_block copy_page store_text write_block mem_unmap same_text
check_write_block = do
  modify (λ (s : Server). record s { super = 0 })
  (λ s. ignored (read_block 0 s))
  copy_page (diskaddr 0) (diskaddr 1)
  store_text (diskaddr 1) oops
  write_block 1
  mapped ← get (λ s. block_is_mapped s 1)
  assert mapped
  (λ s. ignored (mem_unmap (diskaddr 1) s))
  still ← get (λ s. block_is_mapped s 1)
  assert (not still)
  (λ s. ignored (read_block 1 s))
  same ← same_text (diskaddr 1) oops
  assert same
  copy_page (diskaddr 1) (diskaddr 0)
  write_block 1
  modify (λ s. record s { super = diskaddr 1 })

unfoldable pub fs_init : Proc Server (Unit {0})
unfolding read_super check_write_block read_bitmap
fs_init = do read_super; check_write_block; read_bitmap

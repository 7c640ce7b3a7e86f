-- ===== src/Fs/Cache.antt =====
-- The block cache of fs/fs.c, and fs/ide.c: disk blocks in pages of the server's address space.
-- A load or store at an address of the cache whose page is not mapped has no meaning here (`wild`).
-- A store leaves the page dirty, as the MMU does.
pub mod Sectors
use run_mos_on_risc_v.Prelude.{
  ℕ, zero, suc, ◌+◌, ◌-◌, ◌*◌, ◌/◌, ◌%◌, Bool, true, false, ◌&&◌, ◌||◌, not, Option, none, some,
  List, [], ◌∷◌, ltb, leb, ◌==◌, if◌then◌else◌, update,
}
use run_mos_on_risc_v.Prelude.Bits.{test_bit}
use run_mos_on_risc_v.Prelude.Proc.{
  Run, ok, err, left, panic, wild, Proc, pure, fail, stop, assert, get, modify, ignored, ◌>>=◌,
  ◌>>◌, Error, inval, no_mem, not_found,
}
use run_mos_on_risc_v.Bytes.{load_word, store_word, copy_bytes}
use run_mos_on_risc_v.Mmu.{word_mod, by2pg, utemp, utop}
use run_mos_on_risc_v.Syscall.{is_illegal_va}

-- The server: the bytes of its address space, which of its pages are mapped and which of those are
-- dirty, the bytes of the disk, the pointers `super` and `bitmap` of fs.c, and the kernel's answers to
-- the calls of syscall_mem_alloc to come (when they run out there is no memory).
pub record Server : Type 0 where
  pub mem : ℕ → ℕ
  pub mapped : ℕ → Bool
  pub dirty : ℕ → Bool
  pub disk : ℕ → ℕ
  pub super : ℕ
  pub bitmap : ℕ
  pub answers : List Bool

-- VPN
abbrev pub vpn : ℕ → ℕ
vpn va = va / 4096

-- BY2BLK, BIT2BLK, BY2SECT, SECT2BLK, DISKMAP
abbrev pub by2blk : ℕ
by2blk = 4096

abbrev pub bit2blk : ℕ
bit2blk = 32768

abbrev pub by2sect : ℕ
by2sect = 512

abbrev pub sect2blk : ℕ
sect2blk = 8

abbrev pub diskmap : ℕ
diskmap = 0x1000_0000

unfoldable pub load : ℕ → Proc Server ℕ
load a s = if s.mapped (vpn a) then ok (load_word s.mem a) s else wild

unfoldable pub store : ℕ → ℕ → Proc Server (Unit {0})
store a v s =
    if s.mapped (vpn a)
    then ok tt (record s { mem = store_word a v s.mem; dirty = update s.dirty (vpn a) true })
    else wild

unfoldable pub load_byte : ℕ → Proc Server ℕ
load_byte a s = if s.mapped (vpn a) then ok (s.mem a) s else wild

unfoldable pub store_byte : ℕ → ℕ → Proc Server (Unit {0})
store_byte a v s =
    if s.mapped (vpn a)
    then ok tt (record s { mem = update s.mem a (v % 256); dirty = update s.dirty (vpn a) true })
    else wild

-- A page of zeros at va, clean.
abbrev pub with_page : ℕ → Server → Server
with_page va s = record s {
  mem = copy_bytes (vpn va * 4096) by2pg (λ _. 0) s.mem;
  mapped = update s.mapped (vpn va) true;
  dirty = update s.dirty (vpn va) false;
}

answer : ℕ → List Bool → Proc Server (Unit {0})
answer va [] s = err no_mem s
answer va (true ∷ rest) s = ok tt (with_page va (record s { answers = rest }))
answer va (false ∷ rest) s = err no_mem (record s { answers = rest })

-- syscall_mem_alloc(0, va, PTE_W)
unfoldable pub mem_alloc : ℕ → Proc Server (Unit {0})
unfolding answer
mem_alloc va s = if is_illegal_va va then err inval s else answer va s.answers s

-- syscall_mem_map(0, va, 0, va, PTE_W | PTE_DIRTY)
unfoldable pub map_dirty : ℕ → Proc Server (Unit {0})
map_dirty va s =
    if is_illegal_va va
    then err inval s
    else if s.mapped (vpn va)
    then ok tt (record s { dirty = update s.dirty (vpn va) true })
    else err inval s

-- syscall_mem_unmap(0, va)
unfoldable pub mem_unmap : ℕ → Proc Server (Unit {0})
mem_unmap va s =
    if is_illegal_va va
    then err inval s
    else ok tt (record s {
      mapped = update s.mapped (vpn va) false;
      dirty = update s.dirty (vpn va) false;
    })

-- A round of ide_read and of ide_write: the device has carried out the request on the sector.
unfoldable pub read_sector : ℕ → ℕ → Proc Server (Unit {0})
read_sector sector dst s =
    if s.mapped (vpn dst)
    then ok tt (record s {
      mem = copy_bytes dst by2sect (λ j. s.disk (sector * by2sect + j)) s.mem;
      dirty = update s.dirty (vpn dst) true;
    })
    else wild

unfoldable pub write_sector : ℕ → ℕ → Proc Server (Unit {0})
write_sector sector src s =
    if s.mapped (vpn src)
    then ok tt
        (record s { disk = copy_bytes (sector * by2sect) by2sect (λ j. s.mem (src + j)) s.disk })
    else wild

-- The loop of ide_read and of ide_write from the offset off, with n sectors to go.
unfoldable pub each_sector :
    (ℕ → ℕ → Proc Server (Unit {0})) → ℕ → ℕ → ℕ → ℕ → Proc Server (Unit {0})
each_sector io zero secno off va = pure tt
each_sector io (suc n) secno off va = do
  io ((secno + off / by2sect) % word_mod) (va + off)
  each_sector io n secno (off + by2sect) va

-- begin + off < end holds for each of the nsecs offsets, or, where `end` wraps around, for none.
abbrev pub rounds : ℕ → ℕ → ℕ
rounds secno nsecs =
    let begin = secno * by2sect % word_mod in
    if ltb begin ((begin + nsecs * by2sect) % word_mod) then nsecs else 0

unfoldable pub ide_read : ℕ → ℕ → ℕ → Proc Server (Unit {0})
unfolding each_sector read_sector
ide_read secno dst nsecs = each_sector read_sector (rounds secno nsecs) secno 0 dst

unfoldable pub ide_write : ℕ → ℕ → ℕ → Proc Server (Unit {0})
unfolding each_sector write_sector
ide_write secno src nsecs = each_sector write_sector (rounds secno nsecs) secno 0 src

abbrev pub diskaddr : ℕ → ℕ
diskaddr blockno = (diskmap + blockno * by2blk) % word_mod

-- va_is_mapped and va_is_dirty, in the tables that the kernel shows
abbrev pub va_is_mapped : Server → ℕ → Bool
va_is_mapped s va = s.mapped (vpn va)

abbrev pub va_is_dirty : Server → ℕ → Bool
va_is_dirty s va = s.dirty (vpn va)

-- block_is_mapped, which returns diskaddr(blockno) or NULL
abbrev pub block_is_mapped : Server → ℕ → Bool
block_is_mapped s blockno = va_is_mapped s (diskaddr blockno)

abbrev pub block_is_dirty : Server → ℕ → Bool
block_is_dirty s blockno = va_is_mapped s (diskaddr blockno) && va_is_dirty s (diskaddr blockno)

unfoldable pub dirty_block : ℕ → Proc Server (Unit {0})
unfolding map_dirty
dirty_block blockno s =
    if not (va_is_mapped s (diskaddr blockno))
    then err not_found s
    else if va_is_dirty s (diskaddr blockno)
    then ok tt s
    else map_dirty (diskaddr blockno) s

unfoldable pub write_block : ℕ → Proc Server (Unit {0})
unfolding ide_write
write_block blockno = do
  mapped ← get (λ s. block_is_mapped s blockno)
  assert mapped
  ide_write (blockno * sect2blk % word_mod) (diskaddr blockno) sect2blk

-- super->s_nblocks
unfoldable pub s_nblocks : Proc Server ℕ
unfolding load
s_nblocks = do p ← get (λ (s : Server). s.super); load (p + 4)

-- bitmap[blockno / 32] & (1 << (blockno % 32))
unfoldable pub bit_of : ℕ → Proc Server Bool
unfolding load
bit_of blockno = do
  p ← get (λ (s : Server). s.bitmap)
  w ← load (p + 4 * (blockno / 32))
  pure (test_bit w (blockno % 32))

unfoldable pub block_is_free : ℕ → Proc Server Bool
unfolding s_nblocks bit_of
block_is_free blockno = do
  p ← get (λ (s : Server). s.super)
  if p == 0
      then pure false
      else (do n ← s_nblocks; if leb n blockno then pure false else bit_of blockno)

-- The two checks of read_block.
unfoldable pub check_block : ℕ → Proc Server (Unit {0})
unfolding s_nblocks block_is_free
check_block blockno = do
  p ← get (λ (s : Server). s.super)
  if p == 0 then pure tt else (do n ← s_nblocks; assert (not (leb n blockno)))
  b ← get (λ (s : Server). s.bitmap)
  if b == 0 then pure tt else (do free ← block_is_free blockno; assert (not free))

-- read_block, which gives the address of the block; nothing uses *isnew.
unfoldable pub read_block : ℕ → Proc Server ℕ
unfolding check_block mem_alloc ide_read
read_block blockno = do
  check_block blockno
  mapped ← get (λ s. block_is_mapped s blockno)
  if mapped then pure tt else (do
    (λ s. ignored (mem_alloc (diskaddr blockno) s))
    ide_read (blockno * sect2blk % word_mod) (diskaddr blockno) sect2blk)
  pure (diskaddr blockno)

unfoldable pub map_block : ℕ → Proc Server (Unit {0})
unfolding mem_alloc
map_block blockno = do
  mapped ← get (λ s. block_is_mapped s blockno)
  if mapped then pure tt else mem_alloc (diskaddr blockno)

unfoldable pub unmap_block : ℕ → Proc Server (Unit {0})
unfolding block_is_free write_block mem_unmap
unmap_block blockno = do
  mapped ← get (λ s. block_is_mapped s blockno)
  assert mapped
  free ← block_is_free blockno
  dirty ← get (λ s. block_is_dirty s blockno)
  if not free && dirty then write_block blockno else pure tt
  (λ s. ignored (mem_unmap (diskaddr blockno) s))
  still ← get (λ s. block_is_mapped s blockno)
  assert (not still)

-- ===== src/Fs/File.antt =====
-- fs/fs.c: the blocks of a file. A `struct File` is its address in the cache.
use run_mos_on_risc_v.Prelude.{
  ℕ, zero, suc, ◌+◌, ◌-◌, ◌*◌, ◌/◌, Bool, true, false, not, ltb, leb, ◌==◌, if◌then◌else◌,
}
use run_mos_on_risc_v.Prelude.Proc.{
  Run, ok, err, left, panic, wild, Proc, pure, fail, get, ignored, ◌>>=◌, ◌>>◌, inval, not_found,
}
use run_mos_on_risc_v.Fs.Cache.{
  Server, load, store, by2blk, block_is_dirty, dirty_block, write_block, read_block, s_nblocks,
}
use run_mos_on_risc_v.Fs.Blocks.{free_block, alloc_block}

-- The places of the fields of struct File; MAXNAMELEN is 128.
abbrev pub f_size : ℕ → ℕ
f_size f = f + 128

abbrev pub f_type : ℕ → ℕ
f_type f = f + 132

abbrev pub f_direct : ℕ → ℕ → ℕ
f_direct f i = f + 136 + 4 * i

abbrev pub f_indirect : ℕ → ℕ
f_indirect f = f + 176

abbrev pub f_dir : ℕ → ℕ
f_dir f = f + 180

-- NDIRECT and NINDIRECT
abbrev pub ndirect : ℕ
ndirect = 10

abbrev pub nindirect : ℕ
nindirect = 1024

-- The indirect block is there, or is allocated.
unfoldable pub need_indirect : ℕ → Bool → Proc Server (Unit {0})
unfolding load alloc_block store
need_indirect f alloc = do
  b ← load (f_indirect f)
  if not (b == 0)
      then pure tt
      else if not alloc
      then fail not_found
      else (do r ← alloc_block; store (f_indirect f) r)

-- file_block_walk, which gives *ppdiskbno
unfoldable pub file_block_walk : ℕ → ℕ → Bool → Proc Server ℕ
unfolding need_indirect load read_block
file_block_walk f filebno alloc =
    if ltb filebno ndirect
    then pure (f_direct f filebno)
    else if ltb filebno nindirect
    then (do
      need_indirect f alloc
      b ← load (f_indirect f)
      blk ← read_block b
      pure (blk + 4 * filebno))
    else fail inval

-- A slot that holds no block gets one.
unfoldable pub need_block : ℕ → Bool → Proc Server (Unit {0})
unfolding load alloc_block store
need_block ptr alloc = do
  b ← load ptr
  if not (b == 0)
      then pure tt
      else if not alloc
      then fail not_found
      else (do r ← alloc_block; store ptr r)

-- file_map_block, which gives *diskbno
unfoldable pub file_map_block : ℕ → ℕ → Bool → Proc Server ℕ
unfolding file_block_walk need_block load
file_map_block f filebno alloc = do
  ptr ← file_block_walk f filebno alloc
  need_block ptr alloc
  load ptr

unfoldable pub file_clear_block : ℕ → ℕ → Proc Server (Unit {0})
unfolding file_block_walk load free_block store
file_clear_block f filebno = do
  ptr ← file_block_walk f filebno false
  b ← load ptr
  if b == 0 then pure tt else (do free_block b; store ptr 0)

unfoldable pub file_get_block : ℕ → ℕ → Proc Server ℕ
unfolding file_map_block read_block
file_get_block f filebno = do diskbno ← file_map_block f filebno true; read_block diskbno

unfoldable pub file_dirty : ℕ → ℕ → Proc Server (Unit {0})
unfolding file_map_block dirty_block
file_dirty f offset = do diskbno ← file_map_block f (offset / by2blk) false; dirty_block diskbno

-- The loop of file_truncate over n blocks from bno; a block that is not there is passed over.
unfoldable pub clear_blocks : ℕ → ℕ → ℕ → Proc Server (Unit {0})
unfolding file_clear_block
clear_blocks zero f bno = pure tt
clear_blocks (suc n) f bno = do
  (λ s. ignored (file_clear_block f bno s))
  clear_blocks n f (bno + 1)

unfoldable pub drop_indirect : ℕ → Proc Server (Unit {0})
unfolding load free_block store
drop_indirect f = do
  b ← load (f_indirect f)
  if b == 0 then pure tt else (do free_block b; store (f_indirect f) 0)

-- new_nblocks
abbrev pub blocks_for : ℕ → ℕ
blocks_for newsize = if newsize == 0 then 0 else newsize / by2blk + 1

unfoldable pub file_truncate : ℕ → ℕ → Proc Server (Unit {0})
unfolding load clear_blocks drop_indirect store
file_truncate f newsize = do
  size ← load (f_size f)
  clear_blocks (size / by2blk + 1 - blocks_for newsize) f (blocks_for newsize)
  if leb (blocks_for newsize) ndirect then drop_indirect f else pure tt
  store (f_size f) newsize

-- A block of the loops of file_flush and fs_sync
unfoldable pub sync_block : ℕ → Proc Server (Unit {0})
unfolding write_block
sync_block blockno = do
  dirty ← get (λ s. block_is_dirty s blockno)
  if dirty then write_block blockno else pure tt

-- A block of file_flush: where there is none, `continue`.
unfoldable pub flush_found : Run Server ℕ → Run Server (Unit {0})
unfolding sync_block
flush_found (ok diskno s) = sync_block diskno s
flush_found (err e s) = ok tt s
flush_found (left s) = left s
flush_found panic = panic
flush_found wild = wild

-- The loop of file_flush over n blocks from bno.
unfoldable pub flush_blocks : ℕ → ℕ → ℕ → Proc Server (Unit {0})
unfolding file_map_block flush_found
flush_blocks zero f bno = pure tt
flush_blocks (suc n) f bno = do
  (λ s. flush_found (file_map_block f bno false s))
  flush_blocks n f (bno + 1)

unfoldable pub file_flush : ℕ → Proc Server (Unit {0})
unfolding load flush_blocks
file_flush f = do size ← load (f_size f); flush_blocks (size / by2blk + 1) f 0

-- if (f->f_dir) file_flush(f->f_dir)
unfoldable pub flush_dir : ℕ → Proc Server (Unit {0})
unfolding load file_flush
flush_dir f = do dir ← load (f_dir f); if dir == 0 then pure tt else file_flush dir

unfoldable pub file_set_size : ℕ → ℕ → Proc Server (Unit {0})
unfolding load file_truncate store flush_dir
file_set_size f newsize = do
  size ← load (f_size f)
  if ltb newsize size then file_truncate f newsize else pure tt
  store (f_size f) newsize
  flush_dir f

-- The loop of fs_sync over n blocks from i.
unfoldable pub sync_blocks : ℕ → ℕ → Proc Server (Unit {0})
unfolding sync_block
sync_blocks zero i = pure tt
sync_blocks (suc n) i = do sync_block i; sync_blocks n (i + 1)

unfoldable pub fs_sync : Proc Server (Unit {0})
unfolding s_nblocks sync_blocks
fs_sync = do n ← s_nblocks; sync_blocks n 0

unfoldable pub file_close : ℕ → Proc Server (Unit {0})
unfolding file_flush flush_dir
file_close f = do file_flush f; flush_dir f

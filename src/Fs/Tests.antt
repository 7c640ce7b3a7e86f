-- ===== src/Fs/Tests.antt =====
-- Runs of the file system server on a disk of sixteen blocks, of which the last twelve are free: the
-- root directory has one block, which is empty.
use run_mos_on_risc_v.Prelude.{
  ℕ, ◌≡◌, ◌≢◌, refl, true, false, ◌||◌, [], ◌∷◌, ◌==◌, if◌then◌else◌, arith,
}
use run_mos_on_risc_v.Prelude.Proc.{Run, Proc, ok, err, left, panic, wild, pure, ◌>>=◌, ◌>>◌}
use run_mos_on_risc_v.Bytes.{load_word, store_word, copy_bytes}
use run_mos_on_risc_v.Fs.Cache.{Server}
use run_mos_on_risc_v.Fs.Blocks.{fs_init, alloc_block_num}
use run_mos_on_risc_v.Fs.File.{file_get_block, file_map_block, fs_sync}
use run_mos_on_risc_v.Fs.Path.{
  file_create, file_open, element, dir_lookup, find_entry, find_name, lost, after_element,
  dir_alloc_file, alloc_entry, find_unused, walk, walk_path, skip_slash, endless,
}
use run_mos_on_risc_v.Fs.Bitmap.{
  IsMounted, Freed, free_block-Freed, s_nblocks_lem, store_word-bytes,
}
use run_mos_on_risc_v.Fs.Alloc.{Found, alloc_block_num-Found}
use run_mos_on_risc_v.Fs.Transfer.{IsData}
use run_mos_on_risc_v.Fs.Evict.{ComesBack, unmap_block-read_block}
use run_mos_on_risc_v.Fs.Slots.{IsFile, Mapped, file_map_block_lem}
use run_mos_on_risc_v.Fs.Walks.{walk_path-enough}
use run_mos_on_risc_v.Fs.Sync.{synced, fs_sync_lem}

abbrev blank : ℕ → ℕ
blank = store_word 4096 0x6828_6097 (
    store_word 4100 16 (
      store_word 4232 4096
        (store_word 4236 1 (store_word 4240 3 (store_word 8192 0xfff0 (λ _. 0))))))

abbrev started : Server
started = record {
  mem = λ _. 0;
  mapped = λ _. false;
  dirty = λ _. false;
  disk = blank;
  super = 0;
  bitmap = 0;
  answers = true ∷ true ∷ true ∷ true ∷ true ∷ true ∷ [];
}

-- The value that a run returns.
abbrev value : Run Server ℕ → ℕ
value (ok v s) = v
value (err e s) = 1
value (left s) = 2
value panic = 3
value wild = 4

abbrev script : Proc Server ℕ
script = do
  fs_init
  f ← file_create (b'/' ∷ b'a' ∷ [])
  g ← file_open (b'a' ∷ [])
  pure (if f == g then f else 0)

-- A file that was created is found again: it is the first of the root's block.
create_then_open : value (script started) ≡ 0x1000_3000
unfolding fs_init file_create file_open store_word load_word copy_bytes element dir_lookup
    find_entry file_get_block find_name lost after_element dir_alloc_file alloc_entry find_unused
create_then_open = refl

-- A mounted file system of sixteen blocks: block 3, the root's, is cached and dirty, and the blocks from 4
-- on are free.
abbrev cached : ℕ → ℕ
cached =
    store_word 0x1000_1004 16 (store_word 0x1000_1090 3 (store_word 0x1000_2000 0xfff0 (λ _. 0)))

abbrev mounted : Server
mounted = record {
  mem = cached;
  mapped = λ p. p == 0x1_0001 || p == 0x1_0002 || p == 0x1_0003;
  dirty = λ p. p == 0x1_0003;
  disk = blank;
  super = 0x1000_1000;
  bitmap = 0x1000_2000;
  answers = true ∷ [];
}

mounted-IsMounted : IsMounted 16 mounted
unfolding load_word store_word
mounted-IsMounted = record {
  super_is = refl;
  bitmap_is = refl;
  small = omega arith;
  super_page = refl;
  bitmap_pages = λ i l. ground arith;
  count = refl;
  bytes = λ a. store_word-bytes _ 0x1000_1004 16 a (λ b.
      store_word-bytes _ 0x1000_1090 3 b
        (λ c. store_word-bytes (λ _. 0) 0x1000_2000 0xfff0 c (λ d. omega arith)));
}

mounted-IsData : IsData 16 3 mounted
unfolding load_word store_word
mounted-IsData = record { below = omega arith; above = omega arith; used = refl; cached = refl }

root-IsFile : IsFile 16 0x1000_1008 mounted
unfolding load_word store_word
root-IsFile = record {
  direct_in_cache = λ i l. ground arith;
  indirect_in_cache = refl;
  below = λ n. elim (n refl) [ ];
  used = λ n. elim (n refl) [ ];
  cached = λ n. elim (n refl) [ ];
}

fs_sync_lem_example : fs_sync mounted ≡ ok tt (record mounted { disk = synced 16 0 mounted })
fs_sync_lem_example =
    fs_sync_lem mounted 16 (s_nblocks_lem 16 mounted mounted-IsMounted) (omega arith)

free_block-Freed_example : Freed 16 3 mounted
free_block-Freed_example = free_block-Freed 16 3 mounted mounted-IsMounted

alloc_block_num-Found_example : Found 16 3 13 mounted (alloc_block_num mounted)
alloc_block_num-Found_example = alloc_block_num-Found 16 mounted mounted-IsMounted

unmap_block-read_block_example : ComesBack 3 mounted
unmap_block-read_block_example =
    unmap_block-read_block 16 3 mounted [] mounted-IsMounted mounted-IsData (λ e. absurd (cc)) refl

file_map_block_lem_example :
    file_map_block 0x1000_1008 0 false mounted ≡ Mapped 0x1000_1008 0 mounted
file_map_block_lem_example =
    file_map_block_lem 16 0x1000_1008 0 mounted mounted-IsMounted root-IsFile

walk_path-enough_example :
    (walk_path (b'/' ∷ b'a' ∷ []) mounted ≢ ok endless mounted)
    × (walk_path (b'/' ∷ b'a' ∷ []) mounted
        ≡ walk 3 (skip_slash (b'/' ∷ b'a' ∷ [])) 0 0x1000_1008 mounted)
walk_path-enough_example = walk_path-enough 3 (b'/' ∷ b'a' ∷ []) mounted mounted (omega arith)

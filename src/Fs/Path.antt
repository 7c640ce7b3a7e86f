-- ===== src/Fs/Path.antt =====
-- fs/fs.c: directories and path names. A C string is the list of its characters before the byte 0.
use run_mos_on_risc_v.Prelude.{
  ℕ, zero, suc, ◌+◌, ◌/◌, ◌%◌, not, Option, none, some, List, [], ◌∷◌, leb, ◌==◌, if◌then◌else◌,
  length,
}
use run_mos_on_risc_v.Prelude.Proc.{
  Run, ok, err, left, panic, wild, Proc, pure, fail, stop, get, ◌>>=◌, ◌>>◌, Error, bad_path,
  file_exists, not_found,
}
use run_mos_on_risc_v.Mmu.{word_mod}
use run_mos_on_risc_v.Fs.Cache.{Server, load, store, load_byte, store_byte, by2blk}
use run_mos_on_risc_v.Fs.Blocks.{same_text, store_text}
use run_mos_on_risc_v.Fs.File.{
  f_size, f_type, f_dir, file_get_block, file_truncate, file_flush, flush_dir,
}

-- BY2FILE, FILE2BLK, MAXNAMELEN and FTYPE_DIR
abbrev pub by2file : ℕ
by2file = 256

abbrev pub file2blk : ℕ
file2blk = 16

abbrev pub maxnamelen : ℕ
maxnamelen = 128

abbrev pub ftype_dir : ℕ
ftype_dir = 1

-- The loop over the n files from f in a block of a directory.
unfoldable pub find_name : ℕ → ℕ → List ℕ → Proc Server (Option ℕ)
unfolding same_text
find_name zero f name = pure none
find_name (suc n) f name = do
  same ← same_text f name
  if same then pure (some f) else find_name n (f + by2file) name

-- The loop of dir_lookup over n blocks from i.
unfoldable pub find_entry : ℕ → ℕ → ℕ → List ℕ → Proc Server ℕ
find_entry zero i dir name = fail not_found
find_entry (suc n) i dir name = do
  blk ← file_get_block dir i
  found ← find_name file2blk blk name
  elim found [ some f ↦ do store (f_dir f) dir; pure f | none ↦ find_entry n (i + 1) dir name ]

unfoldable pub dir_lookup : ℕ → List ℕ → Proc Server ℕ
unfolding load
dir_lookup dir name = do size ← load (f_size dir); find_entry (size / by2blk) 0 dir name

-- The inner loop of dir_alloc_file over the n files from f.
unfoldable pub find_unused : ℕ → ℕ → Proc Server (Option ℕ)
unfolding load_byte
find_unused zero f = pure none
find_unused (suc n) f = do
  c ← load_byte f
  if c == 0 then pure (some f) else find_unused n (f + by2file)

-- dir_alloc_file, with n of its blocks to search from i.
unfoldable pub alloc_entry : ℕ → ℕ → ℕ → Proc Server ℕ
unfolding load store
alloc_entry zero i dir = do
  size ← load (f_size dir)
  store (f_size dir) ((size + by2blk) % word_mod)
  file_get_block dir i
alloc_entry (suc n) i dir = do
  blk ← file_get_block dir i
  found ← find_unused file2blk blk
  elim found [ some f ↦ pure f | none ↦ alloc_entry n (i + 1) dir ]

unfoldable pub dir_alloc_file : ℕ → Proc Server ℕ
unfolding load
dir_alloc_file dir = do size ← load (f_size dir); alloc_entry (size / by2blk) 0 dir

unfoldable pub skip_slash : List ℕ → List ℕ
skip_slash [] = []
skip_slash (c ∷ p) = if c == b'/' then skip_slash p else c ∷ p

-- The characters up to the next slash, and the rest from there.
unfoldable pub element : List ℕ → List ℕ
element [] = []
element (c ∷ p) = if c == b'/' then [] else c ∷ element p

unfoldable pub after_element : List ℕ → List ℕ
after_element [] = []
after_element (c ∷ p) = if c == b'/' then c ∷ p else after_element p

-- What walk_path gives where it does not fail with *pdir == 0: the file and its directory, 0 for the
-- root; or, beside -E_NOT_FOUND, the directory and the last element of the path. `endless` says that
-- the fuel of the loop was not enough.
pub data Walk : Type 0 where
  found : ℕ → ℕ → Walk
  missing : ℕ → List ℕ → Walk
  endless : Walk

-- A failed dir_lookup in walk_path: not to find the last element is no failure of the walk.
unfoldable pub lost : Error → ℕ → List ℕ → List ℕ → Proc Server Walk
lost not_found dir name [] = pure (missing dir name)
lost e dir name rest = fail e

-- The loop of walk_path on fuel: each round takes an element off the path.
unfoldable pub walk : ℕ → List ℕ → ℕ → ℕ → Proc Server Walk
walk zero path dir file = pure endless
walk (suc n) [] dir file = pure (found dir file)
walk (suc n) (c ∷ path) dir file = if leb maxnamelen (length name) then fail bad_path else (do
  type ← load (f_type file)
  if not (type == ftype_dir) then fail not_found else (λ s. elim (dir_lookup file name s) [
    | ok f t ↦ walk n rest file f t
    | err e t ↦ lost e file name rest t
    | left t ↦ left t
    | panic ↦ panic
    | wild ↦ wild
  ]))
  where
    name : List ℕ
    name = element (c ∷ path)

    rest : List ℕ
    rest = skip_slash (after_element (c ∷ path))

unfoldable pub walk_path : List ℕ → Proc Server Walk
unfolding walk skip_slash
walk_path path = do
  root ← get (λ (s : Server). s.super + 8)
  walk (suc (length path)) (skip_slash path) 0 root

-- A caller that wants the file only.
unfoldable pub file_of : Walk → Proc Server ℕ
file_of (found dir f) = pure f
file_of (missing dir name) = fail not_found
file_of endless = stop

unfoldable pub file_open : List ℕ → Proc Server ℕ
unfolding walk_path file_of
file_open path = do w ← walk_path path; file_of w

-- What follows dir_alloc_file in file_create: on an error -E_NOT_FOUND, which r still holds.
unfoldable pub or_missing : List ℕ → Run Server ℕ → Run Server ℕ
unfolding store_text
or_missing name (ok f s) = (do store_text f name; pure f) s
or_missing name (err e s) = err not_found s
or_missing name (left s) = left s
or_missing name panic = panic
or_missing name wild = wild

unfoldable pub create_at : Walk → Proc Server ℕ
unfolding or_missing
create_at (found dir f) s = err file_exists s
create_at (missing dir name) s = or_missing name (dir_alloc_file dir s)
create_at endless s = panic

unfoldable pub file_create : List ℕ → Proc Server ℕ
unfolding walk_path create_at
file_create path = do w ← walk_path path; create_at w

unfoldable pub file_remove : List ℕ → Proc Server (Unit {0})
unfolding walk_path file_of file_truncate store_byte file_flush flush_dir
file_remove path = do
  w ← walk_path path
  f ← file_of w
  file_truncate f 0
  store_byte f 0
  file_flush f
  flush_dir f

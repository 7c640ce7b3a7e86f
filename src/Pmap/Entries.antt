-- ===== src/Pmap/Entries.antt =====
-- The abstract view of a page table: a partial map from virtual addresses to valid entries. What it
-- asks of the words in memory is that the tables of a directory are pages apart from each other.
use run_mos_on_risc_v.Prelude.{
  ℕ, ◌≤◌, ◌<◌, ◌≡◌, ◌≢◌, true, false, Option, none, some, List, if◌then◌else◌, elem,
}
use run_mos_on_risc_v.Mmu.{pdx, ptx, pa2idx, pte_addr, is_valid}
use run_mos_on_risc_v.Pmap.{Mem}
use run_mos_on_risc_v.Pmap.Slot.{slot, max_pages}

-- Entry i of the directory in page d, and the index of the page that it leads to.
abbrev pub pde : (ℕ → ℕ) → ℕ → ℕ → ℕ
pde word d i = word (slot d i)

abbrev pub table : (ℕ → ℕ) → ℕ → ℕ → ℕ
table word d i = pa2idx (pte_addr (pde word d i))

-- The address of the entry for va, where there is a table for it.
abbrev pub place : (ℕ → ℕ) → ℕ → ℕ → ℕ
place word d va = slot (table word d (pdx va)) (ptx va)

-- The valid entry that the hardware finds for va, if there is one.
abbrev pub valid_entry : ℕ → Option ℕ
valid_entry v = if is_valid v then some v else none

abbrev pub entry : (ℕ → ℕ) → ℕ → ℕ → Option ℕ
entry word d va =
    if is_valid (pde word d (pdx va)) then valid_entry (word (place word d va)) else none

-- The pages fit the address space, and page d holds a directory whose tables are other pages, one
-- for each valid entry, none of them free.
pub record IsDirectory (word : ℕ → ℕ) (free : List ℕ) (npage d : ℕ) : Type 0 where
  pub span : npage ≤ max_pages
  pub root_in : d < npage
  pub root_used : elem d free ≡ false
  pub table_in : (i : ℕ) → i < 1024 → is_valid (pde word d i) ≡ true → table word d i < npage
  pub table_ne_root : (i : ℕ) → i < 1024 → is_valid (pde word d i) ≡ true → table word d i ≢ d
  pub table_used :
      (i : ℕ) → i < 1024 → is_valid (pde word d i) ≡ true → elem (table word d i) free ≡ false
  pub tables_apart :
      (i j : ℕ)
      → i < 1024
      → j < 1024
      → i ≢ j
      → is_valid (pde word d i) ≡ true
      → is_valid (pde word d j) ≡ true
      → table word d i ≢ table word d j

abbrev pub IsTable : Mem → ℕ → Type 0
IsTable m d = IsDirectory m.word m.free m.npage d

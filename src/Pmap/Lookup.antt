-- ===== src/Pmap/Lookup.antt =====
-- page_lookup and va2pa against the abstract view of the page table.
use run_mos_on_risc_v.Prelude.{
  ℕ, ◌≡◌, false, Option, none, some, ltb, if◌then◌else◌, Bool-cases, inl, inr, arith,
}
use run_mos_on_risc_v.Prelude.Proc.{Run, ok, panic}
use run_mos_on_risc_v.Mmu.{pdx, pa2idx, page2pa, pte_addr, is_valid}
use run_mos_on_risc_v.Pmap.{Mem, page_lookup, va2pa, no_pa}
use run_mos_on_risc_v.Pmap.Entries.{pde, place, entry, IsTable}
use run_mos_on_risc_v.Pmap.Walk.{pgdir_walk_present, pgdir_walk_absent, walk_table}

-- What page_lookup answers for an entry: nothing, the page of the entry with the entry's address, or
-- the panic of pa2page where the entry leads outside the memory.
abbrev pub found : Mem → ℕ → ℕ → Option ℕ → Run Mem (Option (ℕ × ℕ))
found m d va none = ok none m
found m d va (some v) =
    if ltb (pa2idx (pte_addr v)) m.npage
    then ok (some (pa2idx (pte_addr v), place m.word d va)) m
    else panic

-- In a directory whose tables are apart, page_lookup finds exactly the entry of the abstract view,
-- and changes nothing.
pub page_lookup_lem :
    (m : Mem) (d va : ℕ)
    → IsTable m d
    → page_lookup (page2pa d) va m ≡ found m d va (entry m.word d va)
unfolding page_lookup
page_lookup_lem m d va w = elim (Bool-cases (is_valid (pde m.word d (pdx va)))) [
  | inl v ↦ rw (pgdir_walk_present m d va w false v, v) (ground arith)
  | inr v ↦ rw (pgdir_walk_absent m d va w v, v)
]

abbrev pub translate : Option ℕ → ℕ
translate none = no_pa
translate (some v) = pte_addr v

-- In a directory whose tables are apart, va2pa gives the address in the entry of the abstract view, and
-- ~0 where there is none, and changes nothing.
pub va2pa_lem :
    (m : Mem) (d va : ℕ)
    → IsTable m d
    → va2pa (page2pa d) va m ≡ ok (translate (entry m.word d va)) m
unfolding va2pa
va2pa_lem m d va w = elim (Bool-cases (is_valid (pde m.word d (pdx va)))) [
  | inl v ↦ rw (v, walk_table m d va w v) (ground arith)
  | inr v ↦ rw v
]

-- ===== src/Tlb/Fault.antt =====
-- do_tlb_miss of kern/tlbex.c: a fault on a page that is not mapped gets one.
use run_mos_on_risc_v.Prelude.{
  ℕ, ◌≤◌, ◌<◌, ◌≡◌, ◌≢◌, ◌⊎◌, true, ◌&&◌, none, some, List, [], ◌∷◌, ltb, leb, ◌==◌, if◌then◌else◌,
}
use run_mos_on_risc_v.Prelude.Proc.{Proc, stop, ◌>>=◌}
use run_mos_on_risc_v.Mmu.{pdx, page2pa, uvpt, utemp, ustacktop, is_valid, make_pte}
use run_mos_on_risc_v.Pmap.{Mem, fill, readable}
use run_mos_on_risc_v.Pmap.Entries.{pde, entry, IsTable}
use run_mos_on_risc_v.Pmap.Free.{AllFree}
use run_mos_on_risc_v.Pmap.Frames.{Apart}
use run_mos_on_risc_v.Kernel.{Kernel}
use run_mos_on_risc_v.Tlb.{user_perm, alloc_at, show_window, load_fault, store_fault}

-- The memory behind page_alloc when t is the first free page.
abbrev taken : Mem → ℕ → List ℕ → Mem
taken m t rest = record m { free = rest; word = fill (page2pa t) 0 4096 m.word }

-- The page is mapped at va for the user to read and write, and every other address outside the window at
-- UVPT leads to what it led to before.
pub record IsServed (m m' : Mem) (d va t : ℕ) : Type 0 where
  pub mapped : entry m'.word d va ≡ some (make_pte (page2pa t) (readable user_perm))
  pub others : (vb : ℕ) → Apart va vb → pdx uvpt ≢ pdx vb → entry m'.word d vb ≡ entry m.word d vb
  pub still : IsTable m' d

-- A directory in page d that does not map va, whose free list starts with t, and has a second page or a
-- table for va.
pub record IsReady (m : Mem) (d va t : ℕ) (rest : List ℕ) : Type 0 where
  pub table_ok : IsTable m d
  pub free_ok : AllFree m.ref m.npage m.free
  pub first : m.free ≡ t ∷ rest
  pub unmapped : entry m.word d va ≡ none
  pub room : (rest ≢ []) ⊎ (is_valid (pde m.word d (pdx va)) ≡ true)

-- An address of the user's: from UTEMP, below which passive_alloc panics, to below the stack's top.
abbrev pub IsUser : ℕ → Type 0
IsUser va = (utemp ≤ va) × (va < ustacktop)

-- The cause is a store, or a load.
abbrev pub IsAccess : ℕ → Type 0
IsAccess c = (c ≡ store_fault) ⊎ (c ≡ load_fault)

abbrev by_cause : ℕ → ℕ → Proc Kernel (Unit {0})
by_cause va c =
    if c == store_fault
    then alloc_at va
    else if c == load_fault
    then (if leb utemp va && ltb va ustacktop then alloc_at va else show_window va)
    else stop

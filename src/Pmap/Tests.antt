-- ===== src/Pmap/Tests.antt =====
-- Runs of pmap.c on a small memory: a directory in page 0 of eight pages, three of them free.
use run_mos_on_risc_v.Prelude.{
  ℕ, ◌<◌, ◌≡◌, ◌≢◌, refl, sym, ◌∙◌, true, some, [], ◌∷◌, inl, arith, update,
}
use run_mos_on_risc_v.Prelude.Proc.{ok, Ends}
use run_mos_on_risc_v.Mmu.{
  round, pdx, ptx, pa2idx, page2pa, uvpt, pte_addr, addr_pte, is_valid, make_pte,
}
use run_mos_on_risc_v.Pmap.{Mem, page_insert, page_lookup, page_remove, va2pa, readable}
use run_mos_on_risc_v.Pmap.Boot.{Boot, page_init}
use run_mos_on_risc_v.Pmap.Boot.Pages.{IsBooted, page_init-IsFreeOk}
use run_mos_on_risc_v.Pmap.Slot.{pdx-lt}
use run_mos_on_risc_v.Pmap.Entries.{pde, table, place, entry, IsTable}
use run_mos_on_risc_v.Pmap.Free.{AllFree, IsFreeOk, IsKept}
use run_mos_on_risc_v.Pmap.Free.Calls.{page_remove-IsFreeOk}
use run_mos_on_risc_v.Pmap.Free.Insert.{page_insert-IsKept}
use run_mos_on_risc_v.Pmap.Walk.{installed}
use run_mos_on_risc_v.Pmap.Install.{installed-IsTable}
use run_mos_on_risc_v.Pmap.Keep.{write-IsTable}
use run_mos_on_risc_v.Pmap.Remove.{IsLeaf, IsUnmapped, GivesBack, page_remove-IsUnmapped}
use run_mos_on_risc_v.Pmap.Map.{Outcome, page_insert-Outcome}
use run_mos_on_risc_v.Pmap.Found.{page_insert-page_lookup}

abbrev va : ℕ
va = 0x40_3000

abbrev pub empty : Mem
empty = record { word = λ _. 0; ref = λ _. 0; free = 1 ∷ 2 ∷ 3 ∷ []; npage = 8; fences = [] }

none_valid : is_valid 0 ≢ true
none_valid h = cc

pub empty-IsTable : IsTable empty 0
empty-IsTable = record {
  span = omega arith;
  root_in = omega arith;
  root_used = refl;
  table_in = λ i hi v. absurd (none_valid v);
  table_ne_root = λ i hi v. absurd (none_valid v);
  table_used = λ i hi v. absurd (none_valid v);
  tables_apart = λ i j hi hj n v w. absurd (none_valid v);
}

-- Page 7 at 0x403000, and what reads it.
insert_then_va2pa :
    Ends
      (λ _ m. va2pa (page2pa 0) va m ≡ ok (page2pa 7) m)
      (λ _. ⊥)
      (page_insert (page2pa 0) 1 7 va 6 empty)
unfolding page_insert va2pa page2pa pte_addr addr_pte pdx ptx pa2idx make_pte
insert_then_va2pa = refl

no_entry : (y : ℕ) → entry empty.word 0 va ≡ some y → IsLeaf empty 0 (pa2idx (pte_addr y))
no_entry y e = cc

not_uvpt : pdx uvpt ≢ pdx va
unfolding pdx
not_uvpt = omega arith

pub empty-AllFree : AllFree empty.ref empty.npage empty.free
empty-AllFree = (omega arith, refl, refl, (omega arith, refl, refl, (omega arith, refl, refl, tt)))

page_insert-Outcome_example :
    Outcome empty (page_insert (page2pa 0) 1 7 va 6 empty) 0 va (make_pte (page2pa 7) (readable 6))
page_insert-Outcome_example =
    page_insert-Outcome empty 0 1 7 va 6 empty-IsTable empty-AllFree not_uvpt no_entry

page_insert-page_lookup_example :
    (m' : Mem) × (page_insert (page2pa 0) 1 7 va 6 empty ≡ ok tt m')
    × (page_lookup (page2pa 0) va m' ≡ ok (some (7, place m'.word 0 va)) m')
    × (va2pa (page2pa 0) va m' ≡ ok (page2pa 7) m')
page_insert-page_lookup_example =
    page_insert-page_lookup empty 0 1 7 va 6 empty-IsTable empty-AllFree not_uvpt no_entry
      (omega arith) (omega arith) (inl (λ e. cc))

-- The state with page 7 mapped at va by a table in page 1.
abbrev table_only : Mem
table_only = installed empty 0 (pdx va) 1 (2 ∷ 3 ∷ [])

abbrev mapped : Mem
mapped = record table_only {
  word = update table_only.word (place table_only.word 0 va) (make_pte (page2pa 7) 6);
  ref = update table_only.ref 7 1;
}

table_only-IsTable : IsTable table_only 0
table_only-IsTable =
    installed-IsTable empty 0 (pdx va) 1 (2 ∷ 3 ∷ []) empty-IsTable (pdx-lt va) refl refl
      (omega arith) refl

table_valid : is_valid (pde table_only.word 0 (pdx va)) ≡ true
unfolding page2pa pdx addr_pte
table_valid = refl

mapped-IsTable : IsTable mapped 0
mapped-IsTable =
    write-IsTable table_only 0 table_only-IsTable va (make_pte (page2pa 7) 6) table_valid

mapped_entry : entry mapped.word 0 va ≡ some (make_pte (page2pa 7) 6)
unfolding page2pa pdx ptx addr_pte pte_addr pa2idx make_pte
mapped_entry = refl

leaf_page : pa2idx (pte_addr (make_pte (page2pa 7) 6)) ≡ 7
unfolding page2pa addr_pte pte_addr pa2idx make_pte
leaf_page = refl

some_inj : (a b : ℕ) → some a ≡ some b → a ≡ b
some_inj a b e = cc

leaf_not_table :
    (i : ℕ) → i < 1024 → is_valid (pde mapped.word 0 i) ≡ true → 7 ≢ table mapped.word 0 i
unfolding page2pa pdx ptx addr_pte pte_addr pa2idx make_pte
leaf_not_table i hi v = ground arith

leaf : (y : ℕ) → entry mapped.word 0 va ≡ some y → IsLeaf mapped 0 (pa2idx (pte_addr y))
leaf y e =
    let p : make_pte (page2pa 7) 6 ≡ y = some_inj _ _ (sym mapped_entry ∙ e) in
    rw (← p, leaf_page)
      (record {
        inside = omega arith;
        counted = omega arith;
        not_root = omega arith;
        not_table = leaf_not_table;
      })

page_remove-IsUnmapped_example :
    (m' : Mem) × (page_remove (page2pa 0) 1 va mapped ≡ ok tt m')
    × IsUnmapped mapped m' 0 va
    × GivesBack mapped m' 1 va (entry mapped.word 0 va)
page_remove-IsUnmapped_example = page_remove-IsUnmapped mapped 0 1 va mapped-IsTable leaf

mapped-AllFree : IsFreeOk mapped
mapped-AllFree = (omega arith, refl, refl, (omega arith, refl, refl, tt))

page_insert-IsKept_example :
    Ends (λ _. IsKept 6) (IsKept 6) (page_insert (page2pa 0) 1 6 va 6 mapped)
page_insert-IsKept_example =
    page_insert-IsKept (page2pa 0) 1 6 va 6 mapped
      (record { free_ok = mapped-AllFree; used = refl })

page_remove-IsFreeOk_example : Ends (λ _. IsFreeOk) IsFreeOk (page_remove (page2pa 0) 1 va mapped)
page_remove-IsFreeOk_example = page_remove-IsFreeOk 1 va (page2pa 0) mapped mapped-AllFree

-- Boot of eight pages, of which the kernel's image takes two and a byte.
abbrev booting : Boot
booting = record {
  mm = empty;
  memsize = 0x400_0000;
  freemem = 0x8020_2001;
  pages = 0x8020_1000;
  satp = 0;
}

third_page : round 0x8020_2001 ≡ page2pa 3
unfolding page2pa
third_page = refl

page_init-IsFreeOk_example :
    (b' : Boot) × (page_init booting ≡ ok tt b')
    × IsFreeOk b'.mm
    × IsBooted b'.mm (round 0x8020_2001)
page_init-IsFreeOk_example =
    page_init-IsFreeOk booting 3 third_page (omega arith) (omega arith) (λ p. refl)

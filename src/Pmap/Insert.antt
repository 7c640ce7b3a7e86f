-- ===== src/Pmap/Insert.antt =====
-- page_insert against the abstract view: it maps va to the page and keeps the other translations.
use run_mos_on_risc_v.Prelude.{
  ℕ, ◌+◌, ◌%◌, ◌<◌, ◌≡◌, ◌≢◌, refl, ◌∙◌, true, false, none, some, ◌∷◌, update, lt→ltb, eq→==, ne→==,
  arith,
}
use run_mos_on_risc_v.Prelude.Proc.{ok, ◌>>◌}
use run_mos_on_risc_v.Mmu.{
  pdx, pa2idx, page2pa, uvpt, pte_addr, is_valid, make_pte, is_valid-make_pte,
}
use run_mos_on_risc_v.Pmap.{Mem, fence_of, insert_new, insert_over, page_remove}
use run_mos_on_risc_v.Pmap.Slot.{slot, pdx-lt}
use run_mos_on_risc_v.Pmap.Entries.{pde, place, entry, IsTable}
use run_mos_on_risc_v.Pmap.Walk.{pgdir_walk_present}
use run_mos_on_risc_v.Pmap.Frames.{Apart, entry-write_self, entry-write_ne, entry-clear_ne}
use run_mos_on_risc_v.Pmap.Keep.{write-IsTable, clear-IsTable}

-- The state behind steps 3 and 4 of page_insert, for an entry at address a.
abbrev pub written : Mem → ℕ → ℕ → ℕ → ℕ → ℕ → Mem
written m d asid pp perm a = record m {
  word = update (update m.word a (make_pte (page2pa pp) perm)) (slot d (pdx uvpt)) 0;
  ref = update m.ref pp ((m.ref pp + 1) % 0x1_0000);
  fences = fence_of asid 0 ∷ m.fences;
}

-- The abstract meaning of an insertion: `va` leads to the new entry, and every other page of the
-- address space outside the window at UVPT to what it led to before.
pub record IsInserted (m m' : Mem) (d va v : ℕ) : Type 0 where
  pub size : m'.npage ≡ m.npage
  pub mapped : entry m'.word d va ≡ some v
  pub others : (vb : ℕ) → Apart va vb → pdx uvpt ≢ pdx vb → entry m'.word d vb ≡ entry m.word d vb
  pub still : IsTable m' d

module _ (m : Mem) (d asid pp va perm : ℕ) (w : IsTable m d) (low : pdx uvpt ≢ pdx va)
    (v : is_valid (pde m.word d (pdx va)) ≡ true) where
  pub insert_new_present :
      insert_new (page2pa d) asid pp va perm m
      ≡ ok tt (written m d asid pp perm (place m.word d va))
  unfolding insert_new
  insert_new_present = rw (pgdir_walk_present m d va w true v)

  abbrev pub x : ℕ
  x = make_pte (page2pa pp) perm

  abbrev pub half : Mem
  half = record m { word = update m.word (place m.word d va) x }

  half-IsTable : IsTable half d
  half-IsTable = write-IsTable m d w va x v

  pub written-IsInserted : IsInserted m (written m d asid pp perm (place m.word d va)) d va x
  written-IsInserted = record {
    size = refl;
    mapped =
        entry-clear_ne half d (pdx uvpt) half-IsTable (pdx-lt uvpt) va low
        ∙ entry-write_self m d va w v x
        ∙ rw (is_valid-make_pte (page2pa pp) perm);
    others = λ vb a n.
        entry-clear_ne half d (pdx uvpt) half-IsTable (pdx-lt uvpt) vb n
        ∙ entry-write_ne m d va w v x vb a;
    still = clear-IsTable half d half-IsTable (pdx uvpt) (pdx-lt uvpt);
  }

  -- The branch that finds the page itself at va: only the entry changes.
  abbrev pub remapped : Mem
  remapped = record half { fences = fence_of asid va ∷ m.fences }

  pub remapped-IsInserted : IsInserted m remapped d va x
  remapped-IsInserted = record {
    size = refl;
    mapped = entry-write_self m d va w v x ∙ rw (is_valid-make_pte (page2pa pp) perm);
    others = λ vb a n. entry-write_ne m d va w v x vb a;
    still = half-IsTable;
  }

  entry_valid :
      (y : ℕ) → entry m.word d va ≡ some y → (m.word (place m.word d va) ≡ y) × (is_valid y ≡ true)
  entry_valid y e = ground arith

  pub insert_over_same :
      (y : ℕ)
      → entry m.word d va ≡ some y
      → pa2idx (pte_addr y) < m.npage
      → pa2idx (pte_addr y) ≡ pp
      → insert_over (page2pa d) asid pp va perm (some (place m.word d va)) m ≡ ok tt remapped
  unfolding insert_over
  insert_over_same y e h p = let (a, b) = entry_valid y e in rw (a, b, lt→ltb _ _ h, eq→== _ _ p)

  pub insert_over_other :
      (y : ℕ)
      → entry m.word d va ≡ some y
      → pa2idx (pte_addr y) < m.npage
      → pa2idx (pte_addr y) ≢ pp
      → insert_over (page2pa d) asid pp va perm (some (place m.word d va)) m
        ≡ (page_remove (page2pa d) asid va >> insert_new (page2pa d) asid pp va perm) m
  unfolding insert_over
  insert_over_other y e h p = let (a, b) = entry_valid y e in rw (a, b, lt→ltb _ _ h, ne→== _ _ p)

  pub insert_over_free :
      entry m.word d va ≡ none
      → insert_over (page2pa d) asid pp va perm (some (place m.word d va)) m
        ≡ insert_new (page2pa d) asid pp va perm m
  unfolding insert_over
  insert_over_free e = let a : is_valid (m.word (place m.word d va)) ≡ false = ground arith in rw a

-- ===== src/Pmap/Map.antt =====
-- page_insert as a whole, on every branch, against the abstract view of the page table.
use run_mos_on_risc_v.Prelude.{
  ℕ, ◌<◌, ◌≡◌, ◌≢◌, ◌⊎◌, refl, ◌∙◌, true, false, some, List, [], ◌∷◌, elem, Bool-cases,
  Option-cases, inl, inr,
}
use native.Mathlib.Decide.{ℕ_discrete}
use run_mos_on_risc_v.Prelude.Proc.{Run, ok, err, no_mem}
use run_mos_on_risc_v.Mmu.{pdx, pa2idx, page2pa, uvpt, pte_addr, is_valid, make_pte}
use run_mos_on_risc_v.Pmap.{Mem, insert_new, insert_over, page_insert, readable}
use run_mos_on_risc_v.Pmap.Slot.{pdx-lt}
use run_mos_on_risc_v.Pmap.Entries.{pde, place, entry, IsTable}
use run_mos_on_risc_v.Pmap.Free.{AllFree, AllFree-head}
use run_mos_on_risc_v.Pmap.Walk.{
  installed, new_table_valid, pgdir_walk_present, pgdir_walk_absent, pgdir_walk_creates,
  pgdir_walk_full,
}
use run_mos_on_risc_v.Pmap.Frames.{
  IsFresh, entry-with_table, table-with_table_self, pde-with_table_self, place_ne_pde,
}
use run_mos_on_risc_v.Pmap.Install.{free-IsFresh, installed-IsTable}
use run_mos_on_risc_v.Pmap.Remove.{IsLeaf, removed_page, removed-IsUnmapped, page_remove_present}
use run_mos_on_risc_v.Pmap.Insert.{
  IsInserted, written, written-IsInserted, remapped, remapped-IsInserted, insert_new_present,
  insert_over_same, insert_over_other, insert_over_free,
}

-- An insertion that succeeds with the abstract meaning, or runs out of memory for a page table.
abbrev pub Outcome : Mem → Run Mem (Unit {0}) → ℕ → ℕ → ℕ → Type 0
Outcome m r d va v =
    ((r ≡ err no_mem m) × (m.free ≡ []) × (is_valid (pde m.word d (pdx va)) ≡ false))
    ⊎ ((m' : Mem) × (r ≡ ok tt m') × IsInserted m m' d va v)

module _ (m : Mem) (d asid pp va perm : ℕ) (w : IsTable m d) (low : pdx uvpt ≢ pdx va) where
  abbrev new : Run Mem (Unit {0})
  new = insert_new (page2pa d) asid pp va perm m

  abbrev target : ℕ
  target = make_pte (page2pa pp) perm

  new_at_present : is_valid (pde m.word d (pdx va)) ≡ true → Outcome m new d va target
  new_at_present v = inr (
    written m d asid pp perm (place m.word d va),
    insert_new_present m d asid pp va perm w low v,
    written-IsInserted m d asid pp va perm w low v,
  )

  module _ (t : ℕ) (rest : List ℕ) (off : m.free ≡ t ∷ rest) (free : AllFree m.ref m.npage m.free)
      (absent : is_valid (pde m.word d (pdx va)) ≡ false) where
    fits : t < m.npage
    fits = (AllFree-head m.ref m.npage t m.free rest off free).0

    once : elem t rest ≡ false
    once = (AllFree-head m.ref m.npage t m.free rest off free).2

    fresh : IsFresh m d t
    fresh = free-IsFresh m d (pdx va) t rest w (pdx-lt va) absent off fits once

    abbrev grown : Mem
    grown = installed m d (pdx va) t rest

    grown-IsTable : IsTable grown d
    grown-IsTable = installed-IsTable m d (pdx va) t rest w (pdx-lt va) absent off fits once

    grown_valid : is_valid (pde grown.word d (pdx va)) ≡ true
    grown_valid =
        rw (pde-with_table_self m d (pdx va) t w fresh (pdx-lt va) absent) (new_table_valid t)

    insert_new_absent : new ≡ ok tt (written grown d asid pp perm (place grown.word d va))
    unfolding insert_new
    insert_new_absent = rw (
      pgdir_walk_creates m d va t rest w absent off fits,
      table-with_table_self m d (pdx va) t w fresh (pdx-lt va) absent,
    )

    new_at_absent : Outcome m new d va target
    new_at_absent =
        let i = written-IsInserted grown d asid pp va perm grown-IsTable low grown_valid in
        inr (
          written grown d asid pp perm (place grown.word d va),
          insert_new_absent,
          record {
            size = i.size;
            mapped = i.mapped;
            others = λ vb a n.
                i.others vb a n ∙ entry-with_table m d (pdx va) t w fresh (pdx-lt va) absent vb;
            still = i.still;
          },
        )

  new_when_absent :
      (free : List ℕ)
      → m.free ≡ free
      → AllFree m.ref m.npage m.free
      → is_valid (pde m.word d (pdx va)) ≡ false
      → Outcome m new d va target
  unfolding insert_new
  new_when_absent [] off ok_free absent = inl (rw (pgdir_walk_full m d va absent off), off, absent)
  new_when_absent (t ∷ rest) off ok_free absent = new_at_absent t rest off ok_free absent

module _ (m : Mem) (d asid pp va perm : ℕ) (w : IsTable m d) (low : pdx uvpt ≢ pdx va)
    (v : is_valid (pde m.word d (pdx va)) ≡ true) where
  abbrev over : Run Mem (Unit {0})
  over = insert_over (page2pa d) asid pp va perm (some (place m.word d va)) m

  over_other :
      (y : ℕ)
      → entry m.word d va ≡ some y
      → IsLeaf m d (pa2idx (pte_addr y))
      → pa2idx (pte_addr y) ≢ pp
      → Outcome m over d va (make_pte (page2pa pp) perm)
  over_other y e leaf n =
      let gone = removed-IsUnmapped m d asid va y w e leaf in
      let mid = removed_page m d asid va y w e leaf in
      let v' : is_valid (pde mid.word d (pdx va)) ≡ true =
        rw (place_ne_pde m d va w v (pdx va) (pdx-lt va)) v in
      let i = written-IsInserted mid d asid pp va perm gone.still low v' in
      inr (
        written mid d asid pp perm (place mid.word d va),
        insert_over_other m d asid pp va perm w low v y e leaf.inside n
            ∙ rw (page_remove_present m d asid va w y e leaf.inside leaf.counted)
                (insert_new_present mid d asid pp va perm gone.still low v'),
        record {
          size = i.size;
          mapped = i.mapped;
          others = λ vb a q. i.others vb a q ∙ gone.others vb a;
          still = i.still;
        },
      )

  over_present :
      ((y : ℕ) → entry m.word d va ≡ some y → IsLeaf m d (pa2idx (pte_addr y)))
      → Outcome m over d va (make_pte (page2pa pp) perm)
  over_present leaf = elim (Option-cases (entry m.word d va)) [
    | inl e ↦
        rw (insert_over_free m d asid pp va perm w low v e)
          (new_at_present m d asid pp va perm w low v)
    | inr (y, e) ↦ elim (ℕ_discrete (pa2idx (pte_addr y)) pp) [
      | yes p ↦ inr (
        remapped m d asid pp va perm w low v,
        insert_over_same m d asid pp va perm w low v y e (leaf y e).inside p,
        remapped-IsInserted m d asid pp va perm w low v,
      )
      | no n ↦ over_other y e (leaf y e) n
    ]
  ]

-- For a directory whose tables are apart, a well-formed free list, an address outside the window at
-- UVPT, and a page at va, if there is one, that no table uses and that is counted: page_insert maps va
-- to the page with its permission, keeps every translation but the window at UVPT, and leaves the
-- directory well formed; it fails only for want of a page for a table, and then changes nothing.
pub page_insert-Outcome :
    (m : Mem) (d asid pp va perm : ℕ)
    → IsTable m d
    → AllFree m.ref m.npage m.free
    → pdx uvpt ≢ pdx va
    → ((y : ℕ) → entry m.word d va ≡ some y → IsLeaf m d (pa2idx (pte_addr y)))
    → Outcome m
        (page_insert (page2pa d) asid pp va perm m)
        d
        va
        (make_pte (page2pa pp) (readable perm))
unfolding page_insert
page_insert-Outcome m d asid pp va perm w free low leaf =
    elim (Bool-cases (is_valid (pde m.word d (pdx va)))) [
      | inl v ↦
          rw (pgdir_walk_present m d va w false v)
            (over_present m d asid pp va (readable perm) w low v leaf)
      | inr v ↦
          rw (pgdir_walk_absent m d va w v)
            (new_when_absent m d asid pp va (readable perm) w low m.free refl free v)
    ]

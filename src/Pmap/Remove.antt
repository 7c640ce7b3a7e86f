-- ===== src/Pmap/Remove.antt =====
-- page_remove against the abstract view: the entry goes, no other does, and the page loses a reference.
use run_mos_on_risc_v.Prelude.{
  ℕ, ◌-◌, ◌<◌, ◌≡◌, ◌≢◌, refl, true, false, none, some, Option, List, ◌∷◌, lt→ltb, if◌then◌else◌,
  Option-cases, elem, inl, inr, arith, update, ==-refl, ◌==◌,
}
use run_mos_on_risc_v.Prelude.Proc.{ok, panic}
use run_mos_on_risc_v.Mmu.{pdx, pa2idx, page2pa, pte_addr, is_valid}
use run_mos_on_risc_v.Pmap.{Mem, page_decref, page_remove, fence_of}
use run_mos_on_risc_v.Pmap.Entries.{pde, table, place, entry, IsTable}
use run_mos_on_risc_v.Pmap.Lookup.{page_lookup_lem}
use run_mos_on_risc_v.Pmap.Frames.{Apart, entry-write_self, entry-write_ne, place_ne_pde}
use run_mos_on_risc_v.Pmap.Keep.{keep-IsTable}

-- One reference less; the last one puts the page on the free list.
abbrev pub dropped : Mem → ℕ → Mem
dropped m pp = record m {
  ref = update m.ref pp (m.ref pp - 1);
  free = if m.ref pp - 1 == 0 then pp ∷ m.free else m.free;
}

pub page_decref_lem : (m : Mem) (pp : ℕ) → 0 < m.ref pp → page_decref pp m ≡ ok tt (dropped m pp)
unfolding page_decref
page_decref_lem m pp h = rw (lt→ltb _ _ h) (ground (arith, ==-refl pp))

pub page_decref_zero : (m : Mem) (pp : ℕ) → m.ref pp ≡ 0 → page_decref pp m ≡ panic
unfolding page_decref
page_decref_zero m pp h = rw h

-- The state behind the removal of an entry that leads to page pp.
abbrev pub removed : Mem → ℕ → ℕ → ℕ → ℕ → Mem
removed m d asid va pp = record m {
  ref = update m.ref pp (m.ref pp - 1);
  free = if m.ref pp - 1 == 0 then pp ∷ m.free else m.free;
  word = update m.word (place m.word d va) 0;
  fences = fence_of asid va ∷ m.fences;
}

module _ (m : Mem) (d asid va : ℕ) (w : IsTable m d) where
  pub page_remove_absent : entry m.word d va ≡ none → page_remove (page2pa d) asid va m ≡ ok tt m
  unfolding page_remove
  page_remove_absent e = rw (page_lookup_lem m d va w, e)

  pub page_remove_present :
      (v : ℕ)
      → entry m.word d va ≡ some v
      → pa2idx (pte_addr v) < m.npage
      → 0 < m.ref (pa2idx (pte_addr v))
      → page_remove (page2pa d) asid va m ≡ ok tt (removed m d asid va (pa2idx (pte_addr v)))
  unfolding page_remove
  page_remove_present v e h r =
      rw (page_lookup_lem m d va w, e, lt→ltb _ _ h, page_decref_lem m _ r)

-- A page that is mapped, and is no page of the directory itself.
pub record IsLeaf (m : Mem) (d pp : ℕ) : Type 0 where
  pub inside : pp < m.npage
  pub counted : 0 < m.ref pp
  pub not_root : pp ≢ d
  pub not_table : (i : ℕ) → i < 1024 → is_valid (pde m.word d i) ≡ true → pp ≢ table m.word d i

-- The abstract meaning of a removal: nothing stands at va, and all else is as before.
pub record IsUnmapped (m m' : Mem) (d va : ℕ) : Type 0 where
  pub gone : entry m'.word d va ≡ none
  pub others : (vb : ℕ) → Apart va vb → entry m'.word d vb ≡ entry m.word d vb
  pub still : IsTable m' d

pub pushed_kept :
    (a pp r : ℕ) (free : List ℕ)
    → pp ≢ a
    → elem a free ≡ false
    → elem a (if r == 0 then pp ∷ free else free) ≡ false
pushed_kept a pp r free n h = ground arith

module _ (m : Mem) (d asid va v : ℕ) (w : IsTable m d) (e : entry m.word d va ≡ some v)
    (leaf : IsLeaf m d (pa2idx (pte_addr v))) where
  pub present : is_valid (pde m.word d (pdx va)) ≡ true
  present = ground arith

  abbrev pub removed_page : Mem
  removed_page = removed m d asid va (pa2idx (pte_addr v))

  pub removed-IsUnmapped : IsUnmapped m removed_page d va
  removed-IsUnmapped = record {
    gone = entry-write_self m d va w present 0;
    others = entry-write_ne m d va w present 0;
    still =
        keep-IsTable m removed_page d w refl (λ i hi _. rw (place_ne_pde m d va w present i hi))
          (pushed_kept d _ _ m.free leaf.not_root w.root_used)
          (λ i hi vi. pushed_kept _ _ _ m.free (leaf.not_table i hi vi) (w.table_used i hi vi));
  }

-- The page of the entry loses a reference, the last one puts it on the free list, and the TLB is flushed;
-- where nothing was mapped, nothing changes.
abbrev pub GivesBack : Mem → Mem → ℕ → ℕ → Option ℕ → Type 0
GivesBack m m' asid va none = m' ≡ m
GivesBack m m' asid va (some v) =
    let pp : ℕ = pa2idx (pte_addr v) in
    (m'.ref ≡ update m.ref pp (m.ref pp - 1))
    × (m'.free ≡ (if m.ref pp - 1 == 0 then pp ∷ m.free else m.free))
    × (m'.fences ≡ fence_of asid va ∷ m.fences)

-- In a directory whose tables are apart, removing what is mapped at va, if anything is and if that page
-- is no table and is counted: the call succeeds, the abstract map loses va and nothing else, and the
-- page that was mapped, and no other, loses a reference; the last one puts it on the free list.
pub page_remove-IsUnmapped :
    (m : Mem) (d asid va : ℕ)
    → IsTable m d
    → ((v : ℕ) → entry m.word d va ≡ some v → IsLeaf m d (pa2idx (pte_addr v)))
    → (m' : Mem) × (page_remove (page2pa d) asid va m ≡ ok tt m')
      × IsUnmapped m m' d va
      × GivesBack m m' asid va (entry m.word d va)
page_remove-IsUnmapped m d asid va w leaf = elim (Option-cases (entry m.word d va)) [
  | inl e ↦ (
    m,
    page_remove_absent m d asid va w e,
    record { gone = e; others = λ vb a. refl; still = w },
    rw e refl,
  )
  | inr (v, e) ↦
      let l = leaf v e in
      (
        removed m d asid va (pa2idx (pte_addr v)),
        page_remove_present m d asid va w v e l.inside l.counted,
        removed-IsUnmapped m d asid va v w e l,
        rw e (refl, refl, refl),
      )
]

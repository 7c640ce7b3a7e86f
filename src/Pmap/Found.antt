-- ===== src/Pmap/Found.antt =====
-- page_lookup and va2pa behind page_insert.
use run_mos_on_risc_v.Prelude.{
  ℕ, ◌/◌, ◌%◌, ◌<◌, ◌≤◌, ◌≡◌, ◌≢◌, ◌⊎◌, ◌∙◌, true, false, some, [], bit_or, inl, inr, arith,
  lt_le_trans, lt→ltb, Bool-cases,
}
use run_mos_on_risc_v.Prelude.Bits.{bit_or-div_1024, bit_or-zero}
use run_mos_on_risc_v.Prelude.Proc.{ok}
use run_mos_on_risc_v.Mmu.{
  pdx, pa2idx, page2pa, uvpt, pte_addr, is_valid, is_writable, make_pte, pte_addr-make_pte,
}
use run_mos_on_risc_v.Pmap.{Mem, page_insert, page_lookup, va2pa, readable}
use run_mos_on_risc_v.Pmap.Slot.{pa2idx-page2pa, max_pages}
use run_mos_on_risc_v.Pmap.Entries.{pde, place, entry, IsTable}
use run_mos_on_risc_v.Pmap.Free.{AllFree}
use run_mos_on_risc_v.Pmap.Lookup.{page_lookup_lem, va2pa_lem}
use run_mos_on_risc_v.Pmap.Remove.{IsLeaf}
use run_mos_on_risc_v.Pmap.Map.{page_insert-Outcome}

readable-lt : (perm : ℕ) → perm < 1024 → readable perm < 1024
readable-lt perm h = elim (Bool-cases (is_writable perm)) [
  | inl v ↦
      let z : perm / 1024 ≡ 0 = omega arith in
      let e : bit_or perm 2 / 1024 ≡ 0 = bit_or-div_1024 perm 2 ∙ rw z (bit_or-zero 0) in
      rw v (omega arith)
  | inr v ↦ rw v h
]

page2pa_aligned : (pp : ℕ) → pp < max_pages → (page2pa pp < 0x1_0000_0000) × (page2pa pp % 4096 ≡ 0)
unfolding page2pa
page2pa_aligned pp h = omega arith

pub pte_addr-made :
    (pp perm : ℕ)
    → pp < max_pages
    → perm < 1024
    → pte_addr (make_pte (page2pa pp) (readable perm)) ≡ page2pa pp
pte_addr-made pp perm h small =
    let (b, a) = page2pa_aligned pp h in
    pte_addr-make_pte (page2pa pp) (readable perm) (readable-lt perm small) b a

-- Under the conditions of page_insert-Outcome, and with a free page or a table for va, page_insert
-- succeeds for a page of the memory and a permission of ten bits; a lookup of va then gives the page
-- that was inserted, and va2pa its physical address.
pub page_insert-page_lookup :
    (m : Mem) (d asid pp va perm : ℕ)
    → IsTable m d
    → AllFree m.ref m.npage m.free
    → pdx uvpt ≢ pdx va
    → ((y : ℕ) → entry m.word d va ≡ some y → IsLeaf m d (pa2idx (pte_addr y)))
    → perm < 1024
    → pp < m.npage
    → (m.free ≢ []) ⊎ (is_valid (pde m.word d (pdx va)) ≡ true)
    → (m' : Mem) × (page_insert (page2pa d) asid pp va perm m ≡ ok tt m')
      × (page_lookup (page2pa d) va m' ≡ ok (some (pp, place m'.word d va)) m')
      × (va2pa (page2pa d) va m' ≡ ok (page2pa pp) m')
page_insert-page_lookup m d asid pp va perm w free low leaf small inside room =
    elim (page_insert-Outcome m d asid pp va perm w free low leaf) [
      | inl (_, none_left, no_table) ↦ absurd (no_room room none_left no_table)
      | inr (m', done, i) ↦
          let there : pp < m'.npage = rw i.size inside in
          let span : m'.npage ≤ max_pages = i.still.span in
          let addr = pte_addr-made pp perm (lt_le_trans there span) small in
          (
            m',
            done,
            page_lookup_lem m' d va i.still
                ∙ rw (i.mapped, addr, pa2idx-page2pa pp (lt_le_trans there span), lt→ltb _ _ there),
            va2pa_lem m' d va i.still ∙ rw (i.mapped, addr),
          )
    ]
  where
    no_room :
        (m.free ≢ []) ⊎ (is_valid (pde m.word d (pdx va)) ≡ true)
        → m.free ≡ []
        → is_valid (pde m.word d (pdx va)) ≡ false
        → ⊥
    no_room (inl n) e v = n e
    no_room (inr y) e v = cc

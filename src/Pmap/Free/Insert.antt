-- ===== src/Pmap/Free/Insert.antt =====
-- page_insert keeps the free list well formed, when the page that it maps is not on it.
use native.Mathlib.Decide.{ℕ_discrete, dec_lt}
use run_mos_on_risc_v.Prelude.{
  ℕ, ◌+◌, ◌%◌, ◌<◌, ◌≡◌, ◌≢◌, refl, true, false, Option, none, some, arith, Bool-cases, inl, inr,
  le→ltb, lt→ltb, eq→==, ne→==,
}
use run_mos_on_risc_v.Prelude.Proc.{Run, ok, err, left, panic, wild, Ends, Ends-bind}
use run_mos_on_risc_v.Mmu.{pa2idx, is_valid, pte_addr}
use run_mos_on_risc_v.Pmap.{
  Mem, page_decref, pgdir_walk, page_lookup, page_remove, page_insert, insert_new, insert_over,
  write_entry, remove_at, lookup_at, readable,
}
use run_mos_on_risc_v.Pmap.Free.{AllFree-update, IsKept}
use run_mos_on_risc_v.Pmap.Free.Calls.{pgdir_walk-IsKept, walk_reads, page_decref-IsKept}

module _ (pgdir asid pp va perm : ℕ) where
  write_entry-IsKept :
      (pte : Option ℕ) (m : Mem)
      → IsKept pp m
      → Ends (λ _. IsKept pp) (IsKept pp) (write_entry pgdir asid pp perm pte m)
  unfolding write_entry
  write_entry-IsKept none m h = tt
  write_entry-IsKept (some a) m h = record {
    free_ok = AllFree-update m.ref m.npage pp ((m.ref pp + 1) % 0x1_0000) m.free h.used h.free_ok;
    used = h.used;
  }

  insert_new-IsKept :
      (m : Mem)
      → IsKept pp m
      → Ends (λ _. IsKept pp) (IsKept pp) (insert_new pgdir asid pp va perm m)
  unfolding insert_new
  insert_new-IsKept m h =
      Ends-bind (λ _. IsKept pp) _ (IsKept pp) (pgdir_walk pgdir va true m) _
        (pgdir_walk-IsKept pp pgdir va true m h) (λ pte s k. write_entry-IsKept pte s k)

  module _ (m : Mem) (a : ℕ) (walk : pgdir_walk pgdir va false m ≡ ok (some a) m)
      (valid : is_valid (m.word a) ≡ true) (inside : pa2idx (pte_addr (m.word a)) < m.npage) where
    abbrev old : ℕ
    old = pa2idx (pte_addr (m.word a))

    lookup_old : page_lookup pgdir va m ≡ ok (some (old, a)) m
    unfolding page_lookup lookup_at
    lookup_old = rw (walk, valid, lt→ltb _ _ inside)

    remove_old-IsKept :
        old ≢ pp → IsKept pp m → Ends (λ _. IsKept pp) (IsKept pp) (page_remove pgdir asid va m)
    unfolding page_remove remove_at
    remove_old-IsKept n h = rw lookup_old (
        Ends-bind (λ _. IsKept pp) _ (IsKept pp) (page_decref old m) _
          (page_decref-IsKept pp old m inside n h)
          (λ _ s k. record { free_ok = k.free_ok; used = k.used }))

    insert_over_valid :
        IsKept pp m
        → Ends (λ _. IsKept pp) (IsKept pp) (insert_over pgdir asid pp va perm (some a) m)
    unfolding insert_over
    insert_over_valid h = elim (ℕ_discrete old pp) [
      | yes e ↦
          rw (valid, lt→ltb _ _ inside, eq→== _ _ e) (record { free_ok = h.free_ok; used = h.used })
      | no n ↦
          rw (valid, lt→ltb _ _ inside, ne→== _ _ n)
            (Ends-bind (λ _. IsKept pp) _ (IsKept pp) (page_remove pgdir asid va m) _
              (remove_old-IsKept n h) (λ _ s k. insert_new-IsKept s k))
    ]

  insert_over-IsKept :
      (m : Mem) (pte : Option ℕ)
      → pgdir_walk pgdir va false m ≡ ok pte m
      → IsKept pp m
      → Ends (λ _. IsKept pp) (IsKept pp) (insert_over pgdir asid pp va perm pte m)
  unfolding insert_over
  insert_over-IsKept m none walk h = insert_new-IsKept m h
  insert_over-IsKept m (some a) walk h = elim (Bool-cases (is_valid (m.word a))) [
    | inr v ↦ rw v (insert_new-IsKept m h)
    | inl v ↦ elim (dec_lt (pa2idx (pte_addr (m.word a))) m.npage) [
      | yes i ↦ insert_over_valid m a walk v i h
      | no i ↦ rw (v, le→ltb (pa2idx (pte_addr (m.word a))) m.npage (omega arith)) tt
    ]
  ]

-- If the free list is well formed and a page is not on it, then page_insert of that page keeps both, on
-- every branch, for any page table and permission.
pub page_insert-IsKept :
    (pgdir asid pp va perm : ℕ) (m : Mem)
    → IsKept pp m
    → Ends (λ _. IsKept pp) (IsKept pp) (page_insert pgdir asid pp va perm m)
unfolding page_insert
page_insert-IsKept pgdir asid pp va perm m h =
    go (pgdir_walk pgdir va false m) refl (walk_reads (λ _. ⊥) pgdir va m)
  where
    go :
        (r : Run Mem (Option ℕ))
        → pgdir_walk pgdir va false m ≡ r
        → Ends (λ _ s. s ≡ m) (λ _. ⊥) r
        → Ends (λ _. IsKept pp) (IsKept pp) (page_insert pgdir asid pp va perm m)
    go (ok pte s) walk e =
        rw walk (rw e (insert_over-IsKept pgdir asid pp va (readable perm) m pte (rw e at walk) h))
    go (err c s) walk e = absurd e
    go (left s) walk e = absurd e
    go panic walk e = rw walk tt
    go wild walk e = rw walk tt

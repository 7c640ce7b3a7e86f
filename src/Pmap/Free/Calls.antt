-- ===== src/Pmap/Free/Calls.antt =====
-- Every operation on pages and page tables keeps the free list well formed.
use run_mos_on_risc_v.Prelude.{
  ℕ, ◌+◌, ◌*◌, ◌<◌, ◌-◌, ◌≡◌, ◌≢◌, refl, Bool, true, false, Option, none, some, elem, ◌==◌,
  if◌then◌else◌, arith, Bool-cases, ==-refl, inl, inr,
}
use run_mos_on_risc_v.Prelude.Proc.{Ends, Ends-bind, pure, ◌>>◌}
use native.Mathlib.Decide.{dec_lt}
use run_mos_on_risc_v.Mmu.{pdx, pa2idx, is_valid, pte_addr}
use run_mos_on_risc_v.Pmap.{
  Mem, page_decref, walk_entry, pgdir_walk, page_lookup, page_remove, install_table, lookup_at,
  remove_at,
}
use run_mos_on_risc_v.Pmap.Remove.{dropped, page_decref_lem, page_decref_zero, pushed_kept}
use run_mos_on_risc_v.Pmap.Free.{
  AllFree-update, AllFree-used, IsFreeOk, IsKept, install_table-IsKept,
}

walk_entry-IsKept :
    (q pgdir va : ℕ) (m : Mem)
    → IsKept q m
    → Ends (λ _. IsKept q) (IsKept q) (walk_entry pgdir va m)
unfolding walk_entry
walk_entry-IsKept q pgdir va m h = ground (arith, h)

pub pgdir_walk-IsKept :
    (q pgdir va : ℕ) (create : Bool) (m : Mem)
    → IsKept q m
    → Ends (λ _. IsKept q) (IsKept q) (pgdir_walk pgdir va create m)
unfolding pgdir_walk
pgdir_walk-IsKept q pgdir va create m h =
    elim (Bool-cases (is_valid (m.word (pgdir + 4 * pdx va)))) [
      | inl v ↦ rw v (walk_entry-IsKept q pgdir va m h)
      | inr v ↦ rw v (walk create)
    ]
  where
    walk :
        (create : Bool)
        → Ends
            (λ _. IsKept q)
            (IsKept q)
            ((if create then (do install_table pgdir va; walk_entry pgdir va) else pure none) m)
    walk true =
        Ends-bind _ _ (IsKept q) (install_table pgdir va m) _ (install_table-IsKept q pgdir va m h)
          (λ _ s k. walk_entry-IsKept q pgdir va s k)
    walk false = h

-- A walk that does not create leaves the state alone.
pub walk_reads :
    (P : Mem → Type 0) (pgdir va : ℕ) (m : Mem)
    → Ends (λ _ s. s ≡ m) P (pgdir_walk pgdir va false m)
unfolding pgdir_walk walk_entry
walk_reads P pgdir va m = ground arith

-- What page_lookup hands on: a page of the memory, and the address of the entry that leads to it.
abbrev pub Found : Mem → Option (ℕ × ℕ) → Mem → Type 0
Found m none s = s ≡ m
Found m (some (p, a)) s = (s ≡ m) × (p < m.npage) × (p ≡ pa2idx (pte_addr (m.word a)))

lookup_at_reads : (P : Mem → Type 0) (m : Mem) (pte : Option ℕ) → Ends (Found m) P (lookup_at pte m)
unfolding lookup_at
lookup_at_reads P m none = refl
lookup_at_reads P m (some a) = ground arith

pub page_lookup_reads :
    (P : Mem → Type 0) (pgdir va : ℕ) (m : Mem) → Ends (Found m) P (page_lookup pgdir va m)
unfolding page_lookup
page_lookup_reads P pgdir va m =
    Ends-bind (λ _ s. s ≡ m) (Found m) P (pgdir_walk pgdir va false m) _ (walk_reads P pgdir va m)
      λ pte s e. rw e (lookup_at_reads P m pte)

-- A found page was found in the state that the search leaves.
Found-here : (m s : Mem) (found : Option (ℕ × ℕ)) → Found m found s → (s ≡ m) × Found s found s
Found-here m s none f = (f, refl)
Found-here m s (some (p, a)) f = (f.0, (refl, rw f.0 f.1, rw f.0 f.2))

dropped-IsFreeOk :
    (p : ℕ) (m : Mem) → p < m.npage → 0 < m.ref p → IsFreeOk m → IsFreeOk (dropped m p)
dropped-IsFreeOk p m i r h =
    let u = AllFree-used m.ref m.npage p m.free r h in
    let k = AllFree-update m.ref m.npage p (m.ref p - 1) m.free u h in
    elim (Bool-cases (m.ref p - 1 == 0)) [
      | inl z ↦ rw z (i, ground (arith, ==-refl p), u, k)
      | inr z ↦ rw z k
    ]

dropped-used :
    (q p : ℕ) (m : Mem) → p ≢ q → elem q m.free ≡ false → elem q (dropped m p).free ≡ false
dropped-used q p m n h = pushed_kept q p (m.ref p - 1) m.free n h

pub page_decref-IsFreeOk :
    (p : ℕ) (m : Mem) → p < m.npage → IsFreeOk m → Ends (λ _. IsFreeOk) IsFreeOk (page_decref p m)
page_decref-IsFreeOk p m i h = elim (dec_lt 0 (m.ref p)) [
  | yes r ↦ rw (page_decref_lem m p r) (dropped-IsFreeOk p m i r h)
  | no r ↦ rw (page_decref_zero m p (omega arith)) tt
]

pub page_decref-IsKept :
    (q p : ℕ) (m : Mem)
    → p < m.npage
    → p ≢ q
    → IsKept q m
    → Ends (λ _. IsKept q) (IsKept q) (page_decref p m)
page_decref-IsKept q p m i n h = elim (dec_lt 0 (m.ref p)) [
  | yes r ↦
      rw (page_decref_lem m p r) (record {
        free_ok = dropped-IsFreeOk p m i r h.free_ok;
        used = dropped-used q p m n h.used;
      })
  | no r ↦ rw (page_decref_zero m p (omega arith)) tt
]

module _ (asid va : ℕ) where
  remove_at-IsFreeOk :
      (m : Mem) (found : Option (ℕ × ℕ))
      → Found m found m
      → IsFreeOk m
      → Ends (λ _. IsFreeOk) IsFreeOk (remove_at asid va found m)
  unfolding remove_at
  remove_at-IsFreeOk m none f h = h
  remove_at-IsFreeOk m (some (p, a)) f h =
      Ends-bind (λ _. IsFreeOk) _ IsFreeOk (page_decref p m) _ (page_decref-IsFreeOk p m f.1 h)
        (λ _ s k. k)

  -- page_remove keeps a well-formed free list well formed, on every branch and for any page table.
  pub page_remove-IsFreeOk :
      (pgdir : ℕ) (m : Mem)
      → IsFreeOk m
      → Ends (λ _. IsFreeOk) IsFreeOk (page_remove pgdir asid va m)
  unfolding page_remove
  page_remove-IsFreeOk pgdir m h =
      Ends-bind (Found m) _ IsFreeOk (page_lookup pgdir va m) _ (page_lookup_reads _ pgdir va m)
        λ found s f. let (e, g) = Found-here m s found f in remove_at-IsFreeOk s found g (rw e h)

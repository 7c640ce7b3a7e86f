-- ===== src/Pmap/Free.antt =====
-- The free list of pages: its pages exist, stand in it once, and have no reference.
pub mod Calls
pub mod Insert
use run_mos_on_risc_v.Prelude.{
  ℕ, ◌<◌, ◌-◌, ◌≤◌, ◌≡◌, ◌≢◌, refl, Bool, true, false, Option, none, some, List, [], ◌∷◌, elem,
  update, ◌==◌, ltb, if◌then◌else◌, arith, Bool-cases, inl, inr,
}
use run_mos_on_risc_v.Prelude.Proc.{Run, ok, Ends, Ends-bind, err}
use run_mos_on_risc_v.Mmu.{pa2idx, page2pa, is_valid, pte_addr}
use run_mos_on_risc_v.Pmap.{
  Mem, alloc_from, page_alloc, page_decref, install_table, walk_entry, pgdir_walk, page_lookup,
  page_remove, page_insert, lookup_at, remove_at,
}

abbrev pub AllFree : (ℕ → ℕ) → ℕ → List ℕ → Type 0
AllFree ref npage [] = Unit {0}
AllFree ref npage (p ∷ ps) = (p < npage) × (ref p ≡ 0) × (elem p ps ≡ false) × AllFree ref npage ps

abbrev pub IsFreeOk : Mem → Type 0
IsFreeOk m = AllFree m.ref m.npage m.free

pub AllFree-head :
    (ref : ℕ → ℕ) (npage p : ℕ) (free ps : List ℕ)
    → free ≡ p ∷ ps
    → AllFree ref npage free
    → (p < npage) × (ref p ≡ 0) × (elem p ps ≡ false) × AllFree ref npage ps
AllFree-head ref npage p free ps e h = rw e at h

-- The count of a page that is in use may change.
pub AllFree-update :
    (ref : ℕ → ℕ) (npage p r : ℕ) (free : List ℕ)
    → elem p free ≡ false
    → AllFree ref npage free
    → AllFree (update ref p r) npage free
AllFree-update ref npage p r [] u h = tt
AllFree-update ref npage p r (x ∷ xs) u h = ground (arith, AllFree-update ref npage p r xs)

-- A page with a reference is in use.
pub AllFree-used :
    (ref : ℕ → ℕ) (npage p : ℕ) (free : List ℕ)
    → 0 < ref p
    → AllFree ref npage free
    → elem p free ≡ false
AllFree-used ref npage p [] r h = refl
AllFree-used ref npage p (x ∷ xs) r h = ground (arith, AllFree-used ref npage p xs r)

-- The free list is well formed, and page q is not on it.
pub record IsKept (q : ℕ) (m : Mem) : Type 0 where
  pub free_ok : IsFreeOk m
  pub used : elem q m.free ≡ false

alloc_from-IsKept :
    (q : ℕ) (m : Mem) (free : List ℕ)
    → m.free ≡ free
    → IsKept q m
    → Ends (λ t s. IsKept q s × (elem t s.free ≡ false) × (t ≢ q)) (IsKept q) (alloc_from free m)
unfolding alloc_from
alloc_from-IsKept q m [] e h = h
alloc_from-IsKept q m (t ∷ rest) e h =
    let u : elem q (t ∷ rest) ≡ false = rw e at h.used in
    ground (arith, AllFree-head m.ref m.npage t m.free rest e h.free_ok)

pub page_alloc-IsKept :
    (q : ℕ) (m : Mem)
    → IsKept q m
    → Ends (λ t s. IsKept q s × (elem t s.free ≡ false) × (t ≢ q)) (IsKept q) (page_alloc m)
unfolding page_alloc
page_alloc-IsKept q m h = alloc_from-IsKept q m m.free refl h

pub install_table-IsKept :
    (q pgdir va : ℕ) (m : Mem)
    → IsKept q m
    → Ends (λ _. IsKept q) (IsKept q) (install_table pgdir va m)
unfolding install_table
install_table-IsKept q pgdir va m h =
    Ends-bind _ _ (IsKept q) (page_alloc m) _ (page_alloc-IsKept q m h) λ t s k. record {
      free_ok = AllFree-update s.ref s.npage t 1 s.free k.1 k.0.free_ok;
      used = k.0.used;
    }

-- ===== src/Pmap/Safe.antt =====
-- kern/pmap.c: the pointers that the operations on page tables follow.
use run_mos_on_risc_v.Prelude.{
  ℕ, ◌-◌, true, false, Option, none, some, List, [], ◌∷◌, inl, inr, Bool-cases, ltb, ◌==◌, update,
}
use run_mos_on_risc_v.Prelude.Proc.{
  Run, ok, err, left, panic, wild, Proc, and_then, IsSafe, IsSafe-then,
}
use run_mos_on_risc_v.Mmu.{pa2idx, page2pa, is_valid, pte_addr}
use run_mos_on_risc_v.Pmap.{
  Mem, kaddr, pa2page, alloc_from, page_alloc, page_free, page_decref, install_table, walk_entry,
  pgdir_walk, pde_of, lookup_at, page_lookup, remove_at, page_remove, write_entry, insert_new,
  insert_over, page_insert, readable, va2pa,
}

pub kaddr-IsSafe : (pa : ℕ) (m : Mem) → IsSafe (kaddr pa m)
unfolding kaddr
kaddr-IsSafe pa m = elim (Bool-cases (ltb (pa2idx pa) m.npage)) [
  | inl b ↦ rw b tt
  | inr b ↦ rw b tt
]

pub pa2page-IsSafe : (pa : ℕ) (m : Mem) → IsSafe (pa2page pa m)
unfolding pa2page
pa2page-IsSafe pa m = elim (Bool-cases (ltb (pa2idx pa) m.npage)) [
  | inl b ↦ rw b tt
  | inr b ↦ rw b tt
]

alloc_from-IsSafe : (free : List ℕ) (m : Mem) → IsSafe (alloc_from free m)
unfolding alloc_from
alloc_from-IsSafe [] m = tt
alloc_from-IsSafe (pp ∷ rest) m =
    IsSafe-then (kaddr (page2pa pp) (record m { free = rest })) _ (kaddr-IsSafe (page2pa pp) _)
      (λ a s. tt)

pub page_alloc-IsSafe : (m : Mem) → IsSafe (page_alloc m)
unfolding page_alloc
page_alloc-IsSafe m = alloc_from-IsSafe m.free m

page_free-IsSafe : (pp : ℕ) (m : Mem) → IsSafe (page_free pp m)
unfolding page_free
page_free-IsSafe pp m = elim (Bool-cases (m.ref pp == 0)) [ inl b ↦ rw b tt | inr b ↦ rw b tt ]

pub page_decref-IsSafe : (pp : ℕ) (m : Mem) → IsSafe (page_decref pp m)
unfolding page_decref
page_decref-IsSafe pp m = elim (Bool-cases (ltb 0 (m.ref pp))) [
  | inr b ↦ rw b tt
  | inl b ↦ rw b (elim (Bool-cases (m.ref pp - 1 == 0)) [
    | inl z ↦ rw z (page_free-IsSafe pp (record m { ref = update m.ref pp (m.ref pp - 1) }))
    | inr z ↦ rw z tt
  ])
]

install_table-IsSafe : (pgdir va : ℕ) (m : Mem) → IsSafe (install_table pgdir va m)
unfolding install_table
install_table-IsSafe pgdir va m = IsSafe-then (page_alloc m) _ (page_alloc-IsSafe m) (λ a s. tt)

-- The result of a walk that creates: it is no null pointer.
abbrev GivesEntry : Run Mem (Option ℕ) → Type 0
GivesEntry (ok none s) = ⊥
GivesEntry wild = ⊥
GivesEntry other = Unit {0}

GivesEntry-then {ℓ} :
    {A : Type ℓ} (r : Run Mem A) (k : A → Proc Mem (Option ℕ))
    → IsSafe r
    → ((a : A) (s : Mem) → GivesEntry (k a s))
    → GivesEntry (and_then r k)
GivesEntry-then (ok a s) k h f = f a s
GivesEntry-then (err e s) k h f = tt
GivesEntry-then (left s) k h f = tt
GivesEntry-then panic k h f = tt
GivesEntry-then wild k h f = absurd h

walk_entry-GivesEntry : (pgdir va : ℕ) (m : Mem) → GivesEntry (walk_entry pgdir va m)
unfolding walk_entry
walk_entry-GivesEntry pgdir va m =
    GivesEntry-then (kaddr (pte_addr (m.word (pde_of pgdir va))) m) _ (kaddr-IsSafe _ m) (λ a s. tt)

GivesEntry-IsSafe : (r : Run Mem (Option ℕ)) → GivesEntry r → IsSafe r
GivesEntry-IsSafe (ok none s) h = tt
GivesEntry-IsSafe (ok (some a) s) h = tt
GivesEntry-IsSafe (err e s) h = tt
GivesEntry-IsSafe (left s) h = tt
GivesEntry-IsSafe panic h = tt
GivesEntry-IsSafe wild h = h

pgdir_walk-GivesEntry : (pgdir va : ℕ) (m : Mem) → GivesEntry (pgdir_walk pgdir va true m)
unfolding pgdir_walk
pgdir_walk-GivesEntry pgdir va m = elim (Bool-cases (is_valid (m.word (pde_of pgdir va)))) [
  | inl v ↦ rw v (walk_entry-GivesEntry pgdir va m)
  | inr v ↦ rw v (
      GivesEntry-then (install_table pgdir va m) _ (install_table-IsSafe pgdir va m)
        (λ _ s. walk_entry-GivesEntry pgdir va s))
]

pub pgdir_walk-IsSafe : (pgdir va : ℕ) (m : Mem) → IsSafe (pgdir_walk pgdir va false m)
unfolding pgdir_walk
pgdir_walk-IsSafe pgdir va m = elim (Bool-cases (is_valid (m.word (pde_of pgdir va)))) [
  | inl v ↦ rw v (GivesEntry-IsSafe _ (walk_entry-GivesEntry pgdir va m))
  | inr v ↦ rw v tt
]

lookup_at-IsSafe : (pte : Option ℕ) (m : Mem) → IsSafe (lookup_at pte m)
unfolding lookup_at
lookup_at-IsSafe none m = tt
lookup_at-IsSafe (some a) m = elim (Bool-cases (is_valid (m.word a))) [
  | inr v ↦ rw v tt
  | inl v ↦ rw v (IsSafe-then (pa2page (pte_addr (m.word a)) m) _ (pa2page-IsSafe _ m) (λ pp s. tt))
]

pub page_lookup-IsSafe : (pgdir va : ℕ) (m : Mem) → IsSafe (page_lookup pgdir va m)
unfolding page_lookup
page_lookup-IsSafe pgdir va m =
    IsSafe-then (pgdir_walk pgdir va false m) _ (pgdir_walk-IsSafe pgdir va m) lookup_at-IsSafe

remove_at-IsSafe :
    (asid va : ℕ) (found : Option (ℕ × ℕ)) (m : Mem) → IsSafe (remove_at asid va found m)
unfolding remove_at
remove_at-IsSafe asid va none m = tt
remove_at-IsSafe asid va (some (pp, pte)) m =
    IsSafe-then (page_decref pp m) _ (page_decref-IsSafe pp m) (λ _ s. tt)

pub page_remove-IsSafe : (pgdir asid va : ℕ) (m : Mem) → IsSafe (page_remove pgdir asid va m)
unfolding page_remove
page_remove-IsSafe pgdir asid va m =
    IsSafe-then (page_lookup pgdir va m) _ (page_lookup-IsSafe pgdir va m)
      (remove_at-IsSafe asid va)

module _ (pgdir asid pp va perm : ℕ) where
  written-IsSafe :
      (r : Run Mem (Option ℕ)) → GivesEntry r → IsSafe (and_then r (write_entry pgdir asid pp perm))
  unfolding write_entry
  written-IsSafe (ok none s) h = absurd h
  written-IsSafe (ok (some a) s) h = tt
  written-IsSafe (err e s) h = tt
  written-IsSafe (left s) h = tt
  written-IsSafe panic h = tt
  written-IsSafe wild h = absurd h

  insert_new-IsSafe : (m : Mem) → IsSafe (insert_new pgdir asid pp va perm m)
  unfolding insert_new
  insert_new-IsSafe m =
      written-IsSafe (pgdir_walk pgdir va true m) (pgdir_walk-GivesEntry pgdir va m)

  insert_over-IsSafe : (pte : Option ℕ) (m : Mem) → IsSafe (insert_over pgdir asid pp va perm pte m)
  unfolding insert_over
  insert_over-IsSafe none m = insert_new-IsSafe m
  insert_over-IsSafe (some a) m = elim (Bool-cases (is_valid (m.word a))) [
    | inr v ↦ rw v (insert_new-IsSafe m)
    | inl v ↦ rw v (
        IsSafe-then (pa2page (pte_addr (m.word a)) m) _ (pa2page-IsSafe _ m) λ old s.
          elim (Bool-cases (old == pp)) [
            | inl e ↦ rw e tt
            | inr e ↦ rw e (
                IsSafe-then (page_remove pgdir asid va s) _ (page_remove-IsSafe pgdir asid va s)
                  (λ _ t. insert_new-IsSafe t))
          ])
  ]

-- Behind the second walk of page_insert there is always an entry to write.
pub page_insert-IsSafe :
    (pgdir asid pp va perm : ℕ) (m : Mem) → IsSafe (page_insert pgdir asid pp va perm m)
unfolding page_insert
page_insert-IsSafe pgdir asid pp va perm m =
    IsSafe-then (pgdir_walk pgdir va false m) _ (pgdir_walk-IsSafe pgdir va m)
      (insert_over-IsSafe pgdir asid pp va (readable perm))

pub va2pa-IsSafe : (pgdir va : ℕ) (m : Mem) → IsSafe (va2pa pgdir va m)
unfolding va2pa
va2pa-IsSafe pgdir va m = elim (Bool-cases (is_valid (m.word (pde_of pgdir va)))) [
  | inr v ↦ rw v tt
  | inl v ↦
      rw v (
        IsSafe-then (kaddr (pte_addr (m.word (pde_of pgdir va))) m) _ (kaddr-IsSafe _ m)
          (λ a s. tt))
]

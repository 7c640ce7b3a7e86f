-- ===== src/Pmap/Install.antt =====
-- A directory that has got a new table is still one whose tables are apart.
use native.Mathlib.Decide.{ℕ_discrete}
use run_mos_on_risc_v.Prelude.{
  ℕ, ◌<◌, ◌≡◌, ◌≢◌, ◌⊎◌, sym, ap, ◌∙◌, true, false, List, ◌∷◌, inl, inr, arith, elem,
}
use run_mos_on_risc_v.Mmu.{pa2idx, pte_addr, is_valid}
use run_mos_on_risc_v.Pmap.{Mem}
use run_mos_on_risc_v.Pmap.Entries.{pde, table, IsTable}
use run_mos_on_risc_v.Pmap.Walk.{installed, with_table}
use run_mos_on_risc_v.Pmap.Frames.{IsFresh, pde-with_table_ne, table-with_table_self}

elem_tail :
    (a t : ℕ) (free rest : List ℕ) → free ≡ t ∷ rest → elem a free ≡ false → elem a rest ≡ false
elem_tail a t free rest e h = let h' : elem a (t ∷ rest) ≡ false = rw e at h in ground arith

elem_ne : (a t : ℕ) (free rest : List ℕ) → free ≡ t ∷ rest → elem a free ≡ false → t ≢ a
elem_ne a t free rest e h p = let h' : elem a (t ∷ rest) ≡ false = rw e at h in ground arith

module _ (m : Mem) (d i t : ℕ) (rest : List ℕ) (w : IsTable m d) (hi : i < 1024)
    (absent : is_valid (pde m.word d i) ≡ false) (off : m.free ≡ t ∷ rest) (fits : t < m.npage)
    (once : elem t rest ≡ false) where
  -- A page of the free list is no page of the directory.
  pub free-IsFresh : IsFresh m d t
  free-IsFresh = record {
    fits = fits;
    ne_root = elem_ne d t m.free rest off w.root_used;
    ne_table = λ j hj v. elem_ne _ t m.free rest off (w.table_used j hj v);
  }

  abbrev after : ℕ → ℕ
  after = with_table m.word d i t

  abbrev Shape : ℕ → Type 0
  Shape j =
      ((i ≡ j) × (table after d j ≡ t))
      ⊎ ((i ≢ j) × (is_valid (pde m.word d j) ≡ true) × (table after d j ≡ table m.word d j))

  shape : (j : ℕ) → j < 1024 → is_valid (pde after d j) ≡ true → Shape j
  shape j hj vv = elim (ℕ_discrete i j) [
    | yes e ↦ inl (e, rw (← e) (table-with_table_self m d i t w free-IsFresh hi absent))
    | no n ↦
        let s = pde-with_table_ne m d i t w free-IsFresh hi absent j hj n in
        inr (n, rw s at vv, ap (λ x. pa2idx (pte_addr x)) s)
  ]

  -- One fact about each table: it is the new page, or one of the old tables.
  by_shape {ℓ} :
      (P : ℕ → Type ℓ) (j : ℕ)
      → j < 1024
      → P t
      → ((is_valid (pde m.word d j) ≡ true) → P (table m.word d j))
      → is_valid (pde after d j) ≡ true
      → P (table after d j)
  by_shape P j hj new old vv = elim (shape j hj vv) [
    | inl (_, e) ↦ rw e new
    | inr (_, v, e) ↦ rw e (old v)
  ]

  pub installed-IsTable : IsTable (installed m d i t rest) d
  installed-IsTable = record {
    span = w.span;
    root_in = w.root_in;
    root_used = elem_tail d t m.free rest off w.root_used;
    table_in = λ j hj vv. by_shape (λ x. x < m.npage) j hj fits (w.table_in j hj) vv;
    table_ne_root =
        λ j hj vv. by_shape (λ x. x ≢ d) j hj free-IsFresh.ne_root (w.table_ne_root j hj) vv;
    table_used = λ j hj vv.
        by_shape (λ x. elem x rest ≡ false) j hj once
          (λ v. elem_tail _ t m.free rest off (w.table_used j hj v)) vv;
    tables_apart = apart;
  }
    where
      apart :
          (j k : ℕ)
          → j < 1024
          → k < 1024
          → j ≢ k
          → is_valid (pde after d j) ≡ true
          → is_valid (pde after d k) ≡ true
          → table after d j ≢ table after d k
      apart j k hj hk n vj vk = elim (shape j hj vj) [
        | inl (ej, tj) ↦ elim (shape k hk vk) [
          | inl (ek, tk) ↦ absurd (n (sym ej ∙ ek))
          | inr (_, v, tk) ↦ rw (tj, tk) (free-IsFresh.ne_table k hk v)
        ]
        | inr (_, v, tj) ↦ elim (shape k hk vk) [
          | inl (ek, tk) ↦ rw (tj, tk) (λ p. free-IsFresh.ne_table j hj v (sym p))
          | inr (_, v', tk) ↦ rw (tj, tk) (w.tables_apart j k hj hk n v v')
        ]
      ]

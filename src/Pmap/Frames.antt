-- ===== src/Pmap/Frames.antt =====
-- How the writes of page_insert and page_remove show in the abstract view of a page table.
use run_mos_on_risc_v.Prelude.{
  ℕ, ◌<◌, ◌≡◌, ◌≢◌, ◌⊎◌, sym, ◌∙◌, true, false, none, bit_or, Bool-cases, inl, inr, update, ==-refl,
  lt_le_trans, ◌==◌,
}
use run_mos_on_risc_v.Mmu.{pdx, ptx, page2pa, addr_pte, is_valid}
use run_mos_on_risc_v.Pmap.{Mem}
use native.Mathlib.Decide.{ℕ_discrete}
use run_mos_on_risc_v.Pmap.Slot.{
  slot, slot_ne, pa2idx-page2pa, fill_self, fill_ne, pdx-lt, ptx-lt, max_pages,
}
use run_mos_on_risc_v.Pmap.Entries.{pde, table, place, entry, valid_entry, IsTable}
use run_mos_on_risc_v.Pmap.Walk.{with_table, new_table_addr, new_table_valid}

-- Two addresses of different pages.
abbrev pub Apart : ℕ → ℕ → Type 0
Apart va vb = (pdx va ≢ pdx vb) ⊎ (ptx va ≢ ptx vb)

module _ (m : Mem) (d va : ℕ) (w : IsTable m d) (v : is_valid (pde m.word d (pdx va)) ≡ true) where
  table_fits : table m.word d (pdx va) < max_pages
  table_fits = lt_le_trans (w.table_in (pdx va) (pdx-lt va) v) w.span

  root_fits : d < max_pages
  root_fits = lt_le_trans w.root_in w.span

  -- A write to an entry leaves the directory as it was.
  pub place_ne_pde : (i : ℕ) → i < 1024 → (place m.word d va == slot d i) ≡ false
  place_ne_pde i h =
      slot_ne _ _ _ _ table_fits root_fits (ptx-lt va) h
        (inl (w.table_ne_root (pdx va) (pdx-lt va) v))

  pub entry-write_self : (x : ℕ) → entry (update m.word (place m.word d va) x) d va ≡ valid_entry x
  entry-write_self x = rw (place_ne_pde (pdx va) (pdx-lt va), v, ==-refl (place m.word d va))

  place_other :
      (vb : ℕ)
      → Apart va vb
      → is_valid (pde m.word d (pdx vb)) ≡ true
      → (place m.word d va == place m.word d vb) ≡ false
  place_other vb a vv = slot_ne _ _ _ _ table_fits fits (ptx-lt va) (ptx-lt vb) (differ a)
    where
      fits : table m.word d (pdx vb) < max_pages
      fits = lt_le_trans (w.table_in (pdx vb) (pdx-lt vb) vv) w.span

      differ : Apart va vb → (table m.word d (pdx va) ≢ table m.word d (pdx vb)) ⊎ (ptx va ≢ ptx vb)
      differ (inl p) = inl (w.tables_apart (pdx va) (pdx vb) (pdx-lt va) (pdx-lt vb) p v vv)
      differ (inr p) = inr p

  pub entry-write_ne :
      (x vb : ℕ)
      → Apart va vb
      → entry (update m.word (place m.word d va) x) d vb ≡ entry m.word d vb
  entry-write_ne x vb a = elim (Bool-cases (is_valid (pde m.word d (pdx vb)))) [
    | inl vv ↦ rw (place_ne_pde (pdx vb) (pdx-lt vb), vv, place_other vb a vv)
    | inr vv ↦ rw (place_ne_pde (pdx vb) (pdx-lt vb), vv)
  ]

-- The directory entry k is cleared: what lies under it is gone, all else stays.
module _ (m : Mem) (d k : ℕ) (w : IsTable m d) (hk : k < 1024) where
  pub clear_ne : (i : ℕ) → i < 1024 → k ≢ i → (slot d k == slot d i) ≡ false
  clear_ne i h n = let fits = lt_le_trans w.root_in w.span in slot_ne _ _ _ _ fits fits hk h (inr n)

  clear_ne_table :
      (vb : ℕ) → is_valid (pde m.word d (pdx vb)) ≡ true → (slot d k == place m.word d vb) ≡ false
  clear_ne_table vb vv =
      slot_ne _ _ _ _ (lt_le_trans w.root_in w.span)
        (lt_le_trans (w.table_in (pdx vb) (pdx-lt vb) vv) w.span) hk (ptx-lt vb)
        (inl (λ e. w.table_ne_root (pdx vb) (pdx-lt vb) vv (sym e)))

  pub entry-clear_ne :
      (vb : ℕ) → k ≢ pdx vb → entry (update m.word (slot d k) 0) d vb ≡ entry m.word d vb
  entry-clear_ne vb n = elim (Bool-cases (is_valid (pde m.word d (pdx vb)))) [
    | inl vv ↦ rw (clear_ne (pdx vb) (pdx-lt vb) n, vv, clear_ne_table vb vv)
    | inr vv ↦ rw (clear_ne (pdx vb) (pdx-lt vb) n, vv)
  ]

-- Page t is fit to become a table of the directory in page d.
pub record IsFresh (m : Mem) (d t : ℕ) : Type 0 where
  pub fits : t < m.npage
  pub ne_root : t ≢ d
  pub ne_table : (i : ℕ) → i < 1024 → is_valid (pde m.word d i) ≡ true → t ≢ table m.word d i

module _ (m : Mem) (d i t : ℕ) (w : IsTable m d) (f : IsFresh m d t) (hi : i < 1024)
    (absent : is_valid (pde m.word d i) ≡ false) where
  t_fits : t < max_pages
  t_fits = lt_le_trans f.fits w.span

  d_fits : d < max_pages
  d_fits = lt_le_trans w.root_in w.span

  pub pde-with_table_ne :
      (j : ℕ) → j < 1024 → i ≢ j → pde (with_table m.word d i t) d j ≡ pde m.word d j
  pde-with_table_ne j hj n =
      rw (slot_ne d i d j d_fits d_fits hi hj (inr n))
        (fill_ne t d j 0 m.word t_fits d_fits hj f.ne_root)

  pub pde-with_table_self : pde (with_table m.word d i t) d i ≡ bit_or (addr_pte (page2pa t)) 1
  pde-with_table_self = rw (==-refl (slot d i))

  pub table-with_table_self : table (with_table m.word d i t) d i ≡ t
  table-with_table_self =
      rw (pde-with_table_self, new_table_addr t t_fits) (pa2idx-page2pa t t_fits)

  entry-with_table_at : (vb : ℕ) → pdx vb ≡ i → entry (with_table m.word d i t) d vb ≡ none
  entry-with_table_at vb e = rw (
    e,
    ==-refl (slot d i),
    new_table_valid t,
    new_table_addr t t_fits,
    pa2idx-page2pa t t_fits,
    slot_ne d i t (ptx vb) d_fits t_fits hi (ptx-lt vb) (inl (λ p. f.ne_root (sym p))),
    fill_self t (ptx vb) 0 m.word t_fits (ptx-lt vb),
  )

  entry-with_table_off :
      (vb : ℕ) → i ≢ pdx vb → entry (with_table m.word d i t) d vb ≡ entry m.word d vb
  entry-with_table_off vb n = elim (Bool-cases (is_valid (pde m.word d (pdx vb)))) [
    | inl vv ↦
        let u_fits = lt_le_trans (w.table_in (pdx vb) (pdx-lt vb) vv) w.span in
        rw (
          pde-with_table_ne (pdx vb) (pdx-lt vb) n,
          vv,
          slot_ne d i _ (ptx vb) d_fits u_fits hi (ptx-lt vb)
              (inl (λ p. w.table_ne_root (pdx vb) (pdx-lt vb) vv (sym p))),
          fill_ne t _ (ptx vb) 0 m.word t_fits u_fits (ptx-lt vb)
              (f.ne_table (pdx vb) (pdx-lt vb) vv),
        )
    | inr vv ↦ rw (pde-with_table_ne (pdx vb) (pdx-lt vb) n, vv)
  ]

  -- A fresh table maps nothing: the abstract view is the same.
  pub entry-with_table : (vb : ℕ) → entry (with_table m.word d i t) d vb ≡ entry m.word d vb
  entry-with_table vb = elim (ℕ_discrete (pdx vb) i) [
    | yes e ↦ entry-with_table_at vb e ∙ sym (rw (e, absent))
    | no n ↦ entry-with_table_off vb (λ e. n (sym e))
  ]

-- ===== src/Pmap/Keep.antt =====
-- Writes that leave a directory one whose tables are apart: to its entries, and to its tables.
use run_mos_on_risc_v.Prelude.{ℕ, ◌<◌, ◌≡◌, ◌≢◌, refl, sym, ap, true, false, elem, update, ==-refl}
use native.Mathlib.Decide.{ℕ_discrete}
use mathlib.Core.Path.{subst}
use run_mos_on_risc_v.Mmu.{pdx, pa2idx, pte_addr, is_valid}
use run_mos_on_risc_v.Pmap.{Mem}
use run_mos_on_risc_v.Pmap.Slot.{slot}
use run_mos_on_risc_v.Pmap.Entries.{pde, table, place, IsTable}
use run_mos_on_risc_v.Pmap.Frames.{place_ne_pde, clear_ne}

module _ (m n : Mem) (d : ℕ) (w : IsTable m d) (size : n.npage ≡ m.npage)
    (same : (i : ℕ) → i < 1024 → is_valid (pde n.word d i) ≡ true → pde n.word d i ≡ pde m.word d i)
    (root_kept : elem d n.free ≡ false)
    (tables_kept : (i : ℕ)
      → i < 1024
      → is_valid (pde m.word d i) ≡ true
      → elem (table m.word d i) n.free ≡ false) where
  carry {ℓ} :
      (P : ℕ → Type ℓ) (i : ℕ)
      → i < 1024
      → (is_valid (pde m.word d i) ≡ true → P (table m.word d i))
      → is_valid (pde n.word d i) ≡ true
      → P (table n.word d i)
  carry P i hi f v =
      let e = same i hi v in
      subst P (ap (λ x. pa2idx (pte_addr x)) (sym e)) (f (subst (λ x. is_valid x ≡ true) e v))

  -- A directory whose valid entries were there before, with none of its pages freed.
  pub keep-IsTable : IsTable n d
  keep-IsTable = record {
    span = rw size w.span;
    root_in = rw size w.root_in;
    root_used = root_kept;
    table_in = λ i hi. carry (λ x. x < n.npage) i hi (λ v. rw size (w.table_in i hi v));
    table_ne_root = λ i hi. carry (λ x. x ≢ d) i hi (w.table_ne_root i hi);
    table_used = λ i hi. carry (λ x. elem x n.free ≡ false) i hi (tables_kept i hi);
    tables_apart = λ i j hi hj ne vi vj.
        carry (λ x. x ≢ table n.word d j) i hi
          (λ v. carry (λ y. table m.word d i ≢ y) j hj (w.tables_apart i j hi hj ne v) vj) vi;
  }

module _ (m : Mem) (d : ℕ) (w : IsTable m d) where
  -- An entry in a table is written.
  pub write-IsTable :
      (va x : ℕ)
      → is_valid (pde m.word d (pdx va)) ≡ true
      → IsTable (record m { word = update m.word (place m.word d va) x }) d
  write-IsTable va x v =
      keep-IsTable m (record m { word = update m.word (place m.word d va) x }) d w refl
        (λ i hi _. rw (place_ne_pde m d va w v i hi)) w.root_used w.table_used

  -- A directory entry is cleared.
  pub clear-IsTable :
      (k : ℕ) → k < 1024 → IsTable (record m { word = update m.word (slot d k) 0 }) d
  clear-IsTable k hk =
      keep-IsTable m (record m { word = update m.word (slot d k) 0 }) d w refl same w.root_used
        w.table_used
    where
      same :
          (i : ℕ)
          → i < 1024
          → is_valid (update m.word (slot d k) 0 (slot d i)) ≡ true
          → update m.word (slot d k) 0 (slot d i) ≡ pde m.word d i
      same i hi v = elim (ℕ_discrete k i) [
        | yes e ↦ let z : is_valid 0 ≡ true = rw (e, ==-refl (slot d i)) at v in cc
        | no n ↦ rw (clear_ne m d k w hk i hi n)
      ]

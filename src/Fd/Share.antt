-- ===== src/Fd/Share.antt =====
-- user/lib/fd.c: the loop of dup over the pages of data keeps the descriptors.
use run_mos_on_risc_v.Prelude.{
  ℕ, zero, suc, ◌+◌, ◌*◌, ◌/◌, ◌≤◌, ◌<◌, ◌≡◌, ◌≢◌, refl, Bool, true, false, arith, if◌then◌else◌,
  inl, inr, Bool-cases,
}
use run_mos_on_risc_v.Prelude.Proc.{Run, ok, err, left, panic, wild, and_then}
use run_mos_on_risc_v.Mmu.{by2pg}
use run_mos_on_risc_v.Fd.{Space, maxfd, index2data, has_table, entry_of, shared, map_va}
use run_mos_on_risc_v.Fd.Device.{share_page, share_page, share_pages, share_data}
use run_mos_on_risc_v.Fd.Keeps.{
  Same, KeepsFd, then-KeepsFd, from-KeepsFd, page_of, shared-Same, Maps, map_va-Maps,
}

pub tables-Same : (i : ℕ) (s t u : Space) → u.vpd ≡ t.vpd → u.vpt ≡ t.vpt → Same i s t → Same i s u
tables-Same i s t u d p h = record {
  table = rw d h.table;
  entry = rw p h.entry;
  frame = rw p h.frame;
}

pub map_va-KeepsFd :
    (i src dst : ℕ) (s : Space)
    → dst / by2pg ≢ page_of i
    → Same i s s
    → KeepsFd i s (map_va src dst s)
map_va-KeepsFd i src dst s ne h =
    from_maps (map_va src dst s) (map_va-Maps s.answers src dst s refl)
  where
    from_maps : (r : Run Space (Unit {0})) → Maps src dst s r → KeepsFd i s r
    from_maps (ok u t) (_, d, p) =
        tables-Same i s (shared src dst s) t d p (shared-Same i src dst s ne h)
    from_maps (err e t) (d, p) = tables-Same i s s t d p h
    from_maps (left t) m = tt
    from_maps panic m = tt
    from_maps wild m = tt

-- What remains mapped in a later state is mapped there.
pub Same-later : (i : ℕ) (s t : Space) → Same i s t → Same i t t
Same-later i s t h = record { table = h.table; entry = h.entry; frame = refl }

-- The pages of the data of a descriptor are no descriptors.
pub data_page :
    (i new k : ℕ)
    → i < maxfd
    → new < maxfd
    → k < 1024
    → (index2data new + k * by2pg) / by2pg ≢ page_of i
data_page i new k h g l = λ e. omega arith

share_page-KeepsFd :
    (valid : Bool) (i src dst : ℕ) (s : Space)
    → dst / by2pg ≢ page_of i
    → Same i s s
    → KeepsFd i s (share_page valid src dst s)
unfolding share_page
share_page-KeepsFd true i src dst s ne h = map_va-KeepsFd i src dst s ne h
share_page-KeepsFd false i src dst s ne h = h

share_pages_step :
    (n i ova nva : ℕ) (s : Space)
    → share_pages (suc n) i ova nva s
      ≡ and_then
          (share_page (entry_of (ova + i * by2pg) s).valid (ova + i * by2pg) (nva + i * by2pg) s)
          (λ _. share_pages n (i + 1) ova nva)
unfolding share_pages
share_pages_step n i ova nva s = refl

share_pages-none : (i ova nva : ℕ) (s : Space) → share_pages zero i ova nva s ≡ ok tt s
unfolding share_pages
share_pages-none i ova nva s = refl

share_pages-KeepsFd :
    (n k i ova new : ℕ) (s : Space)
    → i < maxfd
    → new < maxfd
    → k + n ≤ 1024
    → Same i s s
    → KeepsFd i s (share_pages n k ova (index2data new) s)
share_pages-KeepsFd zero k i ova new s h g l m = rw (share_pages-none k ova (index2data new) s) m
share_pages-KeepsFd (suc n) k i ova new s h g l m =
    rw (share_pages_step n k ova (index2data new) s) (
      then-KeepsFd i s (share_page _ _ (index2data new + k * by2pg) s) _
        (share_page-KeepsFd _ i _ _ s (data_page i new k h g (omega arith)) m)
        λ _ t q.
          from-KeepsFd i s t _ q
            (share_pages-KeepsFd n (k + 1) i ova new t h g (omega arith) (Same-later i s t q)))

share_data-eq :
    (ova nva : ℕ) (s : Space)
    → share_data ova nva s
      ≡ (if has_table ova s then share_pages 1024 0 ova nva else (λ t. ok tt t)) s
unfolding share_data
share_data-eq ova nva s = refl

pub share_data-KeepsFd :
    (i ova new : ℕ) (s : Space)
    → i < maxfd
    → new < maxfd
    → Same i s s
    → KeepsFd i s (share_data ova (index2data new) s)
share_data-KeepsFd i ova new s h g m =
    rw (share_data-eq ova (index2data new) s) (elim (Bool-cases (has_table ova s)) [
      | inl v ↦ rw v (share_pages-KeepsFd 1024 0 i ova new s h g (omega arith) m)
      | inr v ↦ rw v m
    ])

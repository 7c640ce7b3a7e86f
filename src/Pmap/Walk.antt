-- ===== src/Pmap/Walk.antt =====
-- pgdir_walk, page_lookup and va2pa: what they return on every branch.
use run_mos_on_risc_v.Prelude.{
  ℕ, ◌*◌, ◌/◌, ◌%◌, ◌≤◌, ◌<◌, ◌≡◌, Bool, true, false, none, some, List, [], ◌∷◌, bit_or, arith,
  lt_le_trans, lt→ltb, update, ==-refl,
}
use run_mos_on_risc_v.Prelude.Proc.{ok, err, no_mem}
use run_mos_on_risc_v.Prelude.Bits.{bit_or-div_1024, bit_or-zero, test_bit-bit_or}
use run_mos_on_risc_v.Mmu.{pdx, ptx, page2pa, pte_addr, addr_pte, is_valid}
use run_mos_on_risc_v.Pmap.{Mem, fill, page_alloc, alloc_from, walk_entry, pgdir_walk, kaddr}
use run_mos_on_risc_v.Pmap.Slot.{slot, pdx-lt, page2pa-pa2idx, pa2idx-page2pa, max_pages}
use run_mos_on_risc_v.Pmap.Entries.{pde, table, place, IsTable}

module _ (m : Mem) (d va : ℕ) (w : IsTable m d) where
  -- The table of a valid entry is where KADDR says.
  pub walk_table :
      is_valid (pde m.word d (pdx va)) ≡ true
      → kaddr (pte_addr (pde m.word d (pdx va))) m ≡ ok (page2pa (table m.word d (pdx va))) m
  unfolding kaddr
  walk_table v =
      let in_range = w.table_in (pdx va) (pdx-lt va) v in
      rw (
        lt→ltb _ _ in_range,
        page2pa-pa2idx (pde m.word d (pdx va)) (omega (arith, w.span, in_range)),
      )

  walk_entry_lem :
      is_valid (pde m.word d (pdx va)) ≡ true
      → walk_entry (page2pa d) va m ≡ ok (some (place m.word d va)) m
  unfolding walk_entry
  walk_entry_lem v = rw (walk_table v)

  -- A walk to a present table gives the address of the entry and changes nothing.
  pub pgdir_walk_present :
      (create : Bool)
      → is_valid (pde m.word d (pdx va)) ≡ true
      → pgdir_walk (page2pa d) va create m ≡ ok (some (place m.word d va)) m
  unfolding pgdir_walk
  pgdir_walk_present create v = rw v (walk_entry_lem v)

  pub pgdir_walk_absent :
      is_valid (pde m.word d (pdx va)) ≡ false → pgdir_walk (page2pa d) va false m ≡ ok none m
  unfolding pgdir_walk
  pgdir_walk_absent v = rw v

-- Memory with a cleared page t put under entry i of the directory in page d.
abbrev pub with_table : (ℕ → ℕ) → ℕ → ℕ → ℕ → ℕ → ℕ
with_table word d i t =
    update (fill (page2pa t) 0 4096 word) (slot d i) (bit_or (addr_pte (page2pa t)) 1)

-- The state behind a new table in page t for entry i of the directory in page d.
abbrev pub installed : Mem → ℕ → ℕ → ℕ → List ℕ → Mem
installed m d i t rest = record m {
  word = with_table m.word d i t;
  ref = update m.ref t 1;
  free = rest;
}

pub page_alloc_lem :
    (m : Mem) (t : ℕ) (rest : List ℕ)
    → m.free ≡ t ∷ rest
    → t < m.npage
    → m.npage ≤ max_pages
    → page_alloc m ≡ ok t (record m { word = fill (page2pa t) 0 4096 m.word; free = rest })
unfolding page_alloc
page_alloc_lem m t rest e h s =
    rw (e, page_alloc, alloc_from, pa2idx-page2pa t (omega arith), lt→ltb _ _ h)

pub page_alloc_none : (m : Mem) → m.free ≡ [] → page_alloc m ≡ err no_mem m
unfolding page_alloc
page_alloc_none m e = rw (e, page_alloc, alloc_from)

pub new_table_addr :
    (t : ℕ) → t < max_pages → pte_addr (bit_or (addr_pte (page2pa t)) 1) ≡ page2pa t
unfolding pte_addr addr_pte page2pa
new_table_addr t h =
    let e = bit_or-div_1024 (page2pa t / 4096 * 1024 % 0x1_0000_0000) 1 in
    let z = bit_or-zero (page2pa t / 4096 * 1024 % 0x1_0000_0000 / 1024) in omega (arith, e, z)

pub new_table_valid : (t : ℕ) → is_valid (bit_or (addr_pte (page2pa t)) 1) ≡ true
new_table_valid t = ground (arith, test_bit-bit_or (addr_pte (page2pa t)) 1 0)

-- A walk that makes the table: the page comes off the free list and is cleared.
pub pgdir_walk_creates :
    (m : Mem) (d va t : ℕ) (rest : List ℕ)
    → IsTable m d
    → is_valid (pde m.word d (pdx va)) ≡ false
    → m.free ≡ t ∷ rest
    → t < m.npage
    → pgdir_walk (page2pa d) va true m ≡ ok (some (slot t (ptx va))) (installed m d (pdx va) t rest)
unfolding pgdir_walk
pgdir_walk_creates m d va t rest w v e h =
    let fits = lt_le_trans h w.span in
    rw (
      v,
      page_alloc_lem m t rest e h w.span,
      ==-refl (slot d (pdx va)),
      new_table_addr t fits,
      pa2idx-page2pa t fits,
      lt→ltb _ _ h,
    )

-- With no free page the walk fails and changes nothing.
pub pgdir_walk_full :
    (m : Mem) (d va : ℕ)
    → is_valid (pde m.word d (pdx va)) ≡ false
    → m.free ≡ []
    → pgdir_walk (page2pa d) va true m ≡ err no_mem m
unfolding pgdir_walk
pgdir_walk_full m d va v e = rw (v, page_alloc_none m e)

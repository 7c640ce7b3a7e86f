-- ===== src/Pmap/Boot.antt =====
-- kern/pmap.c at boot: the size of memory, the allocator of that time, the kernel's mapping, and the list
-- of free pages.
pub mod Pages
use run_mos_on_risc_v.Prelude.{
  ℕ, zero, suc, ◌+◌, ◌-◌, ◌*◌, ◌/◌, ◌%◌, bit_or, Bool, true, false, not, List, [], ◌∷◌, ltb, leb,
  ◌==◌, if◌then◌else◌, update,
}
use run_mos_on_risc_v.Prelude.Proc.{
  Run, ok, err, left, panic, wild, Proc, pure, fail, stop, assert, get, modify, embed, ◌>>=◌, ◌>>◌,
}
use run_mos_on_risc_v.Mmu.{
  word_mod, by2pg, ulim, pte_v, pte_r, pte_w, pte_g, pdx, ptx, ppn, sv32mode, pte_addr, addr_pte,
  page2pa, is_valid, round,
}
use run_mos_on_risc_v.Pmap.{Mem, Fence, everything, fill, load, store, set_ref, page2kva, pde_of}

-- PMEMSIZE and OPENSBISIZE
abbrev pub pmemsize : ℕ
pmemsize = 0x400_0000

abbrev pub opensbisize : ℕ
opensbisize = 0x20_0000

-- The variables of pmap.c that only the boot uses, `pages` as an address, and satp.
pub record Boot : Type 0 where
  pub mm : Mem
  pub memsize : ℕ
  pub freemem : ℕ
  pub pages : ℕ
  pub satp : ℕ

abbrev pub in_mem {ℓ} : {A : Type ℓ} → Proc Mem A → Proc Boot A
in_mem p b = embed (λ (s : Boot) m. record s { mm = m }) b (p b.mm)

unfoldable pub mips_detect_memory : Proc Boot (Unit {0})
mips_detect_memory b =
    ok tt (record b {
      memsize = pmemsize;
      mm = record b.mm { npage = (pmemsize - opensbisize) / by2pg };
    })

-- ROUND(a, n), for a power of two
abbrev pub round_to : ℕ → ℕ → ℕ
round_to a n = (a + n - 1) % word_mod / n * n

-- `kernel_end` is the linker's symbol `end`.
module _ (kernel_end : ℕ) where
  unfoldable pub alloc : ℕ → ℕ → Bool → Proc Boot ℕ
  alloc n align clear = do
    modify (λ (b : Boot). if b.freemem == 0 then record b { freemem = kernel_end } else b)
    modify (λ b. record b { freemem = round_to b.freemem align })
    at ← get (λ (b : Boot). b.freemem)
    modify (λ b. record b { freemem = (b.freemem + n) % word_mod })
    full ← get (λ (b : Boot). leb ((ulim + b.memsize) % word_mod) b.freemem)
    assert (not full)
    if clear
        then modify (λ b. record b { mm = record b.mm { word = fill at 0 n b.mm.word } })
        else pure tt
    pure at

  -- The loop of riscv_create_mapping over n pages from the offset i.
  unfoldable pub map_range : ℕ → ℕ → ℕ → ℕ → ℕ → ℕ → Proc Boot (Unit {0})
  unfolding load store alloc
  map_range zero i pgdir va pa perm = pure tt
  map_range (suc n) i pgdir va pa perm = do
    pde ← in_mem (load (pde_of pgdir ((va + i) % word_mod)))
    pte ←
        (if is_valid pde then pure (pte_addr pde) else (do
          t ← alloc by2pg by2pg true
          in_mem (store (pde_of pgdir ((va + i) % word_mod)) (bit_or (addr_pte t) pte_v))
          pure t))
    in_mem (
        store (pte + 4 * ptx ((va + i) % word_mod))
          (bit_or (bit_or (addr_pte ((pa + i) % word_mod)) perm) pte_v))
    map_range n (i + by2pg) pgdir va pa perm

  unfoldable pub riscv_create_mapping : ℕ → ℕ → ℕ → ℕ → ℕ → Proc Boot (Unit {0})
  unfolding map_range
  riscv_create_mapping pgdir va pa sz perm = map_range ((sz + by2pg - 1) / by2pg) 0 pgdir va pa perm

-- The first loop of page_init from page i, which ends within the fuel since page2kva panics for a page
-- that is not there; and the second over the n pages from i.
unfoldable pub mark_used : ℕ → ℕ → Proc Boot ℕ
unfolding page2kva set_ref
mark_used zero i = stop
mark_used (suc n) i = do
  kva ← in_mem (page2kva i)
  end ← get (λ (b : Boot). b.freemem)
  if ltb kva end then (do in_mem (set_ref i 1); mark_used n (i + 1)) else pure i

unfoldable pub insert_free : ℕ → ℕ → Proc Boot (Unit {0})
insert_free zero i = pure tt
insert_free (suc n) i = do
  in_mem (modify (λ (m : Mem). record m { free = i ∷ m.free }))
  insert_free n (i + 1)

unfoldable pub page_init : Proc Boot (Unit {0})
unfolding mark_used insert_free
page_init = do
  in_mem (modify (λ m. record m { free = [] }))
  modify (λ b. record b { freemem = round b.freemem })
  npage ← get (λ (b : Boot). b.mm.npage)
  i ← mark_used (suc npage) 0
  insert_free (npage - i) i

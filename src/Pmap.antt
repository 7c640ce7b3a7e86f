-- ===== src/Pmap.antt =====
-- kern/pmap.c and the page functions of include/pmap.h: physical pages with reference counts, the
-- free list, and two-level page tables in physical memory.
-- Memory is a function from the byte address of a word to the word; `pages` is given by its field
-- pp_ref, and `page_free_list` by the indices of its pages in order. The kernel runs under the
-- identity mapping, so a kernel virtual address is a physical one.
pub mod Safe
pub mod Free
pub mod Boot
pub mod Slot
pub mod Entries
pub mod Walk
pub mod Lookup
pub mod Keep
pub mod Insert
pub mod Map
pub mod Found
pub mod Tests
pub mod Install
pub mod Frames
pub mod Remove
use run_mos_on_risc_v.Prelude.{
  ℕ, ◌+◌, ◌-◌, ◌*◌, ◌%◌, ◌/◌, bit_or, Bool, true, false, ◌&&◌, not, Option, none, some, List, [],
  ◌∷◌, ltb, leb, ◌==◌, if◌then◌else◌, update,
}
use run_mos_on_risc_v.Prelude.Proc.{
  wild, Run, ok, err, panic, Proc, pure, fail, stop, assert, get, modify, ◌>>=◌, ◌>>◌, Error,
  no_mem,
}
use run_mos_on_risc_v.Mmu.{
  pdx, ptx, pa2idx, page2pa, by2pg, uvpt, pte_addr, addr_pte, is_valid, is_writable, make_pte,
  pte_r,
}

-- The instruction sfence.vma, with the operands that are not the register zero.
pub data Fence : Type 0 where
  everything : Fence
  of_asid : ℕ → Fence
  of_va : ℕ → Fence
  of_both : ℕ → ℕ → Fence

pub record Mem : Type 0 where
  pub word : ℕ → ℕ
  pub ref : ℕ → ℕ  -- pp_ref, a u_short
  pub free : List ℕ
  pub npage : ℕ
  pub fences : List Fence  -- the fences executed so far, the last one first

-- memset(dst, v, n) on whole words
abbrev pub fill : ℕ → ℕ → ℕ → (ℕ → ℕ) → ℕ → ℕ
fill dst v n word a = if leb dst a && ltb a (dst + n) then v else word a

unfoldable pub load : ℕ → Proc Mem ℕ
load a m = ok (m.word a) m

unfoldable pub store : ℕ → ℕ → Proc Mem (Unit {0})
store a v m = ok tt (record m { word = update m.word a v })

unfoldable pub set_ref : ℕ → ℕ → Proc Mem (Unit {0})
set_ref pp r m = ok tt (record m { ref = update m.ref pp r })

unfoldable pub kaddr : ℕ → Proc Mem ℕ
kaddr pa m = if ltb (pa2idx pa) m.npage then ok pa m else panic

unfoldable pub pa2page : ℕ → Proc Mem ℕ
pa2page pa m = if ltb (pa2idx pa) m.npage then ok (pa2idx pa) m else panic

unfoldable pub page2kva : ℕ → Proc Mem ℕ
unfolding kaddr
page2kva pp = kaddr (page2pa pp)

-- page_alloc, on the list that LIST_FIRST and LIST_REMOVE find
unfoldable pub alloc_from : List ℕ → Proc Mem ℕ
unfolding page2kva
alloc_from [] m = err no_mem m
alloc_from (pp ∷ rest) m =
    (do kva ← page2kva pp; modify (λ n. record n { word = fill kva 0 by2pg n.word }); pure pp)
      (record m { free = rest })

unfoldable pub page_alloc : Proc Mem ℕ
unfolding alloc_from
page_alloc m = alloc_from m.free m

unfoldable pub page_free : ℕ → Proc Mem (Unit {0})
page_free pp = do
  r ← get (λ (m : Mem). m.ref pp)
  assert (r == 0)
  modify (λ m. record m { free = pp ∷ m.free })

unfoldable pub page_decref : ℕ → Proc Mem (Unit {0})
unfolding page_free set_ref
page_decref pp = do
  r ← get (λ (m : Mem). m.ref pp)
  assert (ltb 0 r)
  set_ref pp (r - 1)
  if r - 1 == 0 then page_free pp else pure tt

-- The operands that tlb_flush chooses.
abbrev pub fence_of : ℕ → ℕ → Fence
fence_of asid va =
    if va == 0 && asid == 0
    then everything
    else (if va == 0 then of_asid asid else (if asid == 0 then of_va va else of_both va asid))

unfoldable pub tlb_flush : ℕ → ℕ → Proc Mem (Unit {0})
tlb_flush asid va m = ok tt (record m { fences = fence_of asid va ∷ m.fences })

-- pgdir + PDX(va)
abbrev pub pde_of : ℕ → ℕ → ℕ
pde_of pgdir va = pgdir + 4 * pdx va

-- A new page table for the directory entry of va.
unfoldable pub install_table : ℕ → ℕ → Proc Mem (Unit {0})
unfolding page_alloc set_ref store
install_table pgdir va = do
  pp ← page_alloc
  set_ref pp 1
  store (pde_of pgdir va) (bit_or (addr_pte (page2pa pp)) 1)

unfoldable pub walk_entry : ℕ → ℕ → Proc Mem (Option ℕ)
unfolding load kaddr
walk_entry pgdir va = do
  pde ← load (pde_of pgdir va)
  table ← kaddr (pte_addr pde)
  pure (some (table + 4 * ptx va))

-- `none` is the null pointer in *ppte.
unfoldable pub pgdir_walk : ℕ → ℕ → Bool → Proc Mem (Option ℕ)
unfolding load install_table walk_entry
pgdir_walk pgdir va create = do
  pde ← load (pde_of pgdir va)
  if is_valid pde
      then walk_entry pgdir va
      else (if create then (do install_table pgdir va; walk_entry pgdir va) else pure none)

-- The page and the address of its entry.
pub lookup_at : Option ℕ → Proc Mem (Option (ℕ × ℕ))
unfolding load pa2page
lookup_at none = pure none
lookup_at (some pte) = do
  v ← load pte
  if is_valid v then (do pp ← pa2page (pte_addr v); pure (some (pp, pte))) else pure none

unfoldable pub page_lookup : ℕ → ℕ → Proc Mem (Option (ℕ × ℕ))
unfolding pgdir_walk lookup_at
page_lookup pgdir va = do pte ← pgdir_walk pgdir va false; lookup_at pte

pub remove_at : ℕ → ℕ → Option (ℕ × ℕ) → Proc Mem (Unit {0})
unfolding page_decref store tlb_flush
remove_at asid va none = pure tt
remove_at asid va (some (pp, pte)) = do page_decref pp; store pte 0; tlb_flush asid va

unfoldable pub page_remove : ℕ → ℕ → ℕ → Proc Mem (Unit {0})
unfolding page_lookup remove_at
page_remove pgdir asid va = do found ← page_lookup pgdir va; remove_at asid va found

abbrev pub readable : ℕ → ℕ
readable perm = if is_writable perm then bit_or perm pte_r else perm

-- Steps 2 to 4 of page_insert, behind the pointer that the second walk gives.
pub write_entry : ℕ → ℕ → ℕ → ℕ → Option ℕ → Proc Mem (Unit {0})
unfolding store set_ref tlb_flush
write_entry pgdir asid pp perm none = λ m. wild
write_entry pgdir asid pp perm (some pte) = do
  store pte (make_pte (page2pa pp) perm)
  r ← get (λ (m : Mem). m.ref pp)
  set_ref pp ((r + 1) % 0x1_0000)
  store (pde_of pgdir uvpt) 0
  tlb_flush asid 0

pub insert_new : ℕ → ℕ → ℕ → ℕ → ℕ → Proc Mem (Unit {0})
unfolding pgdir_walk write_entry
insert_new pgdir asid pp va perm = do
  pte ← pgdir_walk pgdir va true
  write_entry pgdir asid pp perm pte

-- Step 1 of page_insert: what already stands at va.
pub insert_over : ℕ → ℕ → ℕ → ℕ → ℕ → Option ℕ → Proc Mem (Unit {0})
unfolding load pa2page page_remove insert_new store tlb_flush
insert_over pgdir asid pp va perm none = insert_new pgdir asid pp va perm
insert_over pgdir asid pp va perm (some pte) = do
  v ← load pte
  if is_valid v
      then (do
        old ← pa2page (pte_addr v)
        if old == pp
            then (do store pte (make_pte (page2pa pp) perm); tlb_flush asid va)
            else (do page_remove pgdir asid va; insert_new pgdir asid pp va perm))
      else insert_new pgdir asid pp va perm

unfoldable pub page_insert : ℕ → ℕ → ℕ → ℕ → ℕ → Proc Mem (Unit {0})
unfolding pgdir_walk insert_over
page_insert pgdir asid pp va perm = do
  pte ← pgdir_walk pgdir va false
  insert_over pgdir asid pp va (readable perm) pte

-- va2pa; ~0 is the address of what is not mapped.
abbrev pub no_pa : ℕ
no_pa = 0xffff_ffff

unfoldable pub va2pa : ℕ → ℕ → Proc Mem ℕ
unfolding load kaddr
va2pa pgdir va = do
  pde ← load (pde_of pgdir va)
  if is_valid pde
      then (do
        table ← kaddr (pte_addr pde)
        pte ← load (table + 4 * ptx va)
        pure (if is_valid pte then pte_addr pte else no_pa))
      else pure no_pa

-- ===== src/Tlb.antt =====
-- kern/tlbex.c: page faults. The trapframe `tf` of a handler is the one below KSTACKTOP.

pub mod Stack
pub mod Fault
use run_mos_on_risc_v.Prelude.{
  ℕ, zero, suc, ◌+◌, ◌-◌, ◌*◌, ◌/◌, ◌%◌, bit_or, Bool, true, false, ◌&&◌, ◌||◌, not, Option, none,
  some, ltb, leb, ◌==◌, if◌then◌else◌, update,
}
use run_mos_on_risc_v.Prelude.Bits.{test_bit}
use run_mos_on_risc_v.Prelude.Proc.{
  Run, ok, err, left, panic, wild, Proc, pure, fail, stop, assert, get, modify, embed, no_error,
  ◌>>=◌, ◌>>◌,
}
use run_mos_on_risc_v.Mmu.{
  word_mod, by2pg, utemp, ustacktop, uxstacktop, uenvs, upages, uvpt, ulim, pte_v, pte_r, pte_w,
  pte_u, pdx, addr_pte, page2pa, is_valid, round_down,
}
use run_mos_on_risc_v.Pmap.{
  Mem, page_alloc, page_insert, page_lookup, load, store, set_ref, pa2page, page2kva, pde_of,
}
use run_mos_on_risc_v.Kernel.{Kernel, Env, Trapframe, in_mm, set_env, cur}

-- The four zones where passive_alloc panics before the kernel's.
abbrev pub is_forbidden : ℕ → Bool
is_forbidden va =
    ltb va utemp
    || (leb ustacktop va && ltb va (ustacktop + by2pg))
    || (leb uenvs va && ltb va upages)
    || (leb upages va && ltb va uvpt)
    || leb ulim va

-- PTE_R | PTE_W | PTE_U
abbrev pub user_perm : ℕ
user_perm = 0x16

unfoldable pub passive_alloc : ℕ → ℕ → ℕ → Proc Mem (Unit {0})
unfolding page_alloc page_insert
passive_alloc va pgdir asid = do
  assert (not (is_forbidden va))
  p ← (λ m. no_error (page_alloc m))
  (λ m. no_error (page_insert pgdir asid p (round_down va) user_perm m))

-- *pte & PTE_COW
abbrev pub is_cow : ℕ → Bool
is_cow pte = test_bit pte 8

-- The copy of the directory that the user sees at UVPT: memcpy(kva, cur_pgdir, BY2PG).
abbrev pub copy_page : ℕ → ℕ → (ℕ → ℕ) → ℕ → ℕ
copy_page dst src word a =
    if leb dst a && ltb a (dst + by2pg) then word (src + (a - dst)) else word a

-- The loop over n entries from i of the copy.
unfoldable pub open_entries : ℕ → ℕ → ℕ → Proc Mem (Unit {0})
unfolding load store
open_entries zero kva i = pure tt
open_entries (suc n) kva i = do
  v ← load (kva + 4 * i)
  if is_valid v then store (kva + 4 * i) (bit_or v 0x12) else pure tt
  open_entries n kva (i + 1)

unfoldable pub fill_window : ℕ → ℕ → Proc Mem (Unit {0})
unfolding page2kva open_entries store
fill_window p pgdir = do
  kva ← page2kva p
  modify (λ m. record m { word = copy_page kva pgdir m.word })
  open_entries 1024 kva 0
  store (kva + 4 * pdx uvpt) (bit_or (bit_or (bit_or (addr_pte pgdir) pte_v) pte_r) pte_u)
  store (pde_of pgdir uvpt) (bit_or (addr_pte kva) pte_v)

-- The page of the copy, allocated at the first use.
unfoldable pub window_page : ℕ → Proc Kernel ℕ
unfolding page_alloc set_ref pa2page
window_page e = do
  pa ← get (λ (k : Kernel). (k.envs e).pgdir_copy_pa)
  if pa == 0
      then (do
        p ← in_mm (λ m. no_error (page_alloc m))
        in_mm (do r ← get (λ (m : Mem). m.ref p); set_ref p ((r + 1) % 0x1_0000))
        set_env e (λ v. record v { pgdir_copy_pa = page2pa p })
        pure p)
      else in_mm (pa2page pa)

-- The last two entries of scause that are handled: a load and a store.
abbrev pub load_fault : ℕ
load_fault = 13

abbrev pub store_fault : ℕ
store_fault = 15

unfoldable pub show_window : ℕ → Proc Kernel (Unit {0})
unfolding cur window_page fill_window load
show_window addr = do
  assert (not (ltb addr uvpt || leb ulim addr))
  e ← cur
  p ← window_page e
  pgdir ← get (λ (k : Kernel). k.cur_pgdir)
  in_mm (fill_window p pgdir)
  v ← in_mm (load (pgdir + 4 * ((addr - uvpt) / by2pg)))
  assert (is_valid v)

unfoldable pub alloc_at : ℕ → Proc Kernel (Unit {0})
unfolding cur passive_alloc
alloc_at addr = do
  e ← cur
  k ← get (λ (k : Kernel). k)
  in_mm (passive_alloc addr k.cur_pgdir (k.envs e).asid)

-- sscratch behind step 1 of do_tlb_mod
abbrev pub frame_at : ℕ → ℕ
frame_at sp =
    ((if ltb sp ustacktop || leb uxstacktop sp then uxstacktop else sp) + word_mod - 152) % word_mod

-- `save` is *(struct Trapframe *)sp = tf through the MMU.
module _ (save : ℕ → Trapframe → Proc Kernel (Unit {0})) where
  unfoldable pub do_tlb_mod : Proc Kernel (Unit {0})
  unfolding cur
  do_tlb_mod = do
    tf ← get (λ (k : Kernel). k.stack_tf)
    modify (λ k. record k { stack_tf = record tf { sscratch = frame_at tf.sscratch } })
    save (frame_at tf.sscratch) tf
    e ← cur
    entry ← get (λ (k : Kernel). (k.envs e).user_tlb_mod_entry)
    if entry == 0
        then stop
        else modify (λ k. record k {
          stack_tf = record k.stack_tf {
            regs = update k.stack_tf.regs 10 k.stack_tf.sscratch;
            sscratch = (k.stack_tf.sscratch + word_mod - 4) % word_mod;
            sepc = entry;
          };
        })

  -- What do_tlb_miss does with the page that it finds, or where there is none.
  unfoldable pub on_page : ℕ → Option (ℕ × ℕ) → Proc Kernel (Unit {0})
  unfolding load do_tlb_mod alloc_at show_window
  on_page addr (some (p, pte)) = do
    scause ← get (λ (k : Kernel). k.stack_tf.scause)
    v ← in_mm (load pte)
    if scause == store_fault && is_cow v then do_tlb_mod else stop
  on_page addr none = do
    scause ← get (λ (k : Kernel). k.stack_tf.scause)
    if scause == store_fault
        then alloc_at addr
        else if scause == load_fault
        then (if leb utemp addr && ltb addr ustacktop then alloc_at addr else show_window addr)
        else stop

  unfoldable pub do_tlb_miss : Proc Kernel (Unit {0})
  unfolding page_lookup on_page
  do_tlb_miss = do
    addr ← get (λ (k : Kernel). round_down k.stack_tf.stval)
    pgdir ← get (λ (k : Kernel). k.cur_pgdir)
    found ← in_mm (page_lookup pgdir addr)
    on_page addr found

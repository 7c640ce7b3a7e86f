-- ===== src/Elf.antt =====
-- lib/elfloader.c: a segment of a program is mapped page by page.
pub mod Pages
pub mod Segment
use run_mos_on_risc_v.Prelude.{
  ℕ, zero, suc, ◌+◌, ◌-◌, ◌*◌, ◌/◌, ◌%◌, bit_or, Bool, true, false, not, Option, none, some, ltb,
  leb, ◌==◌, if◌then◌else◌,
}
use run_mos_on_risc_v.Prelude.Bits.{test_bit}
use run_mos_on_risc_v.Prelude.Proc.{Run, ok, err, left, panic, wild, Proc, pure, stop, ◌>>=◌, ◌>>◌}
use run_mos_on_risc_v.Mmu.{word_mod, by2pg, round_down}

-- The fields of Elf32_Phdr that are used.
pub record Phdr : Type 0 where
  pub vaddr : ℕ
  pub filesz : ℕ
  pub memsz : ℕ
  pub flags : ℕ

-- perm: PTE_V | PTE_U, with PTE_R, PTE_W and PTE_X as the flags PF_R, PF_W and PF_X say.
abbrev pub perm_of : ℕ → ℕ
perm_of flags =
    let r = if test_bit flags 2 then bit_or 0x11 2 else 0x11 in
    let w = if test_bit flags 1 then bit_or r 4 else r in if test_bit flags 0 then bit_or w 8 else w

-- MIN
abbrev pub min_of : ℕ → ℕ → ℕ
min_of a b = if leb a b then a else b

-- `map_page` is the callback with its argument `data`: the address, the offset in the page, the
-- permission, the source, if there is one, and the length.
module _ {S : Type 0} (map_page : ℕ → ℕ → ℕ → Option ℕ → ℕ → Proc S (Unit {0})) (ph : Phdr)
    (bin : ℕ) where
  abbrev pub offset_of : ℕ
  offset_of = ph.vaddr - round_down ph.vaddr

  abbrev pub head_size : ℕ
  head_size = min_of ph.filesz (by2pg - offset_of)

  -- The loops of step 1 and of step 2 from i, on fuel.
  unfoldable pub load_pages : ℕ → ℕ → Proc S ℕ
  load_pages zero i = stop
  load_pages (suc n) i =
      if ltb i ph.filesz
      then (do
        map_page ((ph.vaddr + i) % word_mod) 0 (perm_of ph.flags) (some (bin + i))
            (min_of (ph.filesz - i) by2pg)
        load_pages n (i + by2pg))
      else pure i

  unfoldable pub clear_pages : ℕ → ℕ → Proc S (Unit {0})
  clear_pages zero i = stop
  clear_pages (suc n) i =
      if ltb i ph.memsz
      then (do
        map_page ((ph.vaddr + i) % word_mod) 0 (perm_of ph.flags) none
            (min_of ((ph.filesz + word_mod - i) % word_mod) by2pg)
        clear_pages n (i + by2pg))
      else pure tt

  unfoldable pub elf_load_seg : Proc S (Unit {0})
  unfolding load_pages clear_pages
  elf_load_seg = do
    if not (offset_of == 0)
        then map_page ph.vaddr offset_of (perm_of ph.flags) (some bin) head_size
        else pure tt
    i ← load_pages (ph.filesz / by2pg + 2) (if not (offset_of == 0) then head_size else 0)
    clear_pages (ph.memsz / by2pg + 2) i

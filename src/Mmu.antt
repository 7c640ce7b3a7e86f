-- ===== src/Mmu.antt =====
-- include/mmu.h and the address functions of include/pmap.h: sizes, the memory layout, and the fields
-- of virtual addresses and of Sv32 page table entries. A u_long is a number below 2 ^ 32.
mod Entry
use run_mos_on_risc_v.Prelude.{
  ℕ, ◌+◌, ◌-◌, ◌*◌, ◌/◌, ◌%◌, ◌^◌, bit_or, Bool, Option, none, some, ltb, if◌then◌else◌,
}
use run_mos_on_risc_v.Prelude.Bits.{test_bit}
unfoldable pub use Entry.*

abbrev pub word_mod : ℕ
word_mod = 0x1_0000_0000

abbrev pub by2pg : ℕ
by2pg = 4096

abbrev pub pdmap : ℕ
pdmap = 0x40_0000

-- PDX and PTX: ten bits each of a virtual address.
unfoldable pub pdx : ℕ → ℕ
pdx va = va / 0x40_0000 % 1024

unfoldable pub ptx : ℕ → ℕ
ptx va = va / 4096 % 1024

-- PPN and VPN
abbrev pub ppn : ℕ → ℕ
ppn a = a / 4096

abbrev pub kernbase : ℕ
kernbase = 0x8020_0000

abbrev pub ulim : ℕ
ulim = 0x8000_0000

abbrev pub uvpt : ℕ
uvpt = 0x7fc0_0000

abbrev pub upages : ℕ
upages = 0x7f80_0000

abbrev pub uenvs : ℕ
uenvs = 0x7f40_0000

abbrev pub utop : ℕ
utop = uenvs

abbrev pub uxstacktop : ℕ
uxstacktop = utop

abbrev pub ustacktop : ℕ
ustacktop = 0x7f3f_e000

abbrev pub kstacktop : ℕ
kstacktop = 0x8060_0000

abbrev pub ucow : ℕ
ucow = 0x3f_f000

abbrev pub utemp : ℕ
utemp = 0x3f_e000

abbrev pub sv32mode : ℕ
sv32mode = 0x8000_0000

-- PTE_V, PTE_R, PTE_W, PTE_X, PTE_U, PTE_G and PTE_COW
abbrev pub pte_v : ℕ
pte_v = 0x001

abbrev pub pte_r : ℕ
pte_r = 0x002

abbrev pub pte_w : ℕ
pte_w = 0x004

abbrev pub pte_u : ℕ
pte_u = 0x010

abbrev pub pte_g : ℕ
pte_g = 0x020

-- PA2IDX: the subtraction is that of u_long.
unfoldable pub pa2idx : ℕ → ℕ
pa2idx pa = ppn ((pa + word_mod - kernbase) % word_mod)

-- page2ppn, page2pa: a page is given by its index in `pages`.
unfoldable pub page2pa : ℕ → ℕ
page2pa pp = (pp + ppn kernbase) * 4096 % word_mod

-- ROUNDDOWN(a, BY2PG) and ROUND(a, BY2PG)
abbrev pub round_down : ℕ → ℕ
round_down a = a / 4096 * 4096

abbrev pub round : ℕ → ℕ
round a = (a + 4095) % word_mod / 4096 * 4096

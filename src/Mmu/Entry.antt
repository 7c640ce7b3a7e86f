-- ===== src/Mmu/Entry.antt =====
-- The page table entries of include/mmu.h, and what their fields are after the C code has built them.
use run_mos_on_risc_v.Prelude.{ℕ, ◌*◌, ◌/◌, ◌%◌, ◌≡◌, ◌<◌, Bool, true, bit_or, arith}
use run_mos_on_risc_v.Prelude.Bits.{test_bit, test_bit-bit_or, bit_or-div_1024, bit_or-zero}

-- PTE_ADDR: (pte & ~0x3ff) << 2, in 32 bits.
unfoldable pub pte_addr : ℕ → ℕ
pte_addr pte = pte / 1024 * 4096 % 0x1_0000_0000

-- ADDR_PTE: PPN(addr) << 10
unfoldable pub addr_pte : ℕ → ℕ
addr_pte addr = addr / 4096 * 1024 % 0x1_0000_0000

-- pte & PTE_V, and pte & PTE_W
abbrev pub is_valid : ℕ → Bool
is_valid pte = test_bit pte 0

abbrev pub is_writable : ℕ → Bool
is_writable pte = test_bit pte 2

-- ADDR_PTE(pa) | perm | PTE_V
unfoldable pub make_pte : ℕ → ℕ → ℕ
make_pte pa perm = bit_or (bit_or (addr_pte pa) perm) 1

pub is_valid-make_pte : (pa perm : ℕ) → is_valid (make_pte pa perm) ≡ true
unfolding make_pte
is_valid-make_pte pa perm = ground (arith, test_bit-bit_or (bit_or (addr_pte pa) perm) 1 0)

make_pte-div : (pa perm : ℕ) → perm < 1024 → make_pte pa perm / 1024 ≡ addr_pte pa / 1024
unfolding make_pte
make_pte-div pa perm h =
    let e : perm / 1024 ≡ 0 = omega arith in
    rw
      (
        bit_or-div_1024 (bit_or (addr_pte pa) perm) 1,
        bit_or-div_1024 (addr_pte pa) perm,
        e,
        bit_or-zero (addr_pte pa / 1024),
      )
      (bit_or-zero (addr_pte pa / 1024))

-- With the permission in the low ten bits the entry leads to the page that it was made for.
pub pte_addr-make_pte :
    (pa perm : ℕ)
    → perm < 1024
    → pa < 0x1_0000_0000
    → pa % 4096 ≡ 0
    → pte_addr (make_pte pa perm) ≡ pa
unfolding pte_addr addr_pte
pte_addr-make_pte pa perm h b a = rw (make_pte-div pa perm h) (omega arith)

-- ===== src/Pmap/Slot.antt =====
-- The word addresses of entries in table pages: entries of different tables, or at different
-- places of one, never overlap.
use run_mos_on_risc_v.Prelude.{ℕ, ◌+◌, ◌*◌, ◌<◌, ◌≡◌, ◌≢◌, ◌⊎◌, false, arith, ◌==◌}
use run_mos_on_risc_v.Mmu.{pdx, ptx, pa2idx, page2pa, pte_addr}
use run_mos_on_risc_v.Pmap.{fill}

-- The most pages that fit between KERNBASE and the end of the address space.
abbrev pub max_pages : ℕ
max_pages = 0x7_fe00

-- Entry k of the table in page t.
abbrev pub slot : ℕ → ℕ → ℕ
slot t k = page2pa t + 4 * k

pub slot_ne :
    (t k u j : ℕ)
    → t < max_pages
    → u < max_pages
    → k < 1024
    → j < 1024
    → (t ≢ u) ⊎ (k ≢ j)
    → (slot t k == slot u j) ≡ false
unfolding page2pa
slot_ne t k u j ht hu hk hj d = ground arith

pub fill_self :
    (t j v : ℕ) (word : ℕ → ℕ)
    → t < max_pages
    → j < 1024
    → fill (page2pa t) v 4096 word (slot t j) ≡ v
unfolding page2pa
fill_self t j v word ht hj = ground arith

pub fill_ne :
    (t u j v : ℕ) (word : ℕ → ℕ)
    → t < max_pages
    → u < max_pages
    → j < 1024
    → t ≢ u
    → fill (page2pa t) v 4096 word (slot u j) ≡ word (slot u j)
unfolding page2pa
fill_ne t u j v word ht hu hj d = ground arith

pub pa2idx-page2pa : (t : ℕ) → t < max_pages → pa2idx (page2pa t) ≡ t
unfolding page2pa pa2idx
pa2idx-page2pa t h = omega arith

pub page2pa-pa2idx :
    (pte : ℕ) → pa2idx (pte_addr pte) < max_pages → page2pa (pa2idx (pte_addr pte)) ≡ pte_addr pte
unfolding page2pa pa2idx pte_addr
page2pa-pa2idx pte h = omega arith

pub pdx-lt : (va : ℕ) → pdx va < 1024
unfolding pdx
pdx-lt va = omega arith

pub ptx-lt : (va : ℕ) → ptx va < 1024
unfolding ptx
ptx-lt va = omega arith

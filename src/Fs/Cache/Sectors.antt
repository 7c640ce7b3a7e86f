-- ===== src/Fs/Cache/Sectors.antt =====
-- ide_read and ide_write copy a whole block, sector by sector.
use mathlib.Core.Path.{fun_ext}
use native.Mathlib.Decide.{dec_lt}
use run_mos_on_risc_v.Prelude.{
  ℕ, zero, suc, ◌+◌, ◌-◌, ◌*◌, ◌/◌, ◌%◌, ◌≤◌, ◌<◌, ◌≡◌, sym, ap, ◌∙◌, Bool, true, false, arith, ltb,
  leb, ◌&&◌, update,
}
use run_mos_on_risc_v.Prelude.Proc.{ok, and_then, assert, ◌>>◌}
use run_mos_on_risc_v.Bytes.{copy_bytes}
use run_mos_on_risc_v.Mmu.{word_mod}
use run_mos_on_risc_v.Fs.Cache.{
  Server, vpn, diskmap, diskaddr, each_sector, read_sector, write_sector, ide_read, ide_write,
  block_is_mapped, write_block, rounds,
}

pub copy_bytes_at :
    (dst n : ℕ) (from m : ℕ → ℕ) (j : ℕ) → j < n → copy_bytes dst n from m (dst + j) ≡ from j
unfolding copy_bytes
copy_bytes_at dst n from m j h =
    let e : dst + j - dst ≡ j = omega arith in
    let t : (leb dst (dst + j) && ltb (dst + j) (dst + n)) ≡ true = ground arith in rw (t, e)

pub copy_bytes_off :
    (dst n : ℕ) (from m : ℕ → ℕ) (x : ℕ)
    → (leb dst x && ltb x (dst + n)) ≡ false
    → copy_bytes dst n from m x ≡ m x
unfolding copy_bytes
copy_bytes_off dst n from m x h = rw h

-- A copy of no bytes, and one in two parts.
copy_none : (dst : ℕ) (from m : ℕ → ℕ) (x : ℕ) → m x ≡ copy_bytes dst 0 from m x
copy_none dst from m x = sym (copy_bytes_off dst 0 from m x (ground arith))

copy_parts :
    (dst n k : ℕ) (from m : ℕ → ℕ) (x : ℕ)
    → copy_bytes (dst + n) k (λ j. from (n + j)) (copy_bytes dst n from m) x
      ≡ copy_bytes dst (n + k) from m x
unfolding copy_bytes
copy_parts dst n k from m x = elim (dec_lt x dst) [
  | yes p ↦ ground arith
  | no p ↦ elim (dec_lt x (dst + n)) [
    | yes q ↦ ground arith
    | no q ↦ let e : n + (x - (dst + n)) ≡ x - dst = omega arith in rw e (ground arith)
  ]
]

module _ (va : ℕ) (inside : va % 4096 ≡ 0) where
  page_of : (off : ℕ) → off < 4096 → vpn (va + off) ≡ vpn va
  page_of off h = omega arith

  module _ (secno : ℕ) (small : secno + 8 < word_mod) where
    sector_place :
        (off : ℕ)
        → off < 4096
        → off % 512 ≡ 0
        → (secno + off / 512) % word_mod * 512 ≡ secno * 512 + off
    sector_place off h whole = omega arith

    -- The disk with n sectors written from the offset off.
    abbrev disk_with : ℕ → ℕ → Server → ℕ → ℕ
    disk_with n off s = copy_bytes (secno * 512 + off) n (λ j. s.mem (va + off + j)) s.disk

    write_one :
        (off : ℕ) (s : Server)
        → s.mapped (vpn va) ≡ true
        → off < 4096
        → off % 512 ≡ 0
        → write_sector ((secno + off / 512) % word_mod) (va + off) s
          ≡ ok tt (record s { disk = disk_with 512 off s })
    unfolding write_sector
    write_one off s p h whole = rw (page_of off h, p, sector_place off h whole)

    disk_parts :
        (n off : ℕ) (s : Server)
        → copy_bytes
            (secno * 512 + (off + 512))
            (n * 512)
            (λ j. s.mem (va + (off + 512) + j))
            (disk_with 512 off s)
          ≡ disk_with (suc n * 512) off s
    disk_parts n off s =
        let a : secno * 512 + (off + 512) ≡ secno * 512 + off + 512 = omega arith in
        let b : suc n * 512 ≡ 512 + n * 512 = omega arith in
        let f : (λ (j : ℕ). s.mem (va + (off + 512) + j)) ≡ (λ j. s.mem (va + off + (512 + j))) =
          fun_ext (λ j. ap (s.mem) (omega arith)) in
        rw (a, b, f)
          (fun_ext (λ x.
            copy_parts (secno * 512 + off) 512 (n * 512) (λ j. s.mem (va + off + j)) s.disk x))

    written :
        (n off : ℕ) (s : Server)
        → s.mapped (vpn va) ≡ true
        → off + n * 512 ≤ 4096
        → off % 512 ≡ 0
        → each_sector write_sector n secno off va s
          ≡ ok tt (record s { disk = disk_with (n * 512) off s })
    unfolding each_sector
    written zero off s p fits whole =
        let e : s.disk ≡ disk_with 0 off s =
          fun_ext (λ x. copy_none (secno * 512 + off) (λ j. s.mem (va + off + j)) s.disk x) in
        ap (λ d. ok tt (record s { disk = d })) e
    written (suc n) off s p fits whole =
        let s' : Server = record s { disk = disk_with 512 off s } in
        ap (λ r. and_then r (λ _. each_sector write_sector n secno (off + 512) va))
          (write_one off s p (omega arith) whole)
        ∙ written n (off + 512) s' p (omega arith) (omega arith)
        ∙ ap (λ d. ok tt (record s { disk = d })) (disk_parts n off s)

    -- The memory with n sectors read to the offset off.
    abbrev mem_with : ℕ → ℕ → Server → ℕ → ℕ
    mem_with n off s = copy_bytes (va + off) n (λ j. s.disk (secno * 512 + off + j)) s.mem

    abbrev touched : Server → ℕ → Bool
    touched s = update s.dirty (vpn va) true

    read_one :
        (off : ℕ) (s : Server)
        → s.mapped (vpn va) ≡ true
        → off < 4096
        → off % 512 ≡ 0
        → read_sector ((secno + off / 512) % word_mod) (va + off) s
          ≡ ok tt (record s { mem = mem_with 512 off s; dirty = touched s })
    unfolding read_sector
    read_one off s p h whole = rw (page_of off h, p, sector_place off h whole)

    mem_parts :
        (n off : ℕ) (s : Server)
        → copy_bytes
            (va + (off + 512))
            (n * 512)
            (λ j. s.disk (secno * 512 + (off + 512) + j))
            (mem_with 512 off s)
          ≡ mem_with (suc n * 512) off s
    mem_parts n off s =
        let a : va + (off + 512) ≡ va + off + 512 = omega arith in
        let b : suc n * 512 ≡ 512 + n * 512 = omega arith in
        let f : (λ (j : ℕ). s.disk (secno * 512 + (off + 512) + j))
            ≡ (λ j. s.disk (secno * 512 + off + (512 + j))) =
          fun_ext (λ j. ap (s.disk) (omega arith)) in
        rw (a, b, f)
          (fun_ext (λ x.
            copy_parts (va + off) 512 (n * 512) (λ j. s.disk (secno * 512 + off + j)) s.mem x))

    touched_twice : (s : Server) → update (touched s) (vpn va) true ≡ touched s
    touched_twice s = fun_ext (λ x. ground arith)

    reads :
        (n off : ℕ) (s : Server)
        → s.mapped (vpn va) ≡ true
        → off + suc n * 512 ≤ 4096
        → off % 512 ≡ 0
        → each_sector read_sector (suc n) secno off va s
          ≡ ok tt (record s { mem = mem_with (suc n * 512) off s; dirty = touched s })
    unfolding each_sector
    reads zero off s p fits whole =
        ap (λ r. and_then r (λ _. each_sector read_sector 0 secno (off + 512) va))
          (read_one off s p (omega arith) whole)
    reads (suc n) off s p fits whole =
        let s' : Server = record s { mem = mem_with 512 off s; dirty = touched s } in
        ap (λ r. and_then r (λ _. each_sector read_sector (suc n) secno (off + 512) va))
          (read_one off s p (omega arith) whole)
        ∙ reads n (off + 512) s' p (omega arith) (omega arith)
        ∙ rw (mem_parts (suc n) off s, touched_twice s)

-- A block of the disk, below 2 ^ 18.
module _ (b : ℕ) (small : b < 0x4_0000) where
  pub diskaddr_small : diskaddr b ≡ diskmap + b * 4096
  diskaddr_small = omega arith

  aligned : diskaddr b % 4096 ≡ 0
  aligned = omega arith

  first_sector : b * 8 % word_mod ≡ b * 8
  first_sector = omega arith

  all_rounds : rounds (b * 8) 8 ≡ 8
  all_rounds = ground arith

  -- The disk with the block written, and the memory with it read.
  abbrev pub disk_of : Server → ℕ → ℕ
  disk_of s = copy_bytes (b * 4096) 4096 (λ j. s.mem (diskaddr b + j)) s.disk

  abbrev pub mem_of : Server → ℕ → ℕ
  mem_of s = copy_bytes (diskaddr b) 4096 (λ j. s.disk (b * 4096 + j)) s.mem

  start_of : b * 8 * 512 + 0 ≡ b * 4096
  start_of = omega arith

  start_of_page : diskaddr b + 0 ≡ diskaddr b
  start_of_page = omega arith

  pub ide_write_lem :
      (s : Server)
      → block_is_mapped s b ≡ true
      → ide_write (b * 8 % word_mod) (diskaddr b) 8 s ≡ ok tt (record s { disk = disk_of s })
  unfolding ide_write
  ide_write_lem s p =
      rw (first_sector, all_rounds)
        (written (diskaddr b) aligned (b * 8) (omega arith) 8 0 s p (omega arith) (omega arith)
          ∙ rw (start_of, start_of_page))

  pub write_block_lem :
      (s : Server)
      → block_is_mapped s b ≡ true
      → write_block b s ≡ ok tt (record s { disk = disk_of s })
  unfolding write_block
  write_block_lem s p =
      ap (λ t. (do assert t; ide_write (b * 8 % word_mod) (diskaddr b) 8) s) p ∙ ide_write_lem s p

  pub ide_read_lem :
      (s : Server)
      → block_is_mapped s b ≡ true
      → ide_read (b * 8 % word_mod) (diskaddr b) 8 s
        ≡ ok tt (record s { mem = mem_of s; dirty = update s.dirty (vpn (diskaddr b)) true })
  unfolding ide_read
  ide_read_lem s p =
      rw (first_sector, all_rounds)
        (reads (diskaddr b) aligned (b * 8) (omega arith) 7 0 s p (omega arith) (omega arith)
          ∙ rw (start_of, start_of_page))

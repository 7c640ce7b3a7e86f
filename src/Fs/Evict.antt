-- ===== src/Fs/Evict.antt =====
-- fs/fs.c: a block that leaves the cache comes back as it was.
use run_mos_on_risc_v.Prelude.{
  ℕ, ◌+◌, ◌*◌, ◌/◌, ◌<◌, ◌≡◌, ◌≢◌, ap, ◌∙◌, Bool, true, false, arith, ltb, leb, ◌&&◌, inl, inr,
  Bool-cases, List, ◌∷◌,
}
use run_mos_on_risc_v.Prelude.Proc.{ok}
use run_mos_on_risc_v.Fs.Cache.{
  Server, vpn, diskaddr, block_is_mapped, block_is_dirty, unmap_block, read_block,
}
use run_mos_on_risc_v.Fs.Cache.Sectors.{copy_bytes_at, copy_bytes_off}
use run_mos_on_risc_v.Fs.Bitmap.{IsMounted, is_free}
use run_mos_on_risc_v.Fs.Transfer.{
  IsData, flushed, gone, zeroed, back, gone_now, here_now, unmap_block_lem, read_block_lem,
}

module _ (n b : ℕ) (small : b < 0x4_0000) where
  gone-IsMounted : (s : Server) → IsMounted n s → n / 32768 + 2 < b → IsMounted n (gone n b small s)
  gone-IsMounted s m h = record {
    super_is = m.super_is;
    bitmap_is = m.bitmap_is;
    small = m.small;
    super_page = other_page 0x1_0001 (omega arith) m.super_page;
    bitmap_pages = λ i l. other_page (0x1_0002 + i) (omega arith) (m.bitmap_pages i l);
    count = m.count;
    bytes = m.bytes;
  }
    where
      other_page :
          (p : ℕ) → p < 0x1_0000 + b → s.mapped p ≡ true → (gone n b small s).mapped p ≡ true
      other_page p l t = ground arith

  flushed-IsMounted : (s : Server) → IsMounted n s → IsMounted n (flushed n b small s)
  flushed-IsMounted s m = elim (Bool-cases (block_is_dirty s b)) [
    | inl d ↦ rw d (record {
      super_is = m.super_is;
      bitmap_is = m.bitmap_is;
      small = m.small;
      super_page = m.super_page;
      bitmap_pages = m.bitmap_pages;
      count = m.count;
      bytes = m.bytes;
    })
    | inr d ↦ rw d m
  ]

  flushed_mem : (s : Server) → (flushed n b small s).mem ≡ s.mem
  flushed_mem s = elim (Bool-cases (block_is_dirty s b)) [ inl d ↦ rw d | inr d ↦ rw d ]

  flushed_answers : (s : Server) → (flushed n b small s).answers ≡ s.answers
  flushed_answers s = elim (Bool-cases (block_is_dirty s b)) [ inl d ↦ rw d | inr d ↦ rw d ]

  flushed_disk :
      (s : Server) (j : ℕ)
      → (block_is_dirty s b ≡ false → s.disk (b * 4096 + j) ≡ s.mem (diskaddr b + j))
      → j < 4096
      → (flushed n b small s).disk (b * 4096 + j) ≡ s.mem (diskaddr b + j)
  flushed_disk s j same l = elim (Bool-cases (block_is_dirty s b)) [
    | inl d ↦ rw d (copy_bytes_at (b * 4096) 4096 (λ j. s.mem (diskaddr b + j)) s.disk j l)
    | inr d ↦ rw d (same d)
  ]

  back_off :
      (s : Server) (rest : List Bool) (a : ℕ)
      → a / 4096 ≢ vpn (diskaddr b)
      → (back n b small s rest).mem a ≡ s.mem a
  back_off s rest a o =
      copy_bytes_off (diskaddr b) 4096 (λ j. s.disk (b * 4096 + j)) (zeroed n b small s rest).mem a
        (outside o)
      ∙ copy_bytes_off (vpn (diskaddr b) * 4096) 4096 (λ _. 0) s.mem a (outside_page o)
    where
      outside :
          a / 4096 ≢ vpn (diskaddr b) → (leb (diskaddr b) a && ltb a (diskaddr b + 4096)) ≡ false
      outside o = ground arith

      outside_page :
          a / 4096 ≢ vpn (diskaddr b)
          → (leb (vpn (diskaddr b) * 4096) a && ltb a (vpn (diskaddr b) * 4096 + 4096)) ≡ false
      outside_page o = ground arith

-- Block b is clean and on the disk as in the cache, or dirty.
abbrev pub InSync : ℕ → Server → Type 0
InSync b s =
    block_is_dirty s b ≡ false → (j : ℕ) → j < 4096 → s.disk (b * 4096 + j) ≡ s.mem (diskaddr b + j)

abbrev pub ComesBack : ℕ → Server → Type 0
ComesBack b s =
    (s1 : Server) × (s2 : Server) × (unmap_block b s ≡ ok tt s1)
    × (block_is_mapped s1 b ≡ false)
    × (read_block b s1 ≡ ok (diskaddr b) s2)
    × (block_is_mapped s2 b ≡ true)
    × ((j : ℕ) → j < 4096 → s2.mem (diskaddr b + j) ≡ s.mem (diskaddr b + j))
    × ((a : ℕ) → a / 4096 ≢ vpn (diskaddr b) → s2.mem a ≡ s.mem a)

-- In a mounted file system a block of data in use leaves the cache by unmap_block, and if the kernel has
-- a page for it, read_block brings it back with the bytes that it had, provided that it was dirty or in
-- step with the disk. No other byte of the cache changes.
pub unmap_block-read_block :
    (n b : ℕ) (s : Server) (rest : List Bool)
    → IsMounted n s
    → IsData n b s
    → InSync b s
    → s.answers ≡ true ∷ rest
    → ComesBack b s
unmap_block-read_block n b s rest m d same a =
    let small : b < 0x4_0000 = omega (arith, m.small, d.below) in
    let t : Server = gone n b small (flushed n b small s) in
    (
      t,
      back n b small t rest,
      unmap_block_lem n b small s m d,
      gone_now n b small (flushed n b small s),
      read_block_lem n b small t rest
          (gone-IsMounted n b small (flushed n b small s) (flushed-IsMounted n b small s m) d.above)
          d.below (ap (λ k. is_free (record s { mem = k }) b) (flushed_mem n b small s) ∙ d.used)
          (gone_now n b small (flushed n b small s)) (flushed_answers n b small s ∙ a),
      here_now n b small t rest,
      (λ j l.
          copy_bytes_at (diskaddr b) 4096 (λ j. t.disk (b * 4096 + j)) (zeroed n b small t rest).mem
            j l
          ∙ flushed_disk n b small s j (λ c. same c j l) l),
      (λ a o. back_off n b small t rest a o ∙ ap (λ k. k a) (flushed_mem n b small s)),
    )

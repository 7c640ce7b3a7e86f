-- ===== src/Fs/Transfer.antt =====
-- fs/fs.c: what unmap_block and read_block do to a block in a mounted file system.
use run_mos_on_risc_v.Prelude.{
  ℕ, ◌+◌, ◌*◌, ◌/◌, ◌%◌, ◌^◌, ◌<◌, ◌≡◌, refl, ap, ◌∙◌, Bool, true, false, not, arith, ◌==◌, ltb,
  leb, ◌&&◌, if◌then◌else◌, inl, inr, Bool-cases, update, List, ◌∷◌,
}
use run_mos_on_risc_v.Prelude.Proc.{Proc, ok, pure, and_then, ignored, assert, get, ◌>>=◌, ◌>>◌}
use run_mos_on_risc_v.Syscall.{is_illegal_va}
use run_mos_on_risc_v.Fs.Cache.{
  Server, vpn, diskaddr, block_is_mapped, block_is_dirty, block_is_free, write_block, unmap_block,
  read_block, check_block, mem_alloc, mem_unmap, ide_read, with_page,
}
use run_mos_on_risc_v.Fs.Cache.Sectors.{disk_of, mem_of, write_block_lem, ide_read_lem}
use run_mos_on_risc_v.Fs.Bitmap.{IsMounted, is_free, block_is_free_lem, s_nblocks_lem}

-- Block b holds data: it is in use, and neither the super block nor a block of the bitmap.
pub record IsData (n b : ℕ) (s : Server) : Type 0 where
  pub below : b < n
  pub above : n / 32768 + 2 < b
  pub used : is_free s b ≡ false
  pub cached : block_is_mapped s b ≡ true

module _ (n b : ℕ) (small : b < 0x4_0000) where
  in_user_part : is_illegal_va (diskaddr b) ≡ false
  in_user_part = ground arith

  -- The server after the block was written back if it is dirty, and after it was unmapped.
  abbrev pub flushed : Server → Server
  flushed s = if block_is_dirty s b then record s { disk = disk_of b small s } else s

  abbrev pub gone : Server → Server
  gone s = record s {
    mapped = update s.mapped (vpn (diskaddr b)) false;
    dirty = update s.dirty (vpn (diskaddr b)) false;
  }

  flush_lem :
      (s : Server)
      → block_is_mapped s b ≡ true
      → (if block_is_dirty s b then write_block b else pure tt) s ≡ ok tt (flushed s)
  flush_lem s c = elim (Bool-cases (block_is_dirty s b)) [
    | inl d ↦ rw d (write_block_lem b small s c)
    | inr d ↦ rw d
  ]

  unmap_lem : (s : Server) → mem_unmap (diskaddr b) s ≡ ok tt (gone s)
  unfolding mem_unmap
  unmap_lem s = rw in_user_part

  pub gone_now : (s : Server) → block_is_mapped (gone s) b ≡ false
  gone_now s = ground arith

  abbrev unmap_rest : Proc Server (Unit {0})
  unmap_rest = do
    (λ s. ignored (mem_unmap (diskaddr b) s))
    still ← get (λ s. block_is_mapped s b)
    assert (not still)

  unmap_rest_lem : (s : Server) → unmap_rest s ≡ ok tt (gone s)
  unmap_rest_lem s =
      ap (λ r. and_then (ignored r) (λ _ t. assert (not (block_is_mapped t b)) t)) (unmap_lem s)
      ∙ ap (λ t. assert (not t) (gone s)) (gone_now s)

  not_free : (s : Server) → IsMounted n s → is_free s b ≡ false → block_is_free b s ≡ ok false s
  not_free s m u =
      let e : (ltb b n && is_free s b) ≡ false = ground (arith, u) in
      block_is_free_lem n b s m ∙ ap (λ t. ok t s) e

  pub unmap_block_lem :
      (s : Server) → IsMounted n s → IsData n b s → unmap_block b s ≡ ok tt (gone (flushed s))
  unfolding unmap_block
  unmap_block_lem s m d =
      ap (λ t. (do assert t; free ← block_is_free b; after free) s) d.cached
      ∙ ap (λ r. and_then r after) (not_free s m d.used)
      ∙ ap (λ r. and_then r (λ _. unmap_rest)) (flush_lem s d.cached)
      ∙ unmap_rest_lem (flushed s)
    where
      after : Bool → Proc Server (Unit {0})
      after free = do
        dirty ← get (λ s. block_is_dirty s b)
        if not free && dirty then write_block b else pure tt
        unmap_rest

  -- The server after the block was read in again.
  abbrev pub zeroed : Server → List Bool → Server
  zeroed s rest = with_page (diskaddr b) (record s { answers = rest })

  abbrev pub back : Server → List Bool → Server
  back s rest =
      let t : Server = zeroed s rest in
      record t { mem = mem_of b small t; dirty = update t.dirty (vpn (diskaddr b)) true }

  check_block_lem :
      (s : Server) → IsMounted n s → b < n → is_free s b ≡ false → check_block b s ≡ ok tt s
  unfolding check_block
  check_block_lem s m h u =
      let e : (s.super == 0) ≡ false = ap (λ p. p == 0) m.super_is in
      let f : (s.bitmap == 0) ≡ false = ap (λ p. p == 0) m.bitmap_is in
      let g : leb n b ≡ false = ground arith in
      rw e (
        ap (λ r. and_then (and_then r (λ k. assert (not (leb k b)))) (λ _. second))
          (s_nblocks_lem n s m)
        ∙ rw (g, f) (ap (λ r. and_then r (λ free. assert (not free))) (not_free s m u)))
    where
      second : Proc Server (Unit {0})
      second = do
        k ← get (λ (s : Server). s.bitmap)
        if k == 0 then pure tt else (do free ← block_is_free b; assert (not free))

  -- A block that is in the cache is not read again.
  pub cached_block_lem :
      (s : Server)
      → IsMounted n s
      → b < n
      → is_free s b ≡ false
      → block_is_mapped s b ≡ true
      → read_block b s ≡ ok (diskaddr b) s
  unfolding read_block
  cached_block_lem s m h u c =
      ap (λ r. and_then r (λ _. after)) (check_block_lem s m h u)
      ∙ ap (λ t. (do if t then pure tt else load_it; pure (diskaddr b)) s) c
    where
      load_it : Proc Server (Unit {0})
      load_it = do
        (λ s. ignored (mem_alloc (diskaddr b) s))
        ide_read (b * 8 % 2 ^ 32) (diskaddr b) 8

      after : Proc Server ℕ
      after = do
        mapped ← get (λ s. block_is_mapped s b)
        if mapped then pure tt else load_it
        pure (diskaddr b)

  mem_alloc_lem :
      (s : Server) (rest : List Bool)
      → s.answers ≡ true ∷ rest
      → mem_alloc (diskaddr b) s ≡ ok tt (zeroed s rest)
  unfolding mem_alloc
  mem_alloc_lem s rest a = rw in_user_part (simp a refl)

  pub here_now : (s : Server) (rest : List Bool) → block_is_mapped (zeroed s rest) b ≡ true
  here_now s rest = ground arith

  pub read_block_lem :
      (s : Server) (rest : List Bool)
      → IsMounted n s
      → b < n
      → is_free s b ≡ false
      → block_is_mapped s b ≡ false
      → s.answers ≡ true ∷ rest
      → read_block b s ≡ ok (diskaddr b) (back s rest)
  unfolding read_block
  read_block_lem s rest m h u g a =
      ap (λ r. and_then r (λ _. after)) (check_block_lem s m h u)
      ∙ ap (λ t. (do if t then pure tt else load_it; pure (diskaddr b)) s) g
      ∙ ap (λ r. and_then (and_then (ignored r) (λ _. reading)) (λ _. pure (diskaddr b)))
          (mem_alloc_lem s rest a)
      ∙ ap (λ r. and_then r (λ _. pure (diskaddr b)))
          (ide_read_lem b small (zeroed s rest) (here_now s rest))
    where
      reading : Proc Server (Unit {0})
      reading = ide_read (b * 8 % 2 ^ 32) (diskaddr b) 8

      load_it : Proc Server (Unit {0})
      load_it = do (λ s. ignored (mem_alloc (diskaddr b) s)); reading

      after : Proc Server ℕ
      after = do
        mapped ← get (λ s. block_is_mapped s b)
        if mapped then pure tt else load_it
        pure (diskaddr b)

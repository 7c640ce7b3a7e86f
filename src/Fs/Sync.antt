-- ===== src/Fs/Sync.antt =====
-- fs_sync brings the disk up to date with the cache.
use mathlib.Core.Path.{fun_ext}
use native.Mathlib.Decide.{ℕ_discrete}
use run_mos_on_risc_v.Prelude.{
  ℕ, zero, suc, ◌+◌, ◌*◌, ◌/◌, ◌%◌, ◌≤◌, ◌<◌, ◌≡◌, ◌≢◌, ap, ◌∙◌, Bool, true, false, arith, ltb, leb,
  ◌&&◌, if◌then◌else◌, inl, inr, Bool-cases,
}
use run_mos_on_risc_v.Prelude.Proc.{pure, ok, and_then}
use run_mos_on_risc_v.Fs.Cache.{
  Server, diskaddr, block_is_dirty, block_is_mapped, s_nblocks, write_block,
}
use run_mos_on_risc_v.Fs.Cache.Sectors.{disk_of, write_block_lem, copy_bytes_at, copy_bytes_off}
use run_mos_on_risc_v.Fs.File.{sync_block, sync_blocks, fs_sync}

-- The disk with the n blocks from i brought up to date: a block that is mapped and dirty has its
-- cached bytes, the others stay.
abbrev pub synced : ℕ → ℕ → Server → ℕ → ℕ
synced n i s x =
    if leb i (x / 4096) && ltb (x / 4096) (i + n) && block_is_dirty s (x / 4096)
    then s.mem (diskaddr (x / 4096) + x % 4096)
    else s.disk x

one_block :
    (b : ℕ) (small : b < 0x4_0000) (s : Server)
    → block_is_dirty s b ≡ true
    → (x : ℕ) → disk_of b small s x ≡ synced 1 b s x
one_block b small s d x = elim (ℕ_discrete (x / 4096) b) [
  | yes e ↦
      let p : x ≡ b * 4096 + x % 4096 = omega arith in
      let t : (leb b (x / 4096) && ltb (x / 4096) (b + 1) && block_is_dirty s (x / 4096)) ≡ true =
        rw e (rw d (ground arith)) in
      ap (disk_of b small s) p
      ∙ copy_bytes_at (b * 4096) 4096 (λ j. s.mem (diskaddr b + j)) s.disk (x % 4096) (omega arith)
      ∙ rw t (rw e)
  | no n ↦
      copy_bytes_off (b * 4096) 4096 (λ j. s.mem (diskaddr b + j)) s.disk x (ground arith)
      ∙ rw (not_here b x n)
]
  where
    not_here : (b x : ℕ) → x / 4096 ≢ b → (leb b (x / 4096) && ltb (x / 4096) (b + 1)) ≡ false
    not_here b x n = ground arith

clean_block :
    (b : ℕ) (s : Server) → block_is_dirty s b ≡ false → (x : ℕ) → s.disk x ≡ synced 1 b s x
clean_block b s d x = elim (ℕ_discrete (x / 4096) b) [
  | yes e ↦ rw (e, d) (ground arith)
  | no n ↦ ground arith
]

sync_block_lem :
    (b : ℕ) (small : b < 0x4_0000) (s : Server)
    → sync_block b s ≡ ok tt (record s { disk = synced 1 b s })
unfolding sync_block
sync_block_lem b small s = elim (Bool-cases (block_is_dirty s b)) [
  | inl d ↦
      ap (λ t. (if t then write_block b else pure tt) s) d
      ∙ write_block_lem b small s (dirty_mapped d)
      ∙ ap (λ e. ok tt (record s { disk = e })) (fun_ext (one_block b small s d))
  | inr d ↦
      ap (λ t. (if t then write_block b else pure tt) s) d
      ∙ ap (λ e. ok tt (record s { disk = e })) (fun_ext (clean_block b s d))
]
  where
    dirty_mapped : block_is_dirty s b ≡ true → block_is_mapped s b ≡ true
    dirty_mapped d = ground arith

synced_parts :
    (n i : ℕ) (s : Server) (x : ℕ)
    → synced n (i + 1) (record s { disk = synced 1 i s }) x ≡ synced (suc n) i s x
synced_parts n i s x =
    by_dirty (block_is_dirty s (x / 4096)) (s.mem (diskaddr (x / 4096) + x % 4096)) (s.disk x)
  where
    by_dirty :
        (d : Bool) (a c : ℕ)
        → (if leb (i + 1) (x / 4096) && ltb (x / 4096) (i + 1 + n) && d
            then a
            else (if leb i (x / 4096) && ltb (x / 4096) (i + 1) && d then a else c))
          ≡ (if leb i (x / 4096) && ltb (x / 4096) (i + suc n) && d then a else c)
    by_dirty d a c = ground arith

synced_none : (i : ℕ) (s : Server) (x : ℕ) → s.disk x ≡ synced 0 i s x
synced_none i s x =
    not_here (block_is_dirty s (x / 4096)) (s.mem (diskaddr (x / 4096) + x % 4096)) (s.disk x)
  where
    not_here :
        (d : Bool) (a c : ℕ)
        → c ≡ (if leb i (x / 4096) && ltb (x / 4096) (i + 0) && d then a else c)
    not_here d a c = ground arith

sync_blocks_lem :
    (n i : ℕ) (s : Server)
    → i + n ≤ 0x4_0000
    → sync_blocks n i s ≡ ok tt (record s { disk = synced n i s })
unfolding sync_blocks
sync_blocks_lem zero i s h = ap (λ e. ok tt (record s { disk = e })) (fun_ext (synced_none i s))
sync_blocks_lem (suc n) i s h =
    ap (λ r. and_then r (λ _. sync_blocks n (i + 1))) (sync_block_lem i (omega arith) s)
    ∙ sync_blocks_lem n (i + 1) (record s { disk = synced 1 i s }) (omega arith)
    ∙ ap (λ e. ok tt (record s { disk = e })) (fun_ext (synced_parts n i s))

-- On a disk of at most 2 ^ 18 blocks fs_sync succeeds; each byte of the disk in a block that is mapped
-- and dirty in the cache is then the cached one, every other byte is as before, and nothing else
-- changes.
pub fs_sync_lem :
    (s : Server) (n : ℕ)
    → s_nblocks s ≡ ok n s
    → n ≤ 0x4_0000
    → fs_sync s ≡ ok tt (record s { disk = synced n 0 s })
unfolding fs_sync
fs_sync_lem s n p h =
    ap (λ r. and_then r (λ m. sync_blocks m 0)) p ∙ sync_blocks_lem n 0 s (omega arith)

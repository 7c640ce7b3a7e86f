-- ===== src/Fs/Slots.antt =====
-- fs/fs.c: the block numbers of a file, direct and by the indirect block.
use run_mos_on_risc_v.Prelude.{
  ℕ, ◌+◌, ◌*◌, ◌<◌, ◌≡◌, ◌≢◌, refl, sym, ap, ◌∙◌, true, false, not, arith, leb, ltb, ◌==◌,
  if◌then◌else◌, inl, inr, Bool-cases,
}
use run_mos_on_risc_v.Prelude.Proc.{
  Run, Proc, ok, err, pure, fail, and_then, ◌>>=◌, ◌>>◌, inval, not_found,
}
use run_mos_on_risc_v.Bytes.{load_word}
use run_mos_on_risc_v.Fs.Cache.{Server, vpn, load, diskaddr, read_block, block_is_mapped}
use run_mos_on_risc_v.Fs.File.{
  f_direct, f_indirect, ndirect, nindirect, file_block_walk, file_map_block, need_block,
  need_indirect,
}
use run_mos_on_risc_v.Fs.Bitmap.{IsMounted, is_free, load_at}
use run_mos_on_risc_v.Fs.Transfer.{cached_block_lem}

-- The number of the indirect block, and of block i of the file; 0 stands for none.
abbrev pub indirect_no : ℕ → Server → ℕ
indirect_no f s = load_word s.mem (f_indirect f)

abbrev pub block_no : ℕ → ℕ → Server → ℕ
block_no f i s =
    if ltb i 10
    then load_word s.mem (f_direct f i)
    else if indirect_no f s == 0
    then 0
    else load_word s.mem (diskaddr (indirect_no f s) + 4 * i)

-- The file lies in the cache, and so does its indirect block, if it has one, which is in use.
pub record IsFile (n f : ℕ) (s : Server) : Type 0 where
  pub direct_in_cache : (i : ℕ) → i < 10 → s.mapped (vpn (f_direct f i)) ≡ true
  pub indirect_in_cache : s.mapped (vpn (f_indirect f)) ≡ true
  pub below : indirect_no f s ≢ 0 → indirect_no f s < n
  pub used : indirect_no f s ≢ 0 → is_free s (indirect_no f s) ≡ false
  pub cached : indirect_no f s ≢ 0 → block_is_mapped s (indirect_no f s) ≡ true

at_slot :
    (a : ℕ) (s : Server)
    → s.mapped (vpn a) ≡ true
    → (do need_block a false; load a) s
      ≡ (if load_word s.mem a == 0 then err not_found s else ok (load_word s.mem a) s)
unfolding need_block
at_slot a s t =
    ap
      (λ r.
        and_then (and_then r (λ b. if not (b == 0) then pure tt else fail not_found)) (λ _. load a))
      known
    ∙ elim (Bool-cases (load_word s.mem a == 0)) [ inl z ↦ rw z | inr z ↦ rw z known ]
  where
    known : load a s ≡ ok (load_word s.mem a) s
    known = load_at a a s refl t

module _ (n f : ℕ) (s : Server) (m : IsMounted n s) (g : IsFile n f s) where
  indirect_known : load (f_indirect f) s ≡ ok (indirect_no f s) s
  indirect_known = load_at (f_indirect f) (f_indirect f) s refl g.indirect_in_cache

  abbrev asked : ℕ → Proc Server (Unit {0})
  asked b = if not (b == 0) then pure tt else fail not_found

  need_indirect_lem : need_indirect f false s ≡ asked (indirect_no f s) s
  unfolding need_indirect
  need_indirect_lem = ap (λ r. and_then r asked) indirect_known

  -- The slot of block i below 10, and from there below 1024.
  direct_slot : (i : ℕ) → i < 10 → file_block_walk f i false s ≡ ok (f_direct f i) s
  unfolding file_block_walk
  direct_slot i l = let t : ltb i ndirect ≡ true = ground arith in rw t

  abbrev after : ℕ → Proc Server ℕ
  after i = do b ← load (f_indirect f); blk ← read_block b; pure (blk + 4 * i)

  indirect_slot :
      (i : ℕ)
      → ltb i 10 ≡ false
      → i < 1024
      → file_block_walk f i false s ≡ (do asked (indirect_no f s); after i) s
  unfolding file_block_walk
  indirect_slot i l h =
      let t : ltb i nindirect ≡ true = ground arith in
      rw (l, t) (ap (λ r. and_then r (λ _. after i)) need_indirect_lem)

  after_lem :
      (i : ℕ)
      → (z : (indirect_no f s == 0) ≡ false) → after i s ≡ ok (diskaddr (indirect_no f s) + 4 * i) s
  after_lem i z =
      let there : indirect_no f s ≢ 0 = ground arith in
      ap (λ r. and_then r (λ b. do blk ← read_block b; pure (blk + 4 * i))) indirect_known
      ∙ ap (λ r. and_then r (λ blk. pure (blk + 4 * i)))
          (cached_block_lem n (indirect_no f s) (omega (arith, m.small, g.below there)) s m
            (g.below there) (g.used there) (g.cached there))

  abbrev at : ℕ → Proc Server ℕ
  at a = do need_block a false; load a

  -- A slot that is known.
  abbrev read_slot : ℕ → Run Server ℕ
  read_slot v = if v == 0 then err not_found s else ok v s

  in_direct :
      (i : ℕ) → i < 10 → file_map_block f i false s ≡ read_slot (load_word s.mem (f_direct f i))
  unfolding file_map_block
  in_direct i l =
      ap (λ r. and_then r at) (direct_slot i l) ∙ at_slot (f_direct f i) s (g.direct_in_cache i l)

  slot_page : (i b : ℕ) → b < 0x4_0000 → i < 1024 → vpn (diskaddr b) ≡ vpn (diskaddr b + 4 * i)
  slot_page i b l h = omega arith

  no_block :
      (i : ℕ)
      → (indirect_no f s == 0) ≡ true
      → (do asked (indirect_no f s); after i) s ≡ err not_found s
  no_block i z = rw z

  in_indirect :
      (i : ℕ)
      → ltb i 10 ≡ false
      → i < 1024
      → file_map_block f i false s ≡ (
          if indirect_no f s == 0
          then err not_found s
          else read_slot (load_word s.mem (diskaddr (indirect_no f s) + 4 * i)))
  unfolding file_map_block
  in_indirect i l h =
      ap (λ r. and_then r at) (indirect_slot i l h) ∙ elim (Bool-cases (indirect_no f s == 0)) [
        | inl z ↦ rw z
        | inr z ↦
            let there : indirect_no f s ≢ 0 = ground arith in
            rw z (
              ap (λ r. and_then r at) (after_lem i z)
              ∙ at_slot (diskaddr (indirect_no f s) + 4 * i) s (
                  ap (s.mapped)
                    (sym (slot_page i (indirect_no f s) (omega (arith, m.small, g.below there)) h))
                  ∙ g.cached there))
      ]

  beyond_range : (i : ℕ) → leb 1024 i ≡ true → file_map_block f i false s ≡ err inval s
  unfolding file_map_block file_block_walk
  beyond_range i h =
      let t : ltb i ndirect ≡ false = ground arith in
      let u : ltb i nindirect ≡ false = ground arith in rw (t, u)

-- What file_map_block gives where it may not allocate.
abbrev pub Mapped : ℕ → ℕ → Server → Run Server ℕ
Mapped f i s =
    if leb 1024 i
    then err inval s
    else if block_no f i s == 0
    then err not_found s
    else ok (block_no f i s) s

-- In a mounted file system, for a file that lies in the cache with its indirect block, file_map_block without allocation changes nothing: it fails with -E_INVAL
-- exactly for the numbers from 1024 on, with -E_NOT_FOUND exactly where the file has no such block, and
-- gives the block's number otherwise.
pub file_map_block_lem :
    (n f i : ℕ) (s : Server)
    → IsMounted n s
    → IsFile n f s
    → file_map_block f i false s ≡ Mapped f i s
file_map_block_lem n f i s m g = elim (Bool-cases (ltb i 10)) [
  | inl l ↦
      let low : leb 1024 i ≡ false = ground arith in
      in_direct n f s m g i (ground arith) ∙ rw (low, l)
  | inr l ↦ elim (Bool-cases (leb 1024 i)) [
    | inl h ↦ beyond_range n f s m g i h ∙ rw h
    | inr h ↦
        in_indirect n f s m g i l (ground arith)
        ∙ elim (Bool-cases (indirect_no f s == 0)) [ inl z ↦ rw (h, l, z) | inr z ↦ rw (h, l, z) ]
  ]
]

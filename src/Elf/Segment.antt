-- ===== src/Elf/Segment.antt =====
-- elf_load_seg of lib/elfloader.c: the memory image of a segment.
use native.Mathlib.Decide.{ℕ_discrete}
use run_mos_on_risc_v.Prelude.{
  ℕ, zero, suc, ◌+◌, ◌-◌, ◌*◌, ◌/◌, ◌%◌, ◌≤◌, ◌<◌, ◌≡◌, ◌≢◌, ◌⊎◌, refl, ap, ◌∙◌, Bool, true, not,
  none, some, arith, ltb, ◌==◌, if◌then◌else◌, inl, inr, Bool-cases,
}
use run_mos_on_risc_v.Prelude.Proc.{ok, Proc, and_then, pure, ◌>>=◌, ◌>>◌}
use run_mos_on_risc_v.Mmu.{word_mod, round_down}
use run_mos_on_risc_v.Elf.{Phdr, perm_of, min_of, offset_of, load_pages, clear_pages, elf_load_seg}
use run_mos_on_risc_v.Elf.Pages.{Image, place, Done, filled, cleared, filled-Done, cleared-Done}

module _ (file : ℕ → ℕ) (ph : Phdr) (bin : ℕ) (low : ph.vaddr + ph.memsz + 4096 < word_mod)
    (sized : ph.filesz ≤ ph.memsz) where
  no_wrap : (i : ℕ) → i < ph.memsz + 4096 → (ph.vaddr + i) % word_mod ≡ ph.vaddr + i
  no_wrap i h = omega arith

  abbrev Loaded : ℕ → ℕ → Image → Type 0
  Loaded fuel i m =
      (k : ℕ) × (m' : Image) × (load_pages (place file) ph bin fuel i m ≡ ok k m')
      × (ph.filesz ≤ k)
      × (k < ph.filesz + 4096)
      × ((ph.vaddr + k) % 4096 ≡ 0)
      × Done file ph bin low sized k m'

  load_lem :
      (fuel i : ℕ) (m : Image)
      → (ph.vaddr + i) % 4096 ≡ 0
      → i < ph.filesz + 4096
      → ph.filesz + 4096 ≤ i + 4096 * fuel
      → Done file ph bin low sized i m
      → Loaded fuel i m
  unfolding load_pages
  load_lem zero i m e h l d = absurd (omega arith)
  load_lem (suc n) i m e h l d = elim (Bool-cases (ltb i ph.filesz)) [
    | inl t ↦
        let (k, m', r, a, b, c, f) =
          load_lem n (i + 4096) (filled file ph bin low sized i 0 (min_of (ph.filesz - i) 4096) m)
            (omega arith) (ground arith) (omega arith)
            (filled-Done file ph bin low sized i 0 m e (inr refl) d) in
        (
          k,
          m',
          rw t (
              ap
                (λ a.
                  and_then
                    (place file a 0 (perm_of ph.flags) (some (bin + i))
                      (min_of (ph.filesz - i) 4096) m)
                    (λ _. load_pages (place file) ph bin n (i + 4096)))
                (no_wrap i (omega arith))
              ∙ r),
          a,
          b,
          c,
          f,
        )
    | inr t ↦ (i, m, rw t, ground arith, h, e, d)
  ]

  clear_lem :
      (fuel i : ℕ) (m : Image)
      → (ph.vaddr + i) % 4096 ≡ 0
      → ph.filesz ≤ i
      → i < ph.memsz + 4096
      → ph.memsz + 4096 ≤ i + 4096 * fuel
      → Done file ph bin low sized i m
      → (m' : Image) × (clear_pages (place file) ph bin fuel i m ≡ ok tt m')
        × Done file ph bin low sized ph.memsz m'
  unfolding clear_pages
  clear_lem zero i m e s h l d = absurd (omega arith)
  clear_lem (suc n) i m e s h l d = elim (Bool-cases (ltb i ph.memsz)) [
    | inl t ↦
        let (m', r, f) =
          clear_lem n (i + 4096) (cleared file ph bin low sized i m) (omega arith) (omega arith)
            (ground arith) (omega arith) (cleared-Done file ph bin low sized i m e s d) in
        (
          m',
          rw t (
              ap
                (λ a.
                  and_then
                    (place file a 0 (perm_of ph.flags) none
                      (min_of ((ph.filesz + word_mod - i) % word_mod) 4096) m)
                    (λ _. clear_pages (place file) ph bin n (i + 4096)))
                (no_wrap i h)
              ∙ r),
          f,
        )
    | inr t ↦ (m, rw t, (λ j k. d j (ground arith)))
  ]

  -- The two loops from i.
  abbrev loops : ℕ → Proc Image (Unit {0})
  loops i = do
    k ← load_pages (place file) ph bin (ph.filesz / 4096 + 2) i
    clear_pages (place file) ph bin (ph.memsz / 4096 + 2) k

  loops_lem :
      (i : ℕ) (m : Image)
      → (ph.vaddr + i) % 4096 ≡ 0
      → i < ph.filesz + 4096
      → Done file ph bin low sized i m
      → (m' : Image) × (loops i m ≡ ok tt m') × Done file ph bin low sized ph.memsz m'
  loops_lem i m e h d =
      let (k, m1, r1, a, b, c, d1) = load_lem (ph.filesz / 4096 + 2) i m e h (omega arith) d in
      let (m2, r2, d2) = clear_lem (ph.memsz / 4096 + 2) k m1 c a (omega arith) (omega arith) d1 in
      (m2, ap (λ r. and_then r (clear_pages (place file) ph bin (ph.memsz / 4096 + 2))) r1 ∙ r2, d2)

  -- elf_load_seg at the offset o in its first page; t says that it is not 0.
  abbrev at_offset : Bool → ℕ → Proc Image (Unit {0})
  at_offset t o = do
    if t
        then place file ph.vaddr o (perm_of ph.flags) (some bin) (min_of ph.filesz (4096 - o))
        else pure tt
    loops (if t then min_of ph.filesz (4096 - o) else 0)

  aligned_lem :
      (m : Image)
      → ph.vaddr % 4096 ≡ 0
      → (m' : Image) × (at_offset
            (not (offset_of (place file) ph bin == 0))
            (offset_of (place file) ph bin)
            m
          ≡ ok tt m')
        × Done file ph bin low sized ph.memsz m'
  aligned_lem m z =
      let o : ph.vaddr - round_down ph.vaddr ≡ 0 = omega arith in
      let (m', r, d) = loops_lem 0 m (omega arith) (omega arith) (λ j l. absurd (omega arith)) in
      (m', ap (λ q. at_offset (not (q == 0)) q m) o ∙ r, d)

  head_lem :
      (q : ℕ) (m : Image)
      → q < 4096
      → 4096 - q ≤ ph.filesz
      → place file ph.vaddr q (perm_of ph.flags) (some bin) (min_of ph.filesz (4096 - q)) m
        ≡ ok tt (filled file ph bin low sized 0 q (min_of (ph.filesz - 0) (4096 - q)) m)
  head_lem q m l h =
      let a : ph.vaddr + 0 ≡ ph.vaddr = omega arith in
      let b : bin + 0 ≡ bin = omega arith in
      let c : ph.filesz - 0 ≡ ph.filesz = omega arith in rw (a, b, c)

  head_is : (q : ℕ) → 4096 - q ≤ ph.filesz → min_of ph.filesz (4096 - q) ≡ 0 + (4096 - q)
  head_is q h = ground arith

  unaligned_lem :
      (m : Image)
      → ph.vaddr % 4096 ≢ 0
      → 4096 - ph.vaddr % 4096 ≤ ph.filesz
      → (m' : Image) × (at_offset
            (not (offset_of (place file) ph bin == 0))
            (offset_of (place file) ph bin)
            m
          ≡ ok tt m')
        × Done file ph bin low sized ph.memsz m'
  unaligned_lem m n h =
      let q : ℕ = ph.vaddr % 4096 in
      let o : ph.vaddr - round_down ph.vaddr ≡ q = omega arith in
      let t : not (q == 0) ≡ true = ground arith in
      let first : Image = filled file ph bin low sized 0 q (min_of (ph.filesz - 0) (4096 - q)) m in
      let (m', r, d) = loops_lem (0 + (4096 - q)) first (omega arith) (omega arith) (
        filled-Done file ph bin low sized 0 q m (omega arith) (inl refl)
          (λ j l. absurd (omega arith))) in
      (
        m',
        ap (λ x. at_offset (not (x == 0)) x m) o
            ∙ ap (λ x. at_offset x q m) t
            ∙ ap (λ x. and_then x (λ _. loops (min_of ph.filesz (4096 - q))))
                (head_lem q m (omega arith) h)
            ∙ ap (λ i. loops i first) (head_is q h)
            ∙ r,
        d,
      )

-- The bytes of the segment are in place: those of the file, and zeros behind them.
abbrev pub IsLoaded : (ℕ → ℕ) → Phdr → ℕ → Image → Type 0
IsLoaded file ph bin m =
    (j : ℕ)
    → j < ph.memsz
    → (m.mapped ((ph.vaddr + j) / 4096) ≡ true)
      × (m.byte (ph.vaddr + j) ≡ (if ltb j ph.filesz then file (bin + j) else 0))

-- If map_page maps a new page of zeros with the bytes of the file at the offset, the segment lies well
-- below the end of the address space, is no smaller than its part in the file, and starts a page or fills
-- its first page from the file, then elf_load_seg succeeds and every byte of the segment is mapped and is
-- the file's, or zero behind the file's part.
pub elf_load_seg-IsLoaded :
    (file : ℕ → ℕ) (ph : Phdr) (bin : ℕ) (m : Image)
    → ph.vaddr + ph.memsz + 4096 < word_mod
    → ph.filesz ≤ ph.memsz
    → (ph.vaddr % 4096 ≡ 0) ⊎ (4096 - ph.vaddr % 4096 ≤ ph.filesz)
    → (m' : Image) × (elf_load_seg (place file) ph bin m ≡ ok tt m') × IsLoaded file ph bin m'
unfolding elf_load_seg
elf_load_seg-IsLoaded file ph bin m low sized (inl z) = aligned_lem file ph bin low sized m z
elf_load_seg-IsLoaded file ph bin m low sized (inr h) = elim (ℕ_discrete (ph.vaddr % 4096) 0) [
  | yes z ↦ aligned_lem file ph bin low sized m z
  | no n ↦ unaligned_lem file ph bin low sized m n h
]

-- ===== src/Elf/Pages.antt =====
-- The pages that elf_load_seg of lib/elfloader.c maps, and the bytes of the segment in them.
use run_mos_on_risc_v.Prelude.{
  ℕ, ◌+◌, ◌-◌, ◌/◌, ◌%◌, ◌≤◌, ◌<◌, ◌≡◌, ◌≢◌, ◌⊎◌, Bool, true, false, ◌&&◌, Option, none, some,
  arith, ltb, leb, ◌==◌, if◌then◌else◌, update, inl, inr, Bool-cases, eq→==, ne→==,
}
use run_mos_on_risc_v.Prelude.Proc.{ok, Proc}
use run_mos_on_risc_v.Mmu.{word_mod}
use run_mos_on_risc_v.Elf.{Phdr, min_of}

-- The pages of an address space that are mapped, and its bytes.
pub record Image : Type 0 where
  pub mapped : ℕ → Bool
  pub byte : ℕ → ℕ

-- A new page of zeros is mapped at va, with the bytes of the file from src, if there is one, at the offset.
abbrev pub place : (ℕ → ℕ) → ℕ → ℕ → ℕ → Option ℕ → ℕ → Proc Image (Unit {0})
place file va offset perm none len m = ok tt (record {
  mapped = update m.mapped (va / 4096) true;
  byte = λ a. if a / 4096 == va / 4096 then 0 else m.byte a;
})
place file va offset perm (some src) len m = ok tt (record {
  mapped = update m.mapped (va / 4096) true;
  byte = λ a.
      if a / 4096 == va / 4096
      then (if leb offset (a % 4096) && ltb (a % 4096) (offset + len)
          then file (src + (a % 4096 - offset))
          else 0)
      else m.byte a;
})

module _ (file : ℕ → ℕ) (ph : Phdr) (bin : ℕ) (low : ph.vaddr + ph.memsz + 4096 < word_mod)
    (sized : ph.filesz ≤ ph.memsz) where
  -- The byte at place j of the segment.
  abbrev pub value : ℕ → ℕ
  value j = if ltb j ph.filesz then file (bin + j) else 0

  -- The first n bytes are in place.
  abbrev pub Done : ℕ → Image → Type 0
  Done n m =
      (j : ℕ)
      → j < n
      → (m.mapped ((ph.vaddr + j) / 4096) ≡ true) × (m.byte (ph.vaddr + j) ≡ value j)

  -- The image once the page of place i has got the file's bytes from there on.
  abbrev pub filled : ℕ → ℕ → ℕ → Image → Image
  filled i o len m = record {
    mapped = update m.mapped ((ph.vaddr + i) / 4096) true;
    byte = λ a.
        if a / 4096 == (ph.vaddr + i) / 4096
        then (if leb o (a % 4096) && ltb (a % 4096) (o + len)
            then file (bin + i + (a % 4096 - o))
            else 0)
        else m.byte a;
  }

  abbrev pub cleared : ℕ → Image → Image
  cleared i m = record {
    mapped = update m.mapped ((ph.vaddr + i) / 4096) true;
    byte = λ a. if a / 4096 == (ph.vaddr + i) / 4096 then 0 else m.byte a;
  }

  mapped_on :
      (i j : ℕ) (m : Image)
      → (m.mapped ((ph.vaddr + j) / 4096) ≡ true) ⊎ ((ph.vaddr + j) / 4096 ≡ (ph.vaddr + i) / 4096)
      → update m.mapped ((ph.vaddr + i) / 4096) true ((ph.vaddr + j) / 4096) ≡ true
  mapped_on i j m o = ground arith

  in_page :
      (i o j : ℕ)
      → (ph.vaddr + i) % 4096 ≡ o
      → i ≤ j
      → j < i + (4096 - o)
      → ((ph.vaddr + j) / 4096 ≡ (ph.vaddr + i) / 4096) × ((ph.vaddr + j) % 4096 ≡ o + (j - i))
  in_page i o j e a b = (omega arith, omega arith)

  before_page :
      (i o j : ℕ)
      → (i ≡ 0) ⊎ ((ph.vaddr + i) % 4096 ≡ 0)
      → j < i
      → (ph.vaddr + j) / 4096 ≢ (ph.vaddr + i) / 4096
  before_page i o j al l = omega arith

  file_byte :
      (i o j : ℕ)
      → o < 4096
      → i ≤ j
      → j < i + (4096 - o)
      → (if leb o (o + (j - i)) && ltb (o + (j - i)) (o + min_of (ph.filesz - i) (4096 - o))
          then file (bin + i + (o + (j - i) - o))
          else 0)
        ≡ value j
  file_byte i o j p a b = elim (Bool-cases (ltb j ph.filesz)) [
    | inl t ↦
        let c : (leb o (o + (j - i)) && ltb (o + (j - i)) (o + min_of (ph.filesz - i) (4096 - o)))
            ≡ true =
          ground arith in
        let e : bin + i + (o + (j - i) - o) ≡ bin + j = omega arith in rw (t, c, e)
    | inr t ↦
        let c : (leb o (o + (j - i)) && ltb (o + (j - i)) (o + min_of (ph.filesz - i) (4096 - o)))
            ≡ false =
          ground arith in
        rw (t, c)
  ]

  pub filled-Done :
      (i o : ℕ) (m : Image)
      → (ph.vaddr + i) % 4096 ≡ o
      → (i ≡ 0) ⊎ (o ≡ 0)
      → Done i m
      → Done (i + (4096 - o)) (filled i o (min_of (ph.filesz - i) (4096 - o)) m)
  filled-Done i o m e al d j l = elim (Bool-cases (ltb j i)) [
    | inl t ↦
        let (p, q) = d j (ground arith) in
        (
          mapped_on i j m (inl p),
          rw (ne→== _ _ (before_page i o j (ground arith) (ground arith))) q,
        )
    | inr t ↦
        let (p, q) = in_page i o j e (ground arith) l in
        (
          mapped_on i j m (inr p),
          rw (eq→== _ _ p, q) (file_byte i o j (omega arith) (ground arith) l),
        )
  ]

  zero_byte : (i j : ℕ) → ph.filesz ≤ i → i ≤ j → 0 ≡ value j
  zero_byte i j a b = let t : ltb j ph.filesz ≡ false = ground arith in rw t

  pub cleared-Done :
      (i : ℕ) (m : Image)
      → (ph.vaddr + i) % 4096 ≡ 0
      → ph.filesz ≤ i
      → Done i m
      → Done (i + 4096) (cleared i m)
  cleared-Done i m e h d j l = elim (Bool-cases (ltb j i)) [
    | inl t ↦
        let (p, q) = d j (ground arith) in
        (mapped_on i j m (inl p), rw (ne→== _ _ (before_page i 0 j (inr e) (ground arith))) q)
    | inr t ↦
        let (p, q) = in_page i 0 j e (ground arith) l in
        (mapped_on i j m (inr p), rw (eq→== _ _ p) (zero_byte i j h (ground arith)))
  ]

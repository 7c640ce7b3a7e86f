-- ===== src/Fd/Table.antt =====
-- user/lib/fd.c: the numbers, addresses and allocation of descriptors.
use run_mos_on_risc_v.Prelude.{
  ℕ, zero, suc, ◌+◌, ◌-◌, ◌<◌, ◌≡◌, refl, true, false, arith, ◌==◌, if◌then◌else◌, inl, inr,
  Bool-cases,
}
use run_mos_on_risc_v.Prelude.Proc.{Run, ok, err, left, panic, wild, inval, max_open}
use run_mos_on_risc_v.Fd.{
  Space, maxfd, index2fd, index2data, fd2num, num2fd, fd2data, has_table, entry_of, is_mapped,
  is_large, find_fd, fd_alloc, fd_lookup,
}

pub fd2num-index2fd : (i : ℕ) → i < maxfd → fd2num (index2fd i) ≡ i
unfolding fd2num
fd2num-index2fd i h = omega arith

num2fd-index2fd : (i : ℕ) → num2fd i ≡ index2fd i
unfolding num2fd
num2fd-index2fd i = omega arith

pub fd2data-index2fd : (i : ℕ) → i < maxfd → fd2data (index2fd i) ≡ index2data i
unfolding fd2data
fd2data-index2fd i h = omega arith

-- The numbers below i are in use.
abbrev pub Taken : ℕ → Space → Type 0
Taken i s = (j : ℕ) → j < i → is_mapped (index2fd j) s ≡ true

-- fd_alloc gives the address of the least number that is not in use, which fd2num leads back to and
-- fd_lookup refuses, and changes nothing; or all numbers but the last are in use.
abbrev pub Allotted : Space → Run Space ℕ → Type 0
Allotted s (ok fd t) =
    (t ≡ s)
    × ((i : ℕ) × (suc i < maxfd)
        × Taken i s
        × (is_mapped fd s ≡ false)
        × (fd2num fd ≡ i)
        × (num2fd i ≡ fd)
        × (fd_lookup i s ≡ err inval s))
Allotted s (err e t) = (t ≡ s) × (e ≡ max_open) × Taken (maxfd - 1) s
Allotted s (left t) = ⊥
Allotted s panic = ⊥
Allotted s wild = ⊥

lookup_free :
    (i : ℕ) (s : Space) → i < maxfd → is_mapped (index2fd i) s ≡ false → fd_lookup i s ≡ err inval s
unfolding fd_lookup
lookup_free i s h m = let small : is_large i ≡ false = ground arith in rw (small, m) refl

module _ (s : Space) where
  gives :
      (i : ℕ)
      → suc i < maxfd
      → Taken i s
      → is_mapped (index2fd i) s ≡ false
      → Allotted s (ok (index2fd i) s)
  gives i h t f = (
    refl,
    (
      i,
      h,
      t,
      f,
      fd2num-index2fd i (omega arith),
      num2fd-index2fd i,
      lookup_free i s (omega arith) f,
    ),
  )

  Taken-suc : (i : ℕ) → Taken i s → is_mapped (index2fd i) s ≡ true → Taken (i + 1) s
  Taken-suc i t h j l = elim (Bool-cases (j == i)) [
    | inl e ↦ let p : j ≡ i = ground arith in rw p h
    | inr n ↦ t j (ground arith)
  ]

  find_fd_step :
      (n i : ℕ)
      → find_fd (suc n) i s
        ≡ (if is_mapped (index2fd i) s then find_fd n (i + 1) s else ok (index2fd i) s)
  unfolding find_fd
  find_fd_step n i = elim (Bool-cases (has_table (index2fd i) s)) [
    | inr z ↦ rw z refl
    | inl z ↦ elim (Bool-cases (entry_of (index2fd i) s).valid) [
      | inl o ↦ rw (z, o) refl
      | inr o ↦ rw (z, o) refl
    ]
  ]

  find_fd-zero : (i : ℕ) → find_fd zero i s ≡ err max_open s
  unfolding find_fd
  find_fd-zero i = refl

  find_fd-Allotted : (n i : ℕ) → i + n ≡ maxfd - 1 → Taken i s → Allotted s (find_fd n i s)
  find_fd-Allotted zero i e t =
      let z : i ≡ maxfd - 1 = omega arith in rw (find_fd-zero i) (refl, refl, rw z at t)
  find_fd-Allotted (suc n) i e t =
      rw (find_fd_step n i) (elim (Bool-cases (is_mapped (index2fd i) s)) [
        | inl m ↦ rw m (find_fd-Allotted n (i + 1) (omega arith) (Taken-suc i t m))
        | inr m ↦ rw m (gives i (omega arith) t m)
      ])

-- fd_alloc changes nothing. It gives the address of the least number whose page is not mapped,
-- below the last of the table, which fd2num leads back to and fd_lookup refuses; or it fails with
-- max_open, and all numbers but the last are mapped.
pub fd_alloc-Allotted : (s : Space) → Allotted s (fd_alloc s)
unfolding fd_alloc
fd_alloc-Allotted s = find_fd-Allotted s (maxfd - 1) 0 refl (λ j h. absurd (omega arith))

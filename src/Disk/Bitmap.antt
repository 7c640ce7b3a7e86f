-- ===== src/Disk/Bitmap.antt =====
-- The bitmap of free descriptors: alloc_desc, free_desc and alloc_3_desc.
use native.Mathlib.Nat.{pow-suc}
use native.Mathlib.Decide.{ℕ_discrete}
use run_mos_on_risc_v.Prelude.{
  ℕ, zero, suc, ◌+◌, ◌*◌, ◌/◌, ◌%◌, ◌^◌, ◌≤◌, ◌<◌, ◌≡◌, ◌≢◌, ◌⊎◌, refl, sym, ◌∙◌, true, false,
  Option, none, some, List, [], ◌∷◌, inl, inr, Bool-cases, arith, ◌==◌, if◌then◌else◌, lt→ltb,
  ne→==, eq→==,
}
use run_mos_on_risc_v.Prelude.Bits.{test_bit, set_bit, clear_bit, test_bit-clear_bit}
use run_mos_on_risc_v.Prelude.Proc.{ok, err, no_ring_desc}
use run_mos_on_risc_v.Disk.{Disk, find_bit, alloc_desc, free_desc, free_all, alloc_3_desc}

-- What the search over n places from i answers.
pub data Search (n i w : ℕ) : Option ℕ → Type 0 where
  hit : (j : ℕ) → i ≤ j → j < i + n → test_bit w j ≡ true → Search n i w (some j)
  miss : ((k : ℕ) → i ≤ k → k < i + n → test_bit w k ≡ false) → Search n i w none

Search-later :
    (n i w : ℕ) (o : Option ℕ) → test_bit w i ≡ false → Search n (i + 1) w o → Search (suc n) i w o
Search-later n i w (some j) b (hit _ lo hi t) = hit j (omega arith) (omega arith) t
Search-later n i w none b (miss f) =
    miss λ k lo hi. elim (ℕ_discrete i k) [
      | yes e ↦ rw (← e) b
      | no n ↦ f k (omega arith) (omega arith)
    ]

pub find_bit-Search : (n i w : ℕ) → Search n i w (find_bit n i w)
unfolding find_bit
find_bit-Search zero i w = miss (λ k lo hi. absurd (omega arith))
find_bit-Search (suc n) i w = elim (Bool-cases (test_bit w i)) [
  | inl b ↦ rw b (hit i (omega arith) (omega arith) b)
  | inr b ↦ rw b (Search-later n i w (find_bit n (i + 1) w) b (find_bit-Search n (i + 1) w))
]

-- A number below 2 ^ n with none of its first n bits set is zero.
pub zero_of_bits : (n w : ℕ) → w < 2 ^ n → ((k : ℕ) → k < n → test_bit w k ≡ false) → w ≡ 0
zero_of_bits zero w h f = omega arith
zero_of_bits (suc n) w h f =
    let half =
      zero_of_bits n (w / 2) (omega (arith, pow-suc 2 n)) (λ k lt. f (suc k) (omega arith)) in
    let low : (w % 2 == 1) ≡ false = f 0 (omega arith) in ground arith

pub clear_bit-le : (w i : ℕ) → clear_bit w i ≤ w
clear_bit-le w zero = omega arith
clear_bit-le w (suc i) = omega (arith, clear_bit-le (w / 2) i)

-- Taking a set bit out and putting it back gives the same word.
pub set_bit-clear_bit : (w i : ℕ) → test_bit w i ≡ true → set_bit (clear_bit w i) i ≡ w
set_bit-clear_bit w zero h = ground arith
set_bit-clear_bit w (suc i) h =
    let e : (clear_bit (w / 2) i * 2 + w % 2) / 2 ≡ clear_bit (w / 2) i = omega arith in
    rw e (omega (arith, set_bit-clear_bit (w / 2) i h))

abbrev pub with_bits : Disk → ℕ → Disk
with_bits d w = record d { desc_free_bitmap = w }

-- What alloc_desc does: it fails without change on the empty bitmap, and otherwise takes a free
-- descriptor.
abbrev pub Taken : Disk → Type 0
Taken d =
    ((d.desc_free_bitmap ≡ 0) × (alloc_desc d ≡ err no_ring_desc d))
    ⊎ ((i : ℕ) × (i < 32)
        × (test_bit d.desc_free_bitmap i ≡ true)
        × (alloc_desc d ≡ ok i (with_bits d (clear_bit d.desc_free_bitmap i))))

alloc_found :
    (d : Disk) (o : Option ℕ)
    → d.desc_free_bitmap < 2 ^ 32
    → d.desc_free_bitmap ≢ 0
    → find_bit 32 0 d.desc_free_bitmap ≡ o
    → Search 32 0 d.desc_free_bitmap o
    → Taken d
unfolding alloc_desc
alloc_found d (some j) b z e (hit _ lo hi t) =
    inr (j, omega arith, t, rw (ne→== d.desc_free_bitmap 0 z, e))
alloc_found d none b z e (miss f) =
    absurd (z (zero_of_bits 32 d.desc_free_bitmap b (λ k h. f k (omega arith) (omega arith))))

pub alloc_desc-Taken : (d : Disk) → d.desc_free_bitmap < 2 ^ 32 → Taken d
unfolding alloc_desc
alloc_desc-Taken d b = elim (ℕ_discrete d.desc_free_bitmap 0) [
  | yes z ↦ inl (z, rw (eq→== d.desc_free_bitmap 0 z))
  | no z ↦
      alloc_found d (find_bit 32 0 d.desc_free_bitmap) b z refl
        (find_bit-Search 32 0 d.desc_free_bitmap)
]

-- free_desc gives back a descriptor that is not free.
pub free_desc_lem :
    (d : Disk) (i : ℕ)
    → i < 32
    → test_bit d.desc_free_bitmap i ≡ false
    → free_desc i d ≡ ok tt (with_bits d (set_bit d.desc_free_bitmap i))
unfolding free_desc
free_desc_lem d i h t = rw (lt→ltb i 32 h, t)

-- The bitmap after descriptors of a list were taken, the first one first.
abbrev pub cleared : ℕ → List ℕ → ℕ
cleared w [] = w
cleared w (i ∷ is) = cleared (clear_bit w i) is

pub clear_bit_self : (w i : ℕ) → test_bit (clear_bit w i) i ≡ false
clear_bit_self w i = rw (test_bit-clear_bit w i i) (ground arith)

-- A descriptor that was free and is taken differs from those taken before it.
pub taken_ne : (w i j : ℕ) → test_bit (clear_bit w i) j ≡ true → (i ≢ j) × (test_bit w j ≡ true)
taken_ne w i j h =
    let e : (if i == j then false else test_bit w j) ≡ true = rw (test_bit-clear_bit w i j) at h in
    ground arith

-- Two descriptors are all that are free.
abbrev pub FewFree : ℕ → Type 0
FewFree w = (i j : ℕ) × (clear_bit (clear_bit w i) j ≡ 0)

-- The outcome of alloc_3_desc: all three, different and free before, or the driver as it was.
abbrev pub TakenThree : Disk → Type 0
TakenThree d =
    ((alloc_3_desc d ≡ err no_ring_desc d) × FewFree d.desc_free_bitmap)
    ⊎ ((i j k : ℕ) × (i < 32)
        × (j < 32)
        × (k < 32)
        × (test_bit d.desc_free_bitmap i ≡ true)
        × (test_bit (clear_bit d.desc_free_bitmap i) j ≡ true)
        × (test_bit (clear_bit (clear_bit d.desc_free_bitmap i) j) k ≡ true)
        × (alloc_3_desc d
            ≡ ok (i ∷ j ∷ k ∷ []) (with_bits d (cleared d.desc_free_bitmap (i ∷ j ∷ k ∷ [])))))

clear_comm_zero :
    (w j : ℕ) → clear_bit (clear_bit w zero) (suc j) ≡ clear_bit (clear_bit w (suc j)) zero
clear_comm_zero w j = let e : w / 2 * 2 / 2 ≡ w / 2 = omega arith in rw e (omega arith)

pub clear_comm : (w i j : ℕ) → clear_bit (clear_bit w i) j ≡ clear_bit (clear_bit w j) i
clear_comm w zero zero = refl
clear_comm w zero (suc j) = clear_comm_zero w j
clear_comm w (suc i) zero = sym (clear_comm_zero w i)
clear_comm w (suc i) (suc j) =
    let e : (clear_bit (w / 2) i * 2 + w % 2) / 2 ≡ clear_bit (w / 2) i = omega arith in
    let f : (clear_bit (w / 2) j * 2 + w % 2) / 2 ≡ clear_bit (w / 2) j = omega arith in
    rw (e, f, clear_comm (w / 2) i j) (omega arith)

free_one :
    (d : Disk) (i : ℕ)
    → i < 32
    → test_bit d.desc_free_bitmap i ≡ true
    → free_desc i (with_bits d (clear_bit d.desc_free_bitmap i)) ≡ ok tt d
free_one d i h t =
    free_desc_lem (with_bits d (clear_bit d.desc_free_bitmap i)) i h
      (clear_bit_self d.desc_free_bitmap i)
    ∙ rw (set_bit-clear_bit d.desc_free_bitmap i t)

module _ (d : Disk) (b : d.desc_free_bitmap < 2 ^ 32) where
  abbrev w : ℕ
  w = d.desc_free_bitmap

  module _ (i : ℕ) (hi : i < 32) (ti : test_bit w i ≡ true)
      (ai : alloc_desc d ≡ ok i (with_bits d (clear_bit w i))) where
    abbrev d1 : Disk
    d1 = with_bits d (clear_bit w i)

    second_fails : alloc_desc d1 ≡ err no_ring_desc d1 → alloc_3_desc d ≡ err no_ring_desc d
    unfolding alloc_3_desc free_all
    second_fails e = rw (ai, e, free_one d i hi ti)

    module _ (j : ℕ) (hj : j < 32) (tj : test_bit (clear_bit w i) j ≡ true)
        (aj : alloc_desc d1 ≡ ok j (with_bits d (clear_bit (clear_bit w i) j))) where
      abbrev d2 : Disk
      d2 = with_bits d (clear_bit (clear_bit w i) j)

      free_first : free_desc i d2 ≡ ok tt (with_bits d (clear_bit w j))
      free_first =
          let n = taken_ne w i j tj in
          let t : test_bit (clear_bit w j) i ≡ true =
            rw (test_bit-clear_bit w j i) (ground arith) in
          rw (clear_comm w i j) (free_one (with_bits d (clear_bit w j)) i hi t)

      third_fails : alloc_desc d2 ≡ err no_ring_desc d2 → alloc_3_desc d ≡ err no_ring_desc d
      unfolding alloc_3_desc free_all
      third_fails e = rw (ai, aj, e, free_first, free_one d j hj (taken_ne w i j tj).1)

      all_taken :
          (k : ℕ)
          → alloc_desc d2 ≡ ok k (with_bits d (clear_bit (clear_bit (clear_bit w i) j) k))
          → alloc_3_desc d ≡ ok (i ∷ j ∷ k ∷ []) (with_bits d (cleared w (i ∷ j ∷ k ∷ [])))
      unfolding alloc_3_desc
      all_taken k e = rw (ai, aj, e)

  first_fails : alloc_desc d ≡ err no_ring_desc d → alloc_3_desc d ≡ err no_ring_desc d
  unfolding alloc_3_desc free_all
  first_fails e = rw e

bounded : (w i : ℕ) → w < 2 ^ 32 → clear_bit w i < 2 ^ 32
bounded w i h = omega (arith, clear_bit-le w i)

-- On a bitmap of 32 bits alloc_3_desc takes three different free descriptors, or leaves the driver
-- exactly as it was, and then fewer than three were free.
pub alloc_3_desc-TakenThree : (d : Disk) → d.desc_free_bitmap < 2 ^ 32 → TakenThree d
alloc_3_desc-TakenThree d b = elim (alloc_desc-Taken d b) [
  | inl (z, e) ↦ inl (first_fails d b e, (0, 0, rw z))
  | inr (i, hi, ti, ai) ↦
      elim (alloc_desc-Taken (with_bits d (clear_bit d.desc_free_bitmap i)) (bounded _ i b)) [
        | inl (z, e) ↦ inl (second_fails d b i hi ti ai e, (i, 0, rw z))
        | inr (j, hj, tj, aj) ↦
            elim (alloc_desc-Taken (with_bits d (clear_bit (clear_bit d.desc_free_bitmap i) j))
              (bounded _ j (bounded _ i b))) [
                | inl (z, e) ↦ inl (third_fails d b i hi ti ai j hj tj aj e, (i, j, z))
                | inr (k, hk, tk, ak) ↦
                    inr (i, j, k, hi, hj, hk, ti, tj, tk, all_taken d b i hi ti ai j hj tj aj k ak)
              ]
      ]
]

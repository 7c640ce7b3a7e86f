-- ===== src/Env/Asid.antt =====
-- asid_alloc and asid_free: the bitmap is a set of identifiers below NASID.
use native.Mathlib.Decide.{ℕ_discrete}
use run_mos_on_risc_v.Prelude.{
  ℕ, zero, suc, ◌+◌, ◌/◌, ◌%◌, ◌≤◌, ◌<◌, ◌≡◌, ◌≢◌, ◌⊎◌, refl, true, false, Option, none, some, inl,
  inr, Bool-cases, arith, ◌==◌, if◌then◌else◌, update, eq→==, ne→==,
}
use run_mos_on_risc_v.Prelude.Bits.{set_bit, clear_bit, test_bit-set_bit, test_bit-clear_bit}
use run_mos_on_risc_v.Prelude.Proc.{Run, ok, err, no_free_env}
use run_mos_on_risc_v.Kernel.{Kernel}
use run_mos_on_risc_v.Env.{take_asid, asid_used, find_asid, asid_alloc, asid_free}

abbrev set_asid : (ℕ → ℕ) → ℕ → ℕ → ℕ
set_asid bitmap i = update bitmap (i / 32) (set_bit (bitmap (i / 32)) (i % 32))

abbrev clear_asid : (ℕ → ℕ) → ℕ → ℕ → ℕ
clear_asid bitmap i = update bitmap (i / 32) (clear_bit (bitmap (i / 32)) (i % 32))

same_place : (i j : ℕ) → i / 32 ≡ j / 32 → (i % 32 == j % 32) ≡ (i == j)
same_place i j e = ground arith

other_word : (i j : ℕ) → i / 32 ≢ j / 32 → (i == j) ≡ false
other_word i j n = ground arith

pub asid_used-set :
    (bitmap : ℕ → ℕ) (i j : ℕ)
    → asid_used (set_asid bitmap i) j ≡ (if i == j then true else asid_used bitmap j)
asid_used-set bitmap i j = elim (ℕ_discrete (i / 32) (j / 32)) [
  | yes e ↦
      rw (eq→== _ _ e, test_bit-set_bit (bitmap (i / 32)) (i % 32) (j % 32), same_place i j e)
        (rw e)
  | no n ↦ rw (ne→== _ _ n, other_word i j n)
]

pub asid_used-clear :
    (bitmap : ℕ → ℕ) (i j : ℕ)
    → asid_used (clear_asid bitmap i) j ≡ (if i == j then false else asid_used bitmap j)
asid_used-clear bitmap i j = elim (ℕ_discrete (i / 32) (j / 32)) [
  | yes e ↦
      rw (eq→== _ _ e, test_bit-clear_bit (bitmap (i / 32)) (i % 32) (j % 32), same_place i j e)
        (rw e)
  | no n ↦ rw (ne→== _ _ n, other_word i j n)
]

-- The first unused identifier from i, or none in n places.
data Search (n i : ℕ) (bitmap : ℕ → ℕ) : Option ℕ → Type 0 where
  hit :
      (j : ℕ)
      → i ≤ j
      → j < i + n
      → asid_used bitmap j ≡ false
      → ((k : ℕ) → i ≤ k → k < j → asid_used bitmap k ≡ true)
      → Search n i bitmap (some j)
  miss : ((k : ℕ) → i ≤ k → k < i + n → asid_used bitmap k ≡ true) → Search n i bitmap none

later :
    (i : ℕ) (bitmap : ℕ → ℕ) (k : ℕ)
    → asid_used bitmap i ≡ true
    → i ≤ k
    → (i + 1 ≤ k → asid_used bitmap k ≡ true)
    → asid_used bitmap k ≡ true
later i bitmap k u lo f = elim (ℕ_discrete i k) [ yes e ↦ rw (← e) u | no n ↦ f (omega arith) ]

Search-later :
    (n i : ℕ) (bitmap : ℕ → ℕ) (o : Option ℕ)
    → asid_used bitmap i ≡ true
    → Search n (i + 1) bitmap o
    → Search (suc n) i bitmap o
Search-later n i bitmap (some j) u (hit _ lo hi t first) =
    hit j (omega arith) (omega arith) t (λ k a b. later i bitmap k u a (λ c. first k c b))
Search-later n i bitmap none u (miss f) =
    miss (λ k a b. later i bitmap k u a (λ c. f k c (omega arith)))

find_asid-Search : (n i : ℕ) (bitmap : ℕ → ℕ) → Search n i bitmap (find_asid n i bitmap)
unfolding find_asid
find_asid-Search zero i bitmap = miss (λ k a b. absurd (omega arith))
find_asid-Search (suc n) i bitmap = elim (Bool-cases (asid_used bitmap i)) [
  | inl u ↦
      rw u
        (Search-later n i bitmap (find_asid n (i + 1) bitmap) u (find_asid-Search n (i + 1) bitmap))
  | inr u ↦ rw u (hit i (omega arith) (omega arith) u (λ k a b. absurd (omega arith)))
]

-- The identifiers in use after a call that gave out i.
abbrev pub Gives : Kernel → ℕ → Kernel → Type 0
Gives k i k' =
    (j : ℕ) → asid_used k'.asid_bitmap j ≡ (if i == j then true else asid_used k.asid_bitmap j)

-- asid_alloc gives the least identifier below NASID that is not in use and marks it and no other, or
-- fails without change when all are in use.
abbrev pub Allocated : Kernel → Type 0
Allocated k =
    ((asid_alloc k ≡ err no_free_env k) × ((j : ℕ) → j < 64 → asid_used k.asid_bitmap j ≡ true))
    ⊎ ((i : ℕ) × (k' : Kernel) × (asid_alloc k ≡ ok i k')
        × (i < 64)
        × (asid_used k.asid_bitmap i ≡ false)
        × ((j : ℕ) → j < i → asid_used k.asid_bitmap j ≡ true)
        × Gives k i k')

allocate :
    (k : Kernel) (o : Option ℕ)
    → find_asid 64 0 k.asid_bitmap ≡ o
    → Search 64 0 k.asid_bitmap o
    → Allocated k
unfolding asid_alloc
allocate k (some i) e (hit _ lo hi t first) = inr (
  i,
  record k { asid_bitmap = set_asid k.asid_bitmap i },
  rw e,
  omega arith,
  t,
  (λ j h. first j (omega arith) h),
  asid_used-set k.asid_bitmap i,
)
allocate k none e (miss f) = inl (rw e, (λ j h. f j (omega arith) (omega arith)))

-- An identifier that asid_alloc gives is the least one below NASID that is not in use, and it alone
-- changes; the call fails, with no change, exactly when all are in use.
pub asid_alloc-Allocated : (k : Kernel) → Allocated k
asid_alloc-Allocated k =
    allocate k (find_asid 64 0 k.asid_bitmap) refl (find_asid-Search 64 0 k.asid_bitmap)

-- asid_alloc changes nothing but the bitmap.
abbrev pub OnlyBitmap : Kernel → Run Kernel ℕ → Type 0
OnlyBitmap k r =
    (r ≡ err no_free_env k)
    ⊎ ((i : ℕ) × (bitmap : ℕ → ℕ) × (r ≡ ok i (record k { asid_bitmap = bitmap })))

take_asid-OnlyBitmap : (k : Kernel) (o : Option ℕ) → OnlyBitmap k (take_asid o k)
unfolding take_asid
take_asid-OnlyBitmap k none = inl refl
take_asid-OnlyBitmap k (some i) = inr (i, set_asid k.asid_bitmap i, refl)

pub asid_alloc-OnlyBitmap : (k : Kernel) → OnlyBitmap k (asid_alloc k)
unfolding asid_alloc
asid_alloc-OnlyBitmap k = take_asid-OnlyBitmap k (find_asid 64 0 k.asid_bitmap)

-- asid_free takes the one identifier out of use.
asid_free_lem :
    (k : Kernel) (i : ℕ)
    → (k' : Kernel) × (asid_free i k ≡ ok tt k')
      × ((j : ℕ)
          → asid_used k'.asid_bitmap j ≡ (if i == j then false else asid_used k.asid_bitmap j))
unfolding asid_free
asid_free_lem k i =
    (record k { asid_bitmap = clear_asid k.asid_bitmap i }, refl, asid_used-clear k.asid_bitmap i)

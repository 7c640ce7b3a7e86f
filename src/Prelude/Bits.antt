-- ===== src/Prelude/Bits.antt =====
-- Bits of words: the shifts and masks of the C code as recursions on the place, and the laws of `|`.
use Prim.Native.Nat.{max, digits, bit_or-bitwise}
use run_mos_on_risc_v.Prelude.{
  ℕ, zero, suc, ◌+◌, ◌*◌, ◌/◌, ◌%◌, ◌^◌, ◌≤◌, ◌<◌, ◌≡◌, refl, ◌∙◌, Bool, true, false, ◌||◌, bit_or,
  arith, ◌==◌, if◌then◌else◌,
}

-- w & (1 << i), as a test.
abbrev pub test_bit : ℕ → ℕ → Bool
test_bit w zero = w % 2 == 1
test_bit w (suc i) = test_bit (w / 2) i

-- w | (1 << i)
abbrev pub set_bit : ℕ → ℕ → ℕ
set_bit w zero = w / 2 * 2 + 1
set_bit w (suc i) = set_bit (w / 2) i * 2 + w % 2

-- w & ~(1 << i)
abbrev pub clear_bit : ℕ → ℕ → ℕ
clear_bit w zero = w / 2 * 2
clear_bit w (suc i) = clear_bit (w / 2) i * 2 + w % 2

double_add_div : (n b : ℕ) → b < 2 → (n * 2 + b) / 2 ≡ n
double_add_div n b h = omega arith

pub test_bit-set_bit :
    (w i j : ℕ) → test_bit (set_bit w i) j ≡ (if i == j then true else test_bit w j)
test_bit-set_bit w zero zero = ground arith
test_bit-set_bit w zero (suc j) = rw (double_add_div (w / 2) 1 (omega arith)) (ground arith)
test_bit-set_bit w (suc i) zero = ground arith
test_bit-set_bit w (suc i) (suc j) =
    rw (double_add_div (set_bit (w / 2) i) (w % 2) (omega arith))
      (ground (arith, test_bit-set_bit (w / 2) i j))

half_double : (n : ℕ) → n * 2 / 2 ≡ n
half_double n = omega arith

pub test_bit-clear_bit :
    (w i j : ℕ) → test_bit (clear_bit w i) j ≡ (if i == j then false else test_bit w j)
test_bit-clear_bit w zero zero = ground arith
test_bit-clear_bit w zero (suc j) = rw (half_double (w / 2)) (ground arith)
test_bit-clear_bit w (suc i) zero = ground arith
test_bit-clear_bit w (suc i) (suc j) =
    rw (double_add_div (clear_bit (w / 2) i) (w % 2) (omega arith))
      (ground (arith, test_bit-clear_bit (w / 2) i j))

-- The native `bit_or` recurs on digits with fuel; the fuel is dropped here.
abbrev or_digits : ℕ → ℕ → ℕ → ℕ
or_digits n a b = digits (λ y. y) max n a b

or_digits_fuel : (x y k l : ℕ) → (x ≤ k) × (x ≤ l) → or_digits k x y ≡ or_digits l x y
or_digits_fuel zero y zero zero _ = refl
or_digits_fuel zero y zero (suc l) _ = refl
or_digits_fuel zero y (suc k) zero _ = refl
or_digits_fuel zero y (suc k) (suc l) _ = refl
or_digits_fuel (suc x) y zero l h = absurd (omega arith)
or_digits_fuel (suc x) y (suc k) zero h = absurd (omega arith)
or_digits_fuel (suc x) y (suc k) (suc l) h =
    omega (arith, or_digits_fuel (suc x / 2) (y / 2) k l (omega arith, omega arith))

zero-bit_or : (b : ℕ) → bit_or 0 b ≡ b
zero-bit_or b = bit_or-bitwise 0 b

pub bit_or_step : (a b : ℕ) → bit_or a b ≡ bit_or (a / 2) (b / 2) * 2 + max (a % 2) (b % 2)
bit_or_step zero b = omega (arith, zero-bit_or b, zero-bit_or (b / 2))
bit_or_step (suc a) b = omega (
  arith,
  bit_or-bitwise (suc a) b,
  bit_or-bitwise (suc a / 2) (b / 2),
  or_digits_fuel (suc a / 2) (b / 2) a (suc a / 2) (omega arith, omega arith),
)

or_zero_below : (bound a : ℕ) → a ≤ bound → bit_or a 0 ≡ a
or_zero_below zero zero low = refl
or_zero_below zero (suc a) low = absurd (omega arith)
or_zero_below (suc bound) a low =
    omega (arith, bit_or_step a 0, or_zero_below bound (a / 2) (omega arith))

pub bit_or-zero : (a : ℕ) → bit_or a 0 ≡ a
bit_or-zero a = or_zero_below a a (omega arith)

bit_or-half : (a b : ℕ) → bit_or a b / 2 ≡ bit_or (a / 2) (b / 2)
bit_or-half a b = omega (arith, bit_or_step a b)

-- A bit of `a | b` is set where one of the two is.
pub test_bit-bit_or : (a b i : ℕ) → test_bit (bit_or a b) i ≡ (test_bit a i || test_bit b i)
test_bit-bit_or a b zero = ground (arith, bit_or_step a b)
test_bit-bit_or a b (suc i) = rw (bit_or-half a b) (test_bit-bit_or (a / 2) (b / 2) i)

half_32 : (a : ℕ) → a / 2 / 2 / 2 / 2 / 2 ≡ a / 32
half_32 a = omega arith

bit_or-div_32 : (a b : ℕ) → bit_or a b / 32 ≡ bit_or (a / 32) (b / 32)
bit_or-div_32 a b = rw (
  ← half_32 (bit_or a b),
  ← half_32 a,
  ← half_32 b,
  bit_or-half a b,
  bit_or-half (a / 2) (b / 2),
  bit_or-half (a / 2 / 2) (b / 2 / 2),
  bit_or-half (a / 2 / 2 / 2) (b / 2 / 2 / 2),
  bit_or-half (a / 2 / 2 / 2 / 2) (b / 2 / 2 / 2 / 2),
)

div_1024 : (a : ℕ) → a / 32 / 32 ≡ a / 1024
div_1024 a = omega arith

-- `|` works on the fields above the low ten bits by themselves.
pub bit_or-div_1024 : (a b : ℕ) → bit_or a b / 1024 ≡ bit_or (a / 1024) (b / 1024)
bit_or-div_1024 a b = rw (
  ← div_1024 (bit_or a b),
  ← div_1024 a,
  ← div_1024 b,
  bit_or-div_32 a b,
  bit_or-div_32 (a / 32) (b / 32),
)

-- A number above the places of another: one factor two at a time.
or_twice : (a r : ℕ) → bit_or (a * 2) r ≡ bit_or a (r / 2) * 2 + r % 2
or_twice a r =
    let e : a * 2 / 2 ≡ a = omega arith in
    let z : a * 2 % 2 ≡ 0 = omega arith in bit_or_step (a * 2) r ∙ rw (e, z) (omega arith)

or_four : (a r : ℕ) → bit_or (a * 4) r ≡ bit_or a (r / 4) * 4 + r % 4
or_four a r =
    let e : a * 4 ≡ a * 2 * 2 = omega arith in
    let f : r / 2 / 2 ≡ r / 4 = omega arith in
    rw e (or_twice (a * 2) r ∙ rw (or_twice a (r / 2), f) (omega arith))

or_32 : (a r : ℕ) → bit_or (a * 32) r ≡ bit_or a (r / 32) * 32 + r % 32
or_32 a r =
    let e : a * 32 ≡ a * 2 * 4 * 4 = omega arith in
    let f : r / 4 / 4 / 2 ≡ r / 32 = omega arith in
    rw e (
      or_four (a * 2 * 4) r ∙ rw (or_four (a * 2) (r / 4), or_twice a (r / 4 / 4), f) (omega arith))

-- With r below 1024 the places do not meet, and `|` is a sum.
pub bit_or-low : (a r : ℕ) → r < 1024 → bit_or (a * 1024) r ≡ a * 1024 + r
bit_or-low a r h =
    let e : a * 1024 ≡ a * 32 * 32 = omega arith in
    let z : r / 32 / 32 ≡ 0 = omega arith in
    rw e (or_32 (a * 32) r ∙ rw (or_32 a (r / 32), z, bit_or-zero a) (omega arith))

power_suc : (k : ℕ) → 2 ^ suc k ≡ 2 * 2 ^ k
power_suc k = omega arith

-- A bit below the width leaves a word a word.
pub set_bit-bound : (k w i : ℕ) → w < 2 ^ k → i < k → set_bit w i < 2 ^ k
set_bit-bound zero w i h l = absurd (omega arith)
set_bit-bound (suc k) w zero h l = omega (arith, power_suc k)
set_bit-bound (suc k) w (suc i) h l =
    omega (arith, power_suc k, set_bit-bound k (w / 2) i (omega (arith, power_suc k)) (omega arith))

clear_bit-le : (w i : ℕ) → clear_bit w i ≤ w
clear_bit-le w zero = omega arith
clear_bit-le w (suc i) = omega (arith, clear_bit-le (w / 2) i)

pub clear_bit-bound : (k w i : ℕ) → w < 2 ^ k → clear_bit w i < 2 ^ k
clear_bit-bound k w i h = omega (arith, clear_bit-le w i)

-- ===== src/Prelude/Lists.antt =====
-- Lists of array indices: the intrusive lists of the kernel.
use Prim.Native.Nat.{ℕ, suc}
use mathlib.Core.Path.{◌≡◌, refl}
use mathlib.Core.Bool.{Bool, false, ◌||◌}
use mathlib.Core.List.{List, [], ◌∷◌, ◌++◌}
use native.Mathlib.Omega.{arith}
use run_mos_on_risc_v.Prelude.Tests.{◌==◌, if◌then◌else◌}

abbrev pub length {ℓ} : {A : Type ℓ} → List A → ℕ
length [] = 0
length (x ∷ xs) = suc (length xs)

-- Whether a number stands in a list.
abbrev pub elem : ℕ → List ℕ → Bool
elem a [] = false
elem a (x ∷ xs) = a == x || elem a xs

-- A list with the first occurrence of a number taken out.
abbrev pub erase : ℕ → List ℕ → List ℕ
erase a [] = []
erase a (x ∷ xs) = if a == x then xs else x ∷ erase a xs

-- No number stands in the list twice.
abbrev pub IsNodup : List ℕ → Type 0
IsNodup [] = Unit {0}
IsNodup (x ∷ xs) = (elem x xs ≡ false) × IsNodup xs

pub elem-append : (a : ℕ) (xs ys : List ℕ) → elem a (xs ++ ys) ≡ (elem a xs || elem a ys)
elem-append a [] ys = refl
elem-append a (x ∷ xs) ys = ground (arith, elem-append a xs ys)

pub elem-erase_ne : (a b : ℕ) (xs : List ℕ) → (a == b) ≡ false → elem a (erase b xs) ≡ elem a xs
elem-erase_ne a b [] h = refl
elem-erase_ne a b (x ∷ xs) h = ground (arith, elem-erase_ne a b xs h)

pub elem-erase_self : (a : ℕ) (xs : List ℕ) → IsNodup xs → elem a (erase a xs) ≡ false
elem-erase_self a [] h = refl
elem-erase_self a (x ∷ xs) h = ground (arith, elem-erase_self a xs h.1)

pub erase-IsNodup : (a : ℕ) (xs : List ℕ) → IsNodup xs → IsNodup (erase a xs)
erase-IsNodup a [] h = tt
erase-IsNodup a (x ∷ xs) h = ground (arith, erase-IsNodup a xs h.1, elem-erase_ne x a xs)

pub append-IsNodup : (a : ℕ) (xs : List ℕ) → elem a xs ≡ false → IsNodup xs → IsNodup (xs ++ a ∷ [])
append-IsNodup a [] h n = (refl, tt)
append-IsNodup a (x ∷ xs) h n = ground (arith, append-IsNodup a xs, elem-append x xs (a ∷ []))

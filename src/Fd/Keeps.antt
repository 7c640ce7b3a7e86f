-- ===== src/Fd/Keeps.antt =====
-- user/lib/fd.c: when a step keeps the page of a descriptor.
use run_mos_on_risc_v.Prelude.{
  ℕ, ◌/◌, ◌≡◌, ◌≢◌, refl, sym, ◌∙◌, Bool, true, false, ◌||◌, not, List, [], ◌∷◌, arith, inl, inr,
  Bool-cases, ne→==,
}
use run_mos_on_risc_v.Prelude.Proc.{Run, ok, err, left, panic, wild, Proc, and_then, ignored}
use run_mos_on_risc_v.Mmu.{by2pg}
use run_mos_on_risc_v.Syscall.{is_illegal_va}
use run_mos_on_risc_v.Fd.{Space, index2fd, has_table, entry_of, is_mapped, unmap_va, shared, map_va}

-- The descriptor i is mapped in both states, to the same frame.
pub record Same (i : ℕ) (s t : Space) : Type 0 where
  pub table : has_table (index2fd i) t ≡ true
  pub entry : (entry_of (index2fd i) t).valid ≡ true
  pub frame : (entry_of (index2fd i) t).frame ≡ (entry_of (index2fd i) s).frame

-- What a run keeps of the descriptor i.
abbrev pub KeepsFd {ℓ} : {A : Type ℓ} → ℕ → Space → Run Space A → Type 0
KeepsFd i s (ok a t) = Same i s t
KeepsFd i s (err e t) = Same i s t
KeepsFd i s (left t) = Unit {0}
KeepsFd i s panic = Unit {0}
KeepsFd i s wild = Unit {0}

pub Same-trans : (i : ℕ) (s t u : Space) → Same i s t → Same i t u → Same i s u
Same-trans i s t u h k = record { table = k.table; entry = k.entry; frame = k.frame ∙ h.frame }

pub then-KeepsFd {ℓ κ} :
    {A : Type ℓ} {B : Type κ} (i : ℕ) (s : Space) (r : Run Space A) (k : A → Proc Space B)
    → KeepsFd i s r
    → ((a : A) (t : Space) → Same i s t → KeepsFd i s (k a t))
    → KeepsFd i s (and_then r k)
then-KeepsFd i s (ok a t) k h f = f a t h
then-KeepsFd i s (err e t) k h f = h
then-KeepsFd i s (left t) k h f = tt
then-KeepsFd i s panic k h f = tt
then-KeepsFd i s wild k h f = tt

pub ignored-KeepsFd {ℓ} :
    {A : Type ℓ} (i : ℕ) (s : Space) (r : Run Space A) → KeepsFd i s r → KeepsFd i s (ignored r)
ignored-KeepsFd i s (ok a t) h = h
ignored-KeepsFd i s (err e t) h = h
ignored-KeepsFd i s (left t) h = tt
ignored-KeepsFd i s panic h = tt
ignored-KeepsFd i s wild h = tt

pub from-KeepsFd {ℓ} :
    {A : Type ℓ} (i : ℕ) (s t : Space) (r : Run Space A)
    → Same i s t
    → KeepsFd i t r
    → KeepsFd i s r
from-KeepsFd i s t (ok a u) h k = Same-trans i s t u h k
from-KeepsFd i s t (err e u) h k = Same-trans i s t u h k
from-KeepsFd i s t (left u) h k = tt
from-KeepsFd i s t panic h k = tt
from-KeepsFd i s t wild h k = tt

-- The page of the descriptor i.
abbrev pub page_of : ℕ → ℕ
page_of i = index2fd i / by2pg

pub unmap_va-KeepsFd :
    (i va : ℕ) (s : Space) → va / by2pg ≢ page_of i → Same i s s → KeepsFd i s (unmap_va va s)
unfolding unmap_va
unmap_va-KeepsFd i va s ne h = elim (Bool-cases (is_illegal_va va)) [
  | inl g ↦ rw g h
  | inr g ↦ rw g (record {
    table = h.table;
    entry = rw (ne→== (va / by2pg) (page_of i) ne) h.entry;
    frame = rw (ne→== (va / by2pg) (page_of i) ne) refl;
  })
]

pub shared-Same :
    (i src dst : ℕ) (s : Space) → dst / by2pg ≢ page_of i → Same i s s → Same i s (shared src dst s)
shared-Same i src dst s ne h = record {
  table = ground (arith, h.table);
  entry = rw (ne→== (dst / by2pg) (page_of i) ne) h.entry;
  frame = rw (ne→== (dst / by2pg) (page_of i) ne) refl;
}

-- What map_va does: an error that changes no table, or the entry of src at dst.
abbrev pub Maps : ℕ → ℕ → Space → Run Space (Unit {0}) → Type 0
Maps src dst s (ok u t) =
    (is_mapped src s ≡ true) × (t.vpd ≡ (shared src dst s).vpd) × (t.vpt ≡ (shared src dst s).vpt)
Maps src dst s (err e t) = (t.vpd ≡ s.vpd) × (t.vpt ≡ s.vpt)
Maps src dst s (left t) = Unit {0}
Maps src dst s panic = Unit {0}
Maps src dst s wild = Unit {0}

mapped_of : (a b c : Bool) → (a || (b || not c)) ≡ false → c ≡ true
mapped_of a b true h = refl
mapped_of true b false h = sym h
mapped_of false true false h = sym h
mapped_of false false false h = sym h

pub map_va-Maps :
    (answers : List Bool) (src dst : ℕ) (s : Space)
    → s.answers ≡ answers
    → Maps src dst s (map_va src dst s)
unfolding map_va
map_va-Maps [] src dst s e =
    elim (Bool-cases (is_illegal_va src || (is_illegal_va dst || not (is_mapped src s)))) [
      | inl g ↦ rw g (refl, refl)
      | inr g ↦ rw (g, e) (refl, refl)
    ]
map_va-Maps (true ∷ more) src dst s e =
    elim (Bool-cases (is_illegal_va src || (is_illegal_va dst || not (is_mapped src s)))) [
      | inl g ↦ rw g (refl, refl)
      | inr g ↦
          rw (g, e)
            (mapped_of (is_illegal_va src) (is_illegal_va dst) (is_mapped src s) g, refl, refl)
    ]
map_va-Maps (false ∷ more) src dst s e =
    elim (Bool-cases (is_illegal_va src || (is_illegal_va dst || not (is_mapped src s)))) [
      | inl g ↦ rw g (refl, refl)
      | inr g ↦ rw (g, e) (refl, refl)
    ]

-- ===== src/Fd/Close.antt =====
-- user/lib/fd.c: what closing one descriptor leaves of another.
use run_mos_on_risc_v.Prelude.{
  ℕ, ◌/◌, ◌<◌, ◌≡◌, ◌≢◌, refl, true, List, [], ◌∷◌, ◌==◌, inl, inr, Bool-cases, Option, none, some,
}
use run_mos_on_risc_v.Prelude.Proc.{Run, ok, err, left, panic, wild, Proc, and_then, Error}
use run_mos_on_risc_v.Mmu.{by2pg}
use run_mos_on_risc_v.Fd.{
  Space, maxfd, index2fd, is_mapped, is_large, descriptor, unmap_va, fd_close, fd_lookup,
}
use run_mos_on_risc_v.Fd.Device.{Dev, find_dev, found_dev, dev_lookup, close, closed}
use run_mos_on_risc_v.Fd.Keeps.{
  Same, KeepsFd, then-KeepsFd, ignored-KeepsFd, from-KeepsFd, page_of, unmap_va-KeepsFd,
}
use run_mos_on_risc_v.Fd.Share.{Same-later}

-- dev_close of a device keeps every descriptor of the table but its own.
abbrev pub ClosesOne : Dev → Type 0
ClosesOne d =
    (i fd : ℕ) (s : Space)
    → i < maxfd
    → fd / by2pg ≢ page_of i
    → Same i s s
    → KeepsFd i s (d.close fd s)

abbrev pub Respect : List Dev → Type 0
Respect [] = Unit {0}
Respect (d ∷ ds) = ClosesOne d × Respect ds

abbrev Found : Option Dev → Type 0
Found none = Unit {0}
Found (some d) = ClosesOne d

find_dev-Found : (ds : List Dev) (dev_id : ℕ) → Respect ds → Found (find_dev ds dev_id)
unfolding find_dev
find_dev-Found [] dev_id r = tt
find_dev-Found (d ∷ ds) dev_id (h, r) = elim (Bool-cases (d.id == dev_id)) [
  | inl g ↦ rw g h
  | inr g ↦ rw g (find_dev-Found ds dev_id r)
]

-- What a lookup gives: it changes nothing.
abbrev pub Looks {ℓ} : {A : Type ℓ} → (A → Type 0) → Space → Run Space A → Type 0
Looks P s (ok a t) = P a × (t ≡ s)
Looks P s (err e t) = t ≡ s
Looks P s (left t) = Unit {0}
Looks P s panic = Unit {0}
Looks P s wild = Unit {0}

found_dev-Looks : (o : Option Dev) (s : Space) → Found o → Looks ClosesOne s (found_dev o s)
unfolding found_dev
found_dev-Looks none s h = refl
found_dev-Looks (some d) s h = (h, refl)

dev_lookup-Looks :
    (devtab : List Dev) (dev_id : ℕ) (s : Space)
    → Respect devtab
    → Looks ClosesOne s (dev_lookup devtab dev_id s)
unfolding dev_lookup
dev_lookup-Looks devtab dev_id s r =
    found_dev-Looks (find_dev devtab dev_id) s (find_dev-Found devtab dev_id r)

pub fd_lookup-Looks :
    (i : ℕ) (s : Space)
    → Looks (λ fd. (fd ≡ index2fd i) × (is_mapped fd s ≡ true)) s (fd_lookup i s)
unfolding fd_lookup
fd_lookup-Looks i s = elim (Bool-cases (is_large i)) [
  | inl g ↦ rw g refl
  | inr g ↦ elim (Bool-cases (is_mapped (index2fd i) s)) [
    | inl m ↦ rw (g, m) ((refl, m), refl)
    | inr m ↦ rw (g, m) refl
  ]
]

pub bind-KeepsFd {ℓ κ} :
    {A : Type ℓ} {B : Type κ} (P : A → Type 0) (i : ℕ) (s : Space) (r : Run Space A)
    (k : A → Proc Space B)
    → Same i s s
    → Looks P s r
    → ((a : A) → P a → KeepsFd i s (k a s))
    → KeepsFd i s (and_then r k)
bind-KeepsFd P i s (ok a t) k h (p, e) f = rw e (f a p)
bind-KeepsFd P i s (err e t) k h l f = rw l h
bind-KeepsFd P i s (left t) k h l f = tt
bind-KeepsFd P i s panic k h l f = tt
bind-KeepsFd P i s wild k h l f = tt

fd_close-KeepsFd :
    (i fd : ℕ) (s : Space) → fd / by2pg ≢ page_of i → Same i s s → KeepsFd i s (fd_close fd s)
unfolding fd_close
fd_close-KeepsFd i fd s ne h = ignored-KeepsFd i s (unmap_va fd s) (unmap_va-KeepsFd i fd s ne h)

closed-ok : (fd r : ℕ) (s : Space) → closed fd (ok r s) ≡ and_then (fd_close fd s) (λ _ t. ok r t)
unfolding closed
closed-ok fd r s = refl

closed-err :
    (fd : ℕ) (e : Error) (s : Space)
    → closed fd (err e s) ≡ and_then (fd_close fd s) (λ _ t. err e t)
unfolding closed
closed-err fd e s = refl

closed-left : (fd : ℕ) (s : Space) → closed fd (left s) ≡ left s
unfolding closed
closed-left fd s = refl

closed-panic : (fd : ℕ) → closed fd panic ≡ panic
unfolding closed
closed-panic fd = refl

closed-wild : (fd : ℕ) → closed fd wild ≡ wild
unfolding closed
closed-wild fd = refl

closed-KeepsFd :
    (i fd : ℕ) (s : Space) (r : Run Space ℕ)
    → fd / by2pg ≢ page_of i
    → KeepsFd i s r
    → KeepsFd i s (closed fd r)
closed-KeepsFd i fd s (ok a t) ne h = rw (closed-ok fd a t) (
    then-KeepsFd i s (fd_close fd t) _
      (from-KeepsFd i s t _ h (fd_close-KeepsFd i fd t ne (Same-later i s t h))) (λ _ u q. q))
closed-KeepsFd i fd s (err e t) ne h = rw (closed-err fd e t) (
    then-KeepsFd i s (fd_close fd t) _
      (from-KeepsFd i s t _ h (fd_close-KeepsFd i fd t ne (Same-later i s t h))) (λ _ u q. q))
closed-KeepsFd i fd s (left t) ne h = rw (closed-left fd t) tt
closed-KeepsFd i fd s panic ne h = rw (closed-panic fd) tt
closed-KeepsFd i fd s wild ne h = rw (closed-wild fd) tt

close-eq :
    (devtab : List Dev) (fdnum : ℕ) (s : Space)
    → close devtab fdnum s
      ≡ and_then (fd_lookup fdnum s) (λ fd t.
        and_then
          (dev_lookup devtab (descriptor fd t).dev_id t)
          (λ dev u. closed fd (dev.close fd u)))
unfolding close
close-eq devtab fdnum s = refl

pub close-KeepsFd :
    (devtab : List Dev) (i fdnum : ℕ) (s : Space)
    → Respect devtab
    → i < maxfd
    → index2fd fdnum / by2pg ≢ page_of i
    → Same i s s
    → KeepsFd i s (close devtab fdnum s)
close-KeepsFd devtab i fdnum s r b ne h = rw (close-eq devtab fdnum s) (
    bind-KeepsFd (λ fd. (fd ≡ index2fd fdnum) × (is_mapped fd s ≡ true)) i s (fd_lookup fdnum s) _ h
      (fd_lookup-Looks fdnum s)
      λ fd (e, _).
        bind-KeepsFd ClosesOne i s (dev_lookup devtab (descriptor fd s).dev_id s) _ h
          (dev_lookup-Looks devtab (descriptor fd s).dev_id s r)
          λ dev c.
            let n : fd / by2pg ≢ page_of i = λ p. ne (rw (← e) p) in
            closed-KeepsFd i fd s (dev.close fd s) n (c i fd s b n h))

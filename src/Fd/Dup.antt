-- ===== src/Fd/Dup.antt =====
-- user/lib/fd.c: a descriptor that dup made and the one that it was made from.
use run_mos_on_risc_v.Prelude.{
  ℕ, ◌/◌, ◌<◌, ◌≡◌, ◌≢◌, refl, sym, ◌∙◌, Bool, true, false, ◌&&◌, List, arith, ◌==◌, if◌then◌else◌,
  ==-refl, ne→==,
}
use run_mos_on_risc_v.Prelude.Proc.{Run, ok, err, left, panic, wild, and_then, ignored, Error}
use run_mos_on_risc_v.Mmu.{by2pg, pdmap}
use run_mos_on_risc_v.Fd.{
  Space, maxfd, index2fd, index2data, fd2data, has_table, entry_of, is_mapped, map_va, fd_lookup,
}
use run_mos_on_risc_v.Fd.Device.{Dev, close, or_undo, undo, share_data, dup}
use run_mos_on_risc_v.Fd.Table.{fd2data-index2fd}
use run_mos_on_risc_v.Fd.Keeps.{Same, KeepsFd, page_of, Maps, map_va-Maps}
use run_mos_on_risc_v.Fd.Share.{share_data-KeepsFd}
use run_mos_on_risc_v.Fd.Close.{Looks, fd_lookup-Looks}

-- Both descriptors are mapped, to one frame.
pub record IsDup (old new : ℕ) (t : Space) : Type 0 where
  pub old_mapped : is_mapped (index2fd old) t ≡ true
  pub new_mapped : is_mapped (index2fd new) t ≡ true
  pub one_frame : (entry_of (index2fd new) t).frame ≡ (entry_of (index2fd old) t).frame

abbrev pub Dups : ℕ → ℕ → Run Space ℕ → Type 0
Dups old new (ok r t) = (r ≡ new) × IsDup old new t
Dups old new (err e t) = Unit {0}
Dups old new (left t) = Unit {0}
Dups old new panic = Unit {0}
Dups old new wild = Unit {0}

pub dup-eq :
    (devtab : List Dev) (old new : ℕ) (s : Space)
    → dup devtab old new s
      ≡ and_then (fd_lookup old s) (λ oldfd t. and_then (ignored (close devtab new t)) (λ _ u.
        or_undo new (index2fd new) (
          and_then
            (map_va oldfd (index2fd new) u)
            (λ _. share_data (fd2data oldfd) (fd2data (index2fd new))))))
unfolding dup
dup-eq devtab old new s = refl

-- The part of dup that maps the pages.
abbrev Shared : ℕ → ℕ → Run Space (Unit {0}) → Type 0
Shared old new (ok u t) = IsDup old new t
Shared old new (err e t) = Unit {0}
Shared old new (left t) = Unit {0}
Shared old new panic = Unit {0}
Shared old new wild = Unit {0}

pub or_undo-ok : (new newfd : ℕ) (u : Unit {0}) (t : Space) → or_undo new newfd (ok u t) ≡ ok new t
unfolding or_undo
or_undo-ok new newfd u t = refl

-- An error stays one, whatever the undoing comes to.
not_ok :
    (old new : ℕ) (e : Error) (r : Run Space (Unit {0}))
    → Dups old new (and_then r (λ _ t. err e t))
not_ok old new e (ok u t) = tt
not_ok old new e (err e' t) = tt
not_ok old new e (left t) = tt
not_ok old new e panic = tt
not_ok old new e wild = tt

or_undo-err :
    (old new newfd : ℕ) (e : Error) (t : Space) → Dups old new (or_undo new newfd (err e t))
unfolding or_undo
or_undo-err old new newfd e t = not_ok old new e (undo newfd t)

pub or_undo-left : (new newfd : ℕ) (t : Space) → or_undo new newfd (left t) ≡ left t
unfolding or_undo
or_undo-left new newfd t = refl

pub or_undo-panic : (new newfd : ℕ) → or_undo new newfd panic ≡ panic
unfolding or_undo
or_undo-panic new newfd = refl

pub or_undo-wild : (new newfd : ℕ) → or_undo new newfd wild ≡ wild
unfolding or_undo
or_undo-wild new newfd = refl

or_undo-Dups :
    (old new newfd : ℕ) (r : Run Space (Unit {0}))
    → Shared old new r
    → Dups old new (or_undo new newfd r)
or_undo-Dups old new newfd (ok u t) h = rw (or_undo-ok new newfd u t) (refl, h)
or_undo-Dups old new newfd (err e t) h = or_undo-err old new newfd e t
or_undo-Dups old new newfd (left t) h = rw (or_undo-left new newfd t) tt
or_undo-Dups old new newfd panic h = rw (or_undo-panic new newfd) tt
or_undo-Dups old new newfd wild h = rw (or_undo-wild new newfd) tt

and_left : (a b : Bool) → (a && b) ≡ true → a ≡ true
and_left true b h = refl
and_left false b h = h

and_right : (a b : Bool) → (a && b) ≡ true → b ≡ true
and_right true b h = h
and_right false true h = refl
and_right false false h = h

-- After the copy of the entry both are mapped.
pub record IsCopied (old new : ℕ) (t : Space) : Type 0 where
  pub of_new : Same new t t
  pub of_old : Same old t t
  pub one_frame : (entry_of (index2fd new) t).frame ≡ (entry_of (index2fd old) t).frame

copied :
    (old new : ℕ) (s t : Space)
    → index2fd new / by2pg ≢ page_of old
    → Maps (index2fd old) (index2fd new) s (ok tt t)
    → IsCopied old new t
copied old new s t ne (m, d, p) =
    let table = and_left (has_table (index2fd old) s) _ m in
    let entry = and_right (has_table (index2fd old) s) _ m in
    let other = ne→== (index2fd new / by2pg) (page_of old) ne in
    record {
      of_new = record {
        table = rw (d, ==-refl (index2fd new / pdmap)) refl;
        entry = rw (p, ==-refl (index2fd new / by2pg)) entry;
        frame = refl;
      };
      of_old = record {
        table = rw d (set_true (index2fd new / pdmap == index2fd old / pdmap) _ table);
        entry = rw (p, other) entry;
        frame = refl;
      };
      one_frame = rw (p, ==-refl (index2fd new / by2pg), other) refl;
    }
  where
    set_true : (b c : Bool) → c ≡ true → (if b then true else c) ≡ true
    set_true true c h = refl
    set_true false c h = h

kept-Shared :
    (old new : ℕ) (t : Space) (r : Run Space (Unit {0}))
    → IsCopied old new t
    → KeepsFd old t r
    → KeepsFd new t r
    → Shared old new r
kept-Shared old new t (ok u v) c o n = record {
  old_mapped = rw (o.table, o.entry) refl;
  new_mapped = rw (n.table, n.entry) refl;
  one_frame = n.frame ∙ c.one_frame ∙ sym o.frame;
}
kept-Shared old new t (err e v) c o n = tt
kept-Shared old new t (left v) c o n = tt
kept-Shared old new t panic c o n = tt
kept-Shared old new t wild c o n = tt

-- Two numbers have two pages.
pub page-ne : (i j : ℕ) → i < maxfd → j < maxfd → i ≢ j → index2fd i / by2pg ≢ page_of j
page-ne i j h g ne = λ e. ne (omega arith)

map-Shared :
    (old new : ℕ) (s : Space)
    → old < maxfd
    → new < maxfd
    → new ≢ old
    → (r : Run Space (Unit {0})) → Maps (index2fd old) (index2fd new) s r
    → Shared old new
        (and_then r (λ _. share_data (fd2data (index2fd old)) (fd2data (index2fd new))))
map-Shared old new s h g ne (ok u t) m =
    let c = copied old new s t (page-ne new old g h ne) m in
    rw (fd2data-index2fd new g) (
      kept-Shared old new t (share_data (fd2data (index2fd old)) (index2data new) t) c
        (share_data-KeepsFd old (fd2data (index2fd old)) new t h g c.of_old)
        (share_data-KeepsFd new (fd2data (index2fd old)) new t g g c.of_new))
map-Shared old new s h g ne (err e t) m = tt
map-Shared old new s h g ne (left t) m = tt
map-Shared old new s h g ne panic m = tt
map-Shared old new s h g ne wild m = tt

-- dup behind fd_lookup.
rest-Dups :
    (devtab : List Dev) (old new : ℕ) (s : Space)
    → old < maxfd
    → new < maxfd
    → new ≢ old
    → Dups old new (
        and_then (ignored (close devtab new s)) (λ _ u. or_undo new (index2fd new) (
          and_then
            (map_va (index2fd old) (index2fd new) u)
            (λ _. share_data (fd2data (index2fd old)) (fd2data (index2fd new))))))
rest-Dups devtab old new s h g ne = on_run (ignored (close devtab new s))
  where
    on_run :
        (r : Run Space (Unit {0}))
        → Dups old new (
            and_then r (λ _ u. or_undo new (index2fd new) (
              and_then
                (map_va (index2fd old) (index2fd new) u)
                (λ _. share_data (fd2data (index2fd old)) (fd2data (index2fd new))))))
    on_run (ok u t) = or_undo-Dups old new (index2fd new) _ (
        map-Shared old new t h g ne (map_va (index2fd old) (index2fd new) t)
          (map_va-Maps t.answers (index2fd old) (index2fd new) t refl))
    on_run (err e t) = tt
    on_run (left t) = tt
    on_run panic = tt
    on_run wild = tt

pub dup-Dups :
    (devtab : List Dev) (old new : ℕ) (s : Space)
    → old < maxfd
    → new < maxfd
    → new ≢ old
    → Dups old new (dup devtab old new s)
dup-Dups devtab old new s h g ne =
    rw (dup-eq devtab old new s) (on_lookup (fd_lookup old s) (fd_lookup-Looks old s))
  where
    on_lookup :
        (r : Run Space ℕ)
        → Looks (λ fd. (fd ≡ index2fd old) × (is_mapped fd s ≡ true)) s r
        → Dups old new (
            and_then r (λ oldfd t. and_then (ignored (close devtab new t)) (λ _ u.
              or_undo new (index2fd new) (
                and_then
                  (map_va oldfd (index2fd new) u)
                  (λ _. share_data (fd2data oldfd) (fd2data (index2fd new)))))))
    on_lookup (ok fd t) ((e, _), z) = rw e (rest-Dups devtab old new t h g ne)
    on_lookup (err e t) l = tt
    on_lookup (left t) l = tt
    on_lookup panic l = tt
    on_lookup wild l = tt

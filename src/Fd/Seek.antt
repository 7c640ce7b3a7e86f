-- ===== src/Fd/Seek.antt =====
-- user/lib/fd.c: a descriptor that dup made shares the offset with the one that it was made from.
use run_mos_on_risc_v.Prelude.{
  ℕ, ◌<◌, ◌≡◌, ◌≢◌, refl, ◌∙◌, true, false, List, arith, update, ==-refl,
}
use run_mos_on_risc_v.Prelude.Proc.{ok, and_then}
use run_mos_on_risc_v.Fd.{
  Space, maxfd, index2fd, entry_of, is_mapped, is_large, descriptor, set_offset, fd_lookup,
}
use run_mos_on_risc_v.Fd.Device.{Dev, seek, dup}
use run_mos_on_risc_v.Fd.Dup.{Dups, dup-Dups}

lookup_mapped :
    (i : ℕ) (s : Space)
    → i < maxfd
    → is_mapped (index2fd i) s ≡ true
    → fd_lookup i s ≡ ok (index2fd i) s
unfolding fd_lookup
lookup_mapped i s h m = let small : is_large i ≡ false = ground arith in rw (small, m) refl

-- The state after a seek.
abbrev sought : ℕ → ℕ → Space → Space
sought fd offset s =
    let frame = (entry_of fd s).frame in
    record s { fds = update s.fds frame (record (s.fds frame) { offset = offset }) }

set_offset-sought :
    (fd offset : ℕ) (s : Space) → set_offset fd offset s ≡ ok tt (sought fd offset s)
unfolding set_offset
set_offset-sought fd offset s = refl

seek-eq :
    (i offset : ℕ) (s : Space)
    → seek i offset s ≡ and_then (fd_lookup i s) (λ fd. set_offset fd offset)
unfolding seek
seek-eq i offset s = refl

seek-mapped :
    (i offset : ℕ) (s : Space)
    → fd_lookup i s ≡ ok (index2fd i) s
    → seek i offset s ≡ ok tt (sought (index2fd i) offset s)
seek-mapped i offset s e = seek-eq i offset s ∙ rw e (set_offset-sought (index2fd i) offset s)

-- If dup succeeds on two different numbers of the table it gives the new one, and a seek on that
-- succeeds and sets the offset of the old one, of whose descriptor it leaves the rest as it was.
pub dup-seek :
    (devtab : List Dev) (old new r offset : ℕ) (s t : Space)
    → old < maxfd
    → new < maxfd
    → new ≢ old
    → dup devtab old new s ≡ ok r t
    → (r ≡ new)
      × ((u : Space) × (seek new offset t ≡ ok tt u)
          × (descriptor (index2fd old) u
              ≡ record (descriptor (index2fd old) t) { offset = offset }))
dup-seek devtab old new r offset s t h g ne e =
    let (same, d) : Dups old new (ok r t) = rw e at (dup-Dups devtab old new s h g ne) in
    (
      same,
      (
        sought (index2fd new) offset t,
        seek-mapped new offset t (lookup_mapped new t g d.new_mapped),
        rw (d.one_frame, ==-refl (entry_of (index2fd old) t).frame) refl,
      ),
    )

-- ===== src/Serve/Lookup.antt =====
-- fs/serv.c: which file ids lead to an entry.
use run_mos_on_risc_v.Prelude.{
  ℕ, ◌+◌, ◌%◌, ◌<◌, ◌≡◌, ◌≢◌, refl, sym, arith, ◌==◌, inl, inr, Bool-cases, ==-refl, ne→==,
}
use run_mos_on_risc_v.Prelude.Proc.{ok, err, inval}
use run_mos_on_risc_v.Mmu.{word_mod}
use run_mos_on_risc_v.Serve.{Service, pageref, maxopen, open_alloc, open_lookup}
use run_mos_on_risc_v.Serve.Table.{IsOpenTable, IsTaken, open_alloc-Allotted}

lookup_same :
    (i fileid : ℕ) (s : Service)
    → fileid % maxopen ≡ i
    → s.fileid i ≡ fileid
    → pageref (s.ff i) s ≢ 1
    → open_lookup fileid s ≡ ok i s
unfolding open_lookup
lookup_same i fileid s e h p = rw (e, ne→== (pageref (s.ff i) s) 1 p, h, ==-refl fileid) refl

lookup_stale :
    (i fileid : ℕ) (s : Service)
    → fileid % maxopen ≡ i
    → s.fileid i ≢ fileid
    → open_lookup fileid s ≡ err inval s
unfolding open_lookup
lookup_stale i fileid s e h = elim (Bool-cases (pageref (s.ff i) s == 1)) [
  | inl o ↦ rw (e, o) refl
  | inr o ↦ rw (e, o, ne→== (s.fileid i) fileid h) refl
]

-- What the file ids lead to in a later state u, once open_alloc has taken the entry i of s: the new
-- id and those of the other entries to their entries, where other environments have the pages, and
-- the id that the entry had before to none.
pub record LeadsTo (s : Service) (i : ℕ) (t u : Service) : Type 0 where
  pub new : pageref (u.ff i) u ≢ 1 → open_lookup (t.fileid i) u ≡ ok i u
  pub old : open_lookup (s.fileid i) u ≡ err inval u
  pub others :
      (j : ℕ) → j < maxopen → j ≢ i → pageref (u.ff j) u ≢ 1 → open_lookup (s.fileid j) u ≡ ok j u

next_id : (n i : ℕ) → i < maxopen → n % maxopen ≡ i → (n + maxopen) % word_mod % maxopen ≡ i
next_id n i h e = omega arith

next-ne : (n : ℕ) → (n + maxopen) % word_mod ≢ n
next-ne n e = omega arith

taken-LeadsTo :
    (s : Service) (i : ℕ) (t u : Service)
    → IsOpenTable s
    → IsTaken s i t
    → u.fileid ≡ t.fileid
    → LeadsTo s i t u
taken-LeadsTo s i t u o h e =
    let new_id = (s.fileid i + maxopen) % word_mod in
    let now : t.fileid i ≡ new_id = rw (h.id, ==-refl i) refl in
    record {
      new =
          lookup_same i (t.fileid i) u (rw now (next_id (s.fileid i) i h.below (o.ids i h.below)))
            (rw e refl);
      old = lookup_stale i (s.fileid i) u (o.ids i h.below) (rw (e, now) (next-ne (s.fileid i)));
      others = λ j b n.
          lookup_same j (s.fileid j) u (o.ids j b) (rw (e, h.id, ne→== i j (λ p. n (sym p))) refl);
    }

-- In a well-formed table, once open_alloc has taken the entry i: in every later state with the
-- same file ids the new id leads to i and the id of each other entry to that entry, where the page
-- of the entry is not the server's alone, and the id that the entry i had before is refused.
pub open_alloc-open_lookup :
    (s : Service) (i : ℕ) (t u : Service)
    → IsOpenTable s
    → open_alloc s ≡ ok i t
    → u.fileid ≡ t.fileid
    → LeadsTo s i t u
open_alloc-open_lookup s i t u o e same =
    taken-LeadsTo s i t u o (rw e at (open_alloc-Allotted s)) same

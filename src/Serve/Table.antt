-- ===== src/Serve/Table.antt =====
-- fs/serv.c: the table of open files, its entries and file ids.
use run_mos_on_risc_v.Prelude.{
  ℕ, zero, suc, ◌+◌, ◌-◌, ◌*◌, ◌%◌, ◌≤◌, ◌<◌, ◌≡◌, ◌≢◌, ◌⊎◌, refl, ap, Bool, true, false, ◌&&◌,
  List, [], ◌∷◌, arith, ltb, leb, ◌==◌, if◌then◌else◌, update, inl, inr, Bool-cases, ==-refl,
}
use run_mos_on_risc_v.Prelude.Proc.{
  Run, ok, err, left, panic, wild, embed, and_then, Error, max_open,
}
use run_mos_on_risc_v.Syscall.{is_illegal_va}
use run_mos_on_risc_v.Bytes.{copy_bytes}
use run_mos_on_risc_v.Mmu.{word_mod, by2pg}
use run_mos_on_risc_v.Fs.Cache.{Server, vpn, mem_alloc}
use run_mos_on_risc_v.Serve.Answers.{SameTable}
use run_mos_on_risc_v.Serve.{
  Service, pageref, maxopen, fileva, init_entries, take_entry, new_page, find_open, open_alloc,
}

-- The file id of an entry leads back to it, and each entry has a page of its own.
pub record IsOpenTable (s : Service) : Type 0 where
  pub ids : (i : ℕ) → i < maxopen → s.fileid i % maxopen ≡ i
  pub pages : (i : ℕ) → i < maxopen → s.ff i ≡ fileva + i * by2pg

init_fileid :
    (n i va : ℕ) (s : Service) (j : ℕ)
    → (init_entries n i va s).fileid j ≡ (if leb i j && ltb j (i + n) then j else s.fileid j)
unfolding init_entries
init_fileid zero i va s j = ground arith
init_fileid (suc n) i va s j = ground (
  arith,
  init_fileid n (i + 1) (va + by2pg)
      (record s { fileid = update s.fileid i i; ff = update s.ff i va }) j,
)

init_ff :
    (n i va : ℕ) (s : Service) (j : ℕ)
    → (init_entries n i va s).ff j
      ≡ (if leb i j && ltb j (i + n) then va + (j - i) * by2pg else s.ff j)
unfolding init_entries
init_ff zero i va s j = ground arith
init_ff (suc n) i va s j = ground (
  arith,
  init_ff n (i + 1) (va + by2pg) (record s { fileid = update s.fileid i i; ff = update s.ff i va })
      j,
)

pub init-IsOpenTable : (s : Service) → IsOpenTable (init_entries maxopen 0 fileva s)
init-IsOpenTable s = record {
  ids = λ i h. rw (init_fileid maxopen 0 fileva s i) (ground arith);
  pages = λ i h. rw (init_ff maxopen 0 fileva s i) (ground arith);
}

-- No entry before i is free.
abbrev pub Busy : Service → ℕ → Type 0
Busy s i = (j : ℕ) → j < i → 1 < pageref (s.ff j) s

-- What open_alloc has done when it gives the entry i: no entry before it is free, nobody but the
-- server has its page, its file id has gone on to the next of those that lead to it, and its page is
-- there and holds zeros. The other entries are as they were.
pub record IsTaken (s : Service) (i : ℕ) (t : Service) : Type 0 where
  pub below : i < maxopen
  pub least : Busy s i
  pub unused : pageref (s.ff i) s ≤ 1
  pub id : t.fileid ≡ update s.fileid i ((s.fileid i + maxopen) % word_mod)
  pub pages : t.ff ≡ s.ff
  pub files : t.file ≡ s.file
  pub modes : t.mode ≡ s.mode
  pub answers : t.replies ≡ s.replies
  pub owned : pageref (t.ff i) t ≡ 1
  pub zeros : (k : ℕ) → k < by2pg → t.fs.mem (t.ff i + k) ≡ 0

-- Where it gives no entry: there is none, or no page for the first that is free.
abbrev pub IsRefused : Error → Service → Service → Type 0
IsRefused e s t =
    (t.fileid ≡ s.fileid)
    × (t.ff ≡ s.ff)
    × (t.replies ≡ s.replies)
    × (((e ≡ max_open) × Busy s maxopen)
        ⊎ ((e ≢ max_open) × ((i : ℕ) × (i < maxopen) × Busy s i × (pageref (s.ff i) s ≡ 0))))

abbrev pub Allotted : Service → Run Service ℕ → Type 0
Allotted s (ok i t) = IsTaken s i t
Allotted s (err e t) = IsRefused e s t
Allotted s (left t) = ⊥
Allotted s panic = ⊥
Allotted s wild = ⊥

zero_page : (va k : ℕ) (m : ℕ → ℕ) → k < by2pg → copy_bytes va by2pg (λ _. 0) m (va + k) ≡ 0
unfolding copy_bytes
zero_page va k m h = ground arith

-- The kernel maps a page or says why not; the server goes on in any case.
abbrev Allocates : ℕ → Server → Run Server (Unit {0}) → Type 0
Allocates va t (ok u t') = t'.mapped ≡ update t.mapped (vpn va) true
Allocates va t (err e t') = e ≢ max_open
Allocates va t (left t') = ⊥
Allocates va t panic = ⊥
Allocates va t wild = ⊥

mem_alloc-answers :
    (answers : List Bool) (va : ℕ) (t : Server)
    → t.answers ≡ answers
    → Allocates va t (mem_alloc va t)
unfolding mem_alloc
mem_alloc-answers [] va t e = elim (Bool-cases (is_illegal_va va)) [
  | inl g ↦ rw g (λ p. cc)
  | inr g ↦ rw (g, e) (λ p. cc)
]
mem_alloc-answers (true ∷ more) va t e = elim (Bool-cases (is_illegal_va va)) [
  | inl g ↦ rw g (λ p. cc)
  | inr g ↦ rw (g, e) refl
]
mem_alloc-answers (false ∷ more) va t e = elim (Bool-cases (is_illegal_va va)) [
  | inl g ↦ rw g (λ p. cc)
  | inr g ↦ rw (g, e) (λ p. cc)
]

-- A new page for an entry, and what it changes.
abbrev NewPage : ℕ → Service → Run Service (Unit {0}) → Type 0
NewPage i s (ok u t) = SameTable s t × (t.replies ≡ s.replies) × (pageref (s.ff i) t ≡ 1)
NewPage i s (err e t) = SameTable s t × (t.replies ≡ s.replies) × (e ≢ max_open)
NewPage i s (left t) = ⊥
NewPage i s panic = ⊥
NewPage i s wild = ⊥

new_pageref :
    (va : ℕ) (t : Server) (s : Service)
    → t.mapped ≡ update s.fs.mapped (vpn va) true
    → pageref va (record s { fs = t; refs = update s.refs (vpn va) 1 }) ≡ 1
unfolding pageref
new_pageref va t s h = rw (h, ==-refl (vpn va)) refl

-- new_page, from the answer of the kernel on.
abbrev counted_page : ℕ → Service → Run Server (Unit {0}) → Run Service (Unit {0})
counted_page i s r =
    and_then (embed (λ (u : Service) t. record u { fs = t }) s r)
      (λ _ t. ok tt (record t { refs = update t.refs (vpn (s.ff i)) 1 }))

new_page-eq : (i : ℕ) (s : Service) → new_page i s ≡ counted_page i s (mem_alloc (s.ff i) s.fs)
unfolding new_page
new_page-eq i s = refl

new_page-NewPage : (i : ℕ) (s : Service) → NewPage i s (new_page i s)
new_page-NewPage i s =
    rw (new_page-eq i s)
      (from_answer (mem_alloc (s.ff i) s.fs) (mem_alloc-answers s.fs.answers (s.ff i) s.fs refl))
  where
    from_answer :
        (r : Run Server (Unit {0})) → Allocates (s.ff i) s.fs r → NewPage i s (counted_page i s r)
    from_answer (ok u t) h = (
      record { ids = refl; pages = refl; files = refl; modes = refl },
      refl,
      new_pageref (s.ff i) t s h,
    )
    from_answer (err e t) h =
        (record { ids = refl; pages = refl; files = refl; modes = refl }, refl, h)
    from_answer (left t) h = absurd h
    from_answer panic h = absurd h
    from_answer wild h = absurd h

module _ (s : Service) where
  Busy-suc : (i : ℕ) → Busy s i → 1 < pageref (s.ff i) s → Busy s (i + 1)
  Busy-suc i b h j l = elim (Bool-cases (j == i)) [
    | inl e ↦ let p : j ≡ i = ground arith in rw p h
    | inr n ↦ b j (ground arith)
  ]

  -- The entry is taken in a state that differs by its page at most.
  take-IsTaken :
      (i : ℕ) (t : Service)
      → i < maxopen
      → Busy s i
      → pageref (s.ff i) s ≤ 1
      → SameTable s t
      → t.replies ≡ s.replies
      → pageref (s.ff i) t ≡ 1
      → Allotted s (take_entry i t)
  unfolding take_entry pageref
  take-IsTaken i t h b free same sent one = record {
    below = h;
    least = b;
    unused = free;
    id = ap (λ (f : ℕ → ℕ). update f i ((f i + maxopen) % word_mod)) same.ids;
    pages = same.pages;
    files = same.files;
    modes = same.modes;
    answers = sent;
    owned = rw same.pages one;
    zeros = λ k l. zero_page (t.ff i) k t.fs.mem l;
  }

  take_new :
      (i : ℕ) (r : Run Service (Unit {0}))
      → i < maxopen
      → Busy s i
      → pageref (s.ff i) s ≡ 0
      → NewPage i s r
      → Allotted s (and_then r (λ _. take_entry i))
  take_new i (ok u t) h b z (same, sent, one) =
      take-IsTaken i t h b (omega (arith, z)) same sent one
  take_new i (err e t) h b z (same, sent, ne) = (same.ids, same.pages, sent, inr (ne, (i, h, b, z)))
  take_new i (left t) h b z p = absurd p
  take_new i panic h b z p = absurd p
  take_new i wild h b z p = absurd p

  find_open_step :
      (n i : ℕ)
      → find_open (suc n) i s ≡ (
          let refs = pageref (s.ff i) s in
          if refs == 0
          then and_then (new_page i s) (λ _. take_entry i)
          else if refs == 1
          then take_entry i s
          else find_open n (i + 1) s)
  unfolding find_open
  find_open_step n i = elim (Bool-cases (pageref (s.ff i) s == 0)) [
    | inl z ↦ rw z refl
    | inr z ↦ elim (Bool-cases (pageref (s.ff i) s == 1)) [
      | inl o ↦ rw (z, o) refl
      | inr o ↦ rw (z, o) refl
    ]
  ]

  find_open-zero : (i : ℕ) → find_open zero i s ≡ err max_open s
  unfolding find_open
  find_open-zero i = refl

  find_open-Allotted : (n i : ℕ) → i + n ≡ maxopen → Busy s i → Allotted s (find_open n i s)
  find_open-Allotted zero i e b =
      let z : i ≡ maxopen = omega arith in
      rw (find_open-zero i) (refl, refl, refl, inl (refl, rw z at b))
  find_open-Allotted (suc n) i e b =
      rw (find_open_step n i) (elim (Bool-cases (pageref (s.ff i) s == 0)) [
        | inl z ↦
            rw z (take_new i (new_page i s) (omega arith) b (ground arith) (new_page-NewPage i s))
        | inr z ↦ elim (Bool-cases (pageref (s.ff i) s == 1)) [
          | inl o ↦
              rw (z, o)
                (take-IsTaken i s (omega arith) b (ground arith)
                  (record { ids = refl; pages = refl; files = refl; modes = refl }) refl
                  (ground arith))
          | inr o ↦
              rw (z, o) (find_open-Allotted n (i + 1) (omega arith) (Busy-suc i b (ground arith)))
        ]
      ])

-- open_alloc takes the first entry whose page nobody but the server has, as IsTaken says;
-- otherwise no entry is free, with the error max_open, or there is another error and the first
-- free entry has no page. It does not stop.
pub open_alloc-Allotted : (s : Service) → Allotted s (open_alloc s)
unfolding open_alloc
open_alloc-Allotted s = find_open-Allotted s maxopen 0 refl (λ j h. absurd (omega arith))

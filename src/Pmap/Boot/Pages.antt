-- ===== src/Pmap/Boot/Pages.antt =====
-- page_init of kern/pmap.c: the pages above freemem are free, and those below it are in use.
use run_mos_on_risc_v.Prelude.{
  ℕ, zero, suc, ◌+◌, ◌-◌, ◌≤◌, ◌<◌, ◌≡◌, refl, sym, ap, ◌∙◌, Bool, true, false, ◌||◌, ◌&&◌, List,
  [], ◌∷◌, elem, arith, ltb, leb, ◌==◌, if◌then◌else◌, update, lt→ltb,
}
use mathlib.Core.Path.{fun_ext}
use native.Mathlib.Decide.{ℕ_discrete}
use run_mos_on_risc_v.Prelude.Proc.{ok, and_then, embed, Proc, get, pure, ◌>>=◌, ◌>>◌}
use run_mos_on_risc_v.Mmu.{page2pa, round}
use run_mos_on_risc_v.Pmap.{Mem, page2kva, kaddr, set_ref}
use run_mos_on_risc_v.Pmap.Slot.{max_pages, pa2idx-page2pa}
use run_mos_on_risc_v.Pmap.Free.{AllFree, IsFreeOk}
use run_mos_on_risc_v.Pmap.Boot.{Boot, in_mem, mark_used, insert_free, page_init}

-- The counts with the pages from i below j in use, and the list of the n pages from i, the last first,
-- before others.
abbrev used_below : ℕ → ℕ → (ℕ → ℕ) → ℕ → ℕ
used_below i j ref p = if leb i p && ltb p j then 1 else ref p

abbrev pages_from : ℕ → ℕ → List ℕ → List ℕ
pages_from zero i l = l
pages_from (suc n) i l = pages_from n (i + 1) (i ∷ l)

insert_free_lem :
    (n i : ℕ) (b : Boot)
    → insert_free n i b ≡ ok tt (record b { mm = record b.mm { free = pages_from n i b.mm.free } })
unfolding insert_free
insert_free_lem zero i b = refl
insert_free_lem (suc n) i b =
    insert_free_lem n (i + 1) (record b { mm = record b.mm { free = i ∷ b.mm.free } })

page2kva_lem :
    (i : ℕ) (m : Mem) → i < m.npage → m.npage ≤ max_pages → page2kva i m ≡ ok (page2pa i) m
unfolding page2kva kaddr
page2kva_lem i m h l = rw (pa2idx-page2pa i (omega arith), lt→ltb _ _ h)

page2pa-ltb : (i j : ℕ) → i < max_pages → j < max_pages → ltb (page2pa i) (page2pa j) ≡ ltb i j
unfolding page2pa
page2pa-ltb i j h l = ground arith

page2pa-leb : (i j : ℕ) → i < max_pages → j < max_pages → leb (page2pa i) (page2pa j) ≡ leb i j
unfolding page2pa
page2pa-leb i j h l = ground arith

used_none : (i : ℕ) (ref : ℕ → ℕ) → ref ≡ used_below i i ref
used_none i ref = fun_ext (λ p. none_here p (ref p))
  where
    none_here : (p r : ℕ) → r ≡ (if leb i p && ltb p i then 1 else r)
    none_here p r = ground arith

used_more :
    (i j : ℕ) (ref : ℕ → ℕ) → i < j → used_below (i + 1) j (update ref i 1) ≡ used_below i j ref
used_more i j ref h = fun_ext (λ p. one p (ref p))
  where
    one :
        (p r : ℕ)
        → (if leb (i + 1) p && ltb p j then 1 else (if i == p then 1 else r))
          ≡ (if leb i p && ltb p j then 1 else r)
    one p r = ground arith

module _ (last : ℕ) where
  -- A round of the first loop, at page i.
  abbrev round_at : ℕ → ℕ → ℕ → Proc Boot ℕ
  round_at n i kva = do
    end ← get (λ (b : Boot). b.freemem)
    if ltb kva end then (do in_mem (set_ref i 1); mark_used n (i + 1)) else pure i

  mark_used_lem :
      (fuel i : ℕ) (b : Boot)
      → b.freemem ≡ page2pa last
      → last < b.mm.npage
      → b.mm.npage ≤ max_pages
      → i ≤ last
      → last < fuel + i
      → mark_used fuel i b
        ≡ ok last (record b { mm = record b.mm { ref = used_below i last b.mm.ref } })
  unfolding mark_used set_ref
  mark_used_lem zero i b f l s lo e = absurd (omega arith)
  mark_used_lem (suc n) i b f l s lo e =
      let t : ltb (page2pa i) b.freemem ≡ ltb i last =
        ap (ltb (page2pa i)) f ∙ page2pa-ltb i last (omega arith) (omega arith) in
      ap (λ r. and_then (embed (λ (s : Boot) m. record s { mm = m }) b r) (round_at n i))
        (page2kva_lem i b.mm (omega arith) s)
      ∙ elim (ℕ_discrete i last) [
        | yes q ↦
            let z : ltb i last ≡ false = ground arith in
            ap (λ x. (if x then (do in_mem (set_ref i 1); mark_used n (i + 1)) else pure i) b)
              (t ∙ z)
            ∙ ap (λ j. ok j b) q
            ∙ ap (λ r. ok last (record b { mm = record b.mm { ref = r } }))
                (used_none last b.mm.ref ∙ ap (λ j. used_below j last b.mm.ref) (sym q))
        | no o ↦
            let z : ltb i last ≡ true = ground arith in
            ap (λ x. (if x then (do in_mem (set_ref i 1); mark_used n (i + 1)) else pure i) b)
              (t ∙ z)
            ∙ mark_used_lem n (i + 1) (record b { mm = record b.mm { ref = update b.mm.ref i 1 } })
                f l s (omega arith) (omega arith)
            ∙ ap (λ r. ok last (record b { mm = record b.mm { ref = r } }))
                (used_more i last b.mm.ref (omega arith))
      ]

-- The pages from last on are free, the last one first, and those below it are in use.
abbrev pub booted : ℕ → Boot → Boot
booted last b = record b {
  freemem = round b.freemem;
  mm = record b.mm {
    ref = used_below 0 last b.mm.ref;
    free = pages_from (b.mm.npage - last) last [];
  };
}

page_init_runs :
    (b : Boot) (last : ℕ)
    → round b.freemem ≡ page2pa last
    → last < b.mm.npage
    → b.mm.npage ≤ max_pages
    → page_init b ≡ ok tt (booted last b)
unfolding page_init
page_init_runs b last f l s =
    ap (λ r. and_then r (λ i. insert_free (b.mm.npage - i) i))
      (mark_used_lem last (suc b.mm.npage) 0
        (record b { mm = record b.mm { free = [] }; freemem = round b.freemem }) f l s (omega arith)
        (omega arith))
    ∙ insert_free_lem (b.mm.npage - last) last (record b {
      freemem = round b.freemem;
      mm = record b.mm { ref = used_below 0 last b.mm.ref; free = [] };
    })

elem-pages_from :
    (n i : ℕ) (l : List ℕ) (p : ℕ)
    → elem p (pages_from n i l) ≡ ((leb i p && ltb p (i + n)) || elem p l)
elem-pages_from zero i l p = none_here (elem p l)
  where
    none_here : (e : Bool) → e ≡ ((leb i p && ltb p (i + 0)) || e)
    none_here e = ground arith
elem-pages_from (suc n) i l p = elem-pages_from n (i + 1) (i ∷ l) p ∙ one (elem p l)
  where
    one :
        (e : Bool)
        → ((leb (i + 1) p && ltb p (i + 1 + n)) || ((p == i) || e))
          ≡ ((leb i p && ltb p (i + suc n)) || e)
    one e = ground arith

pages_from-AllFree :
    (ref : ℕ → ℕ) (npage n i : ℕ) (l : List ℕ)
    → AllFree ref npage l
    → i + n ≤ npage
    → ((p : ℕ) → i ≤ p → ref p ≡ 0)
    → ((p : ℕ) → i ≤ p → elem p l ≡ false)
    → AllFree ref npage (pages_from n i l)
pages_from-AllFree ref npage zero i l f h z o = f
pages_from-AllFree ref npage (suc n) i l f h z o =
    pages_from-AllFree ref npage n (i + 1) (i ∷ l)
      (omega arith, z i (omega arith), o i (omega arith), f) (omega arith)
      (λ p k. z p (omega arith)) (λ p k. beyond p (omega arith) (o p (omega arith)))
  where
    beyond : (p : ℕ) → i < p → elem p l ≡ false → elem p (i ∷ l) ≡ false
    beyond p k e = ground arith

-- The free pages are those at or above `end`, and only the others have a reference.
abbrev pub IsBooted : Mem → ℕ → Type 0
IsBooted m end =
    (p : ℕ)
    → p < m.npage
    → (elem p m.free ≡ leb end (page2pa p)) × (m.ref p ≡ (if leb end (page2pa p) then 0 else 1))

-- If no page has a reference yet and freemem, rounded up, is the address of a page of the memory, then
-- page_init returns with a well-formed free list: the pages at or above that address are free, and exactly
-- those below it have a reference, one.
pub page_init-IsFreeOk :
    (b : Boot) (last : ℕ)
    → round b.freemem ≡ page2pa last
    → last < b.mm.npage
    → b.mm.npage ≤ max_pages
    → ((p : ℕ) → b.mm.ref p ≡ 0)
    → (b' : Boot) × (page_init b ≡ ok tt b') × IsFreeOk b'.mm × IsBooted b'.mm (round b.freemem)
page_init-IsFreeOk b last f l s z = (
  booted last b,
  page_init_runs b last f l s,
  pages_from-AllFree (used_below 0 last b.mm.ref) b.mm.npage (b.mm.npage - last) last [] tt
      (omega arith) (λ p h. unused p h (z p)) (λ p h. refl),
  (λ p h. rw f (
    elem-pages_from (b.mm.npage - last) last [] p
        ∙ above p h
        ∙ sym (page2pa-leb last p (omega arith) (omega arith)),
    counted p ∙ ap (λ t. if t then 0 else 1) (sym (page2pa-leb last p (omega arith) (omega arith))),
  )),
)
  where
    above :
        (p : ℕ)
        → p < b.mm.npage
        → ((leb last p && ltb p (last + (b.mm.npage - last))) || false) ≡ leb last p
    above p h = ground arith

    by_ref :
        (p r : ℕ) → r ≡ 0 → (if leb 0 p && ltb p last then 1 else r) ≡ (if leb last p then 0 else 1)
    by_ref p r e = ground arith

    counted : (p : ℕ) → used_below 0 last b.mm.ref p ≡ (if leb last p then 0 else 1)
    counted p = by_ref p (b.mm.ref p) (z p)

    unused : (p : ℕ) → last ≤ p → b.mm.ref p ≡ 0 → used_below 0 last b.mm.ref p ≡ 0
    unused p h e = rw e (ground arith)

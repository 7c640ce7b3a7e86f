-- ===== src/Pipe/Queue.antt =====
-- The ring of user/lib/pipe.c as a queue of characters.
use mathlib.Core.Path.{subst}
use run_mos_on_risc_v.Prelude.{
  ℕ, zero, suc, ◌+◌, ◌%◌, ◌≤◌, ◌<◌, ◌≡◌, refl, sym, ap, ◌∙◌, true, false, List, [], ◌∷◌, ◌++◌,
  arith, update, length,
}
use run_mos_on_risc_v.Mmu.{word_mod}
use run_mos_on_risc_v.Pipe.{Ring, End, get_char, put_char, is_empty, is_full}

-- From position r the ring holds the characters of the list, up to position w.
abbrev pub Holds : (ℕ → ℕ) → ℕ → ℕ → List ℕ → Type 0
Holds buf r w [] = r ≡ w
Holds buf r w (c ∷ cs) = (buf (r % 32) ≡ c) × Holds buf (r + 1) w cs

-- The pipe holds the characters, at most 32, and its positions do not wrap around within 32.
pub record IsPipe (ring : Ring) (cs : List ℕ) : Type 0 where
  pub chars : Holds ring.buf ring.rpos ring.wpos cs
  pub few : ring.wpos ≤ ring.rpos + 32
  pub low : ring.wpos + 32 < word_mod

pub Holds-length : (buf : ℕ → ℕ) (r w : ℕ) (cs : List ℕ) → Holds buf r w cs → r + length cs ≡ w
Holds-length buf r w [] h = omega arith
Holds-length buf r w (c ∷ cs) (_, h) = omega (arith, Holds-length buf (r + 1) w cs h)

put_self : (buf : ℕ → ℕ) (r w c : ℕ) → r ≡ w → update buf (w % 32) c (r % 32) ≡ c
put_self buf r w c h = ground arith

put_other :
    (buf : ℕ → ℕ) (r w c : ℕ) → r < w → w < r + 32 → update buf (w % 32) c (r % 32) ≡ buf (r % 32)
put_other buf r w c a b = ground arith

-- A character is put behind the others.
Holds-put :
    (buf : ℕ → ℕ) (r w c : ℕ) (cs : List ℕ)
    → Holds buf r w cs
    → w < r + 32
    → Holds (update buf (w % 32) c) r (w + 1) (cs ++ (c ∷ []))
Holds-put buf r w c [] h l = (put_self buf r w c h, omega arith)
Holds-put buf r w c (d ∷ cs) (e, h) l =
    let n : r + 1 + length cs ≡ w = Holds-length buf (r + 1) w cs h in
    (
      put_other buf r w c (omega arith) (omega arith) ∙ e,
      Holds-put buf (r + 1) w c cs h (omega arith),
    )

next : (a : ℕ) → a + 33 < word_mod → (a + 1) % word_mod ≡ a + 1
next a h = omega arith

pub put-IsPipe :
    (wbuf : ℕ) (s : End) (cs : List ℕ)
    → IsPipe s.ring cs
    → length cs < 32
    → s.ring.wpos + 33 < word_mod
    → IsPipe (put_char wbuf s).ring (cs ++ (s.mem wbuf ∷ []))
put-IsPipe wbuf s cs p l low =
    let n : s.ring.rpos + length cs ≡ s.ring.wpos =
      Holds-length s.ring.buf s.ring.rpos s.ring.wpos cs p.chars in
    let e : (s.ring.wpos + 1) % word_mod ≡ s.ring.wpos + 1 = next s.ring.wpos low in
    record {
      chars =
          subst
            (λ w.
              Holds (update s.ring.buf (s.ring.wpos % 32) (s.mem wbuf)) s.ring.rpos w
                (cs ++ (s.mem wbuf ∷ [])))
            (sym e)
            (Holds-put s.ring.buf s.ring.rpos s.ring.wpos (s.mem wbuf) cs p.chars (omega arith));
      few = omega (arith, e);
      low = omega (arith, e);
    }

pub get-IsPipe :
    (rbuf : ℕ) (s : End) (c : ℕ) (cs : List ℕ)
    → IsPipe s.ring (c ∷ cs)
    → IsPipe (get_char rbuf s).ring cs
get-IsPipe rbuf s c cs p =
    let n : s.ring.rpos + 1 + length cs ≡ s.ring.wpos =
      Holds-length s.ring.buf (s.ring.rpos + 1) s.ring.wpos cs (p.chars.1) in
    let low : s.ring.wpos + 32 < word_mod = p.low in
    let e : (s.ring.rpos + 1) % word_mod ≡ s.ring.rpos + 1 = omega arith in
    record {
      chars = subst (λ r. Holds s.ring.buf r s.ring.wpos cs) (sym e) (p.chars.1);
      few = omega (arith, e, p.few);
      low = p.low;
    }

pub append_nil : (cs : List ℕ) → cs ++ [] ≡ cs
append_nil [] = refl
append_nil (c ∷ cs) = ap (λ x. c ∷ x) (append_nil cs)

pub length-snoc : (cs : List ℕ) (c : ℕ) → length (cs ++ (c ∷ [])) ≡ length cs + 1
length-snoc [] c = omega arith
length-snoc (d ∷ cs) c = omega (arith, length-snoc cs c)

pub snoc-append : (cs : List ℕ) (c : ℕ) (ds : List ℕ) → (cs ++ (c ∷ [])) ++ ds ≡ cs ++ (c ∷ ds)
snoc-append [] c ds = refl
snoc-append (d ∷ cs) c ds = ap (λ x. d ∷ x) (snoc-append cs c ds)

pub has_char : (s : End) (c : ℕ) (cs : List ℕ) → IsPipe s.ring (c ∷ cs) → is_empty s ≡ false
has_char s c cs p =
    let n : s.ring.rpos + 1 + length cs ≡ s.ring.wpos =
      Holds-length s.ring.buf (s.ring.rpos + 1) s.ring.wpos cs (p.chars.1) in
    ground arith

pub has_room : (s : End) (cs : List ℕ) → IsPipe s.ring cs → length cs < 32 → is_full s ≡ false
has_room s cs p l =
    let n : s.ring.rpos + length cs ≡ s.ring.wpos =
      Holds-length s.ring.buf s.ring.rpos s.ring.wpos cs p.chars in
    let low : s.ring.wpos + 32 < word_mod = p.low in ground arith

-- The memory with the characters at a.
abbrev pub with_chars : ℕ → List ℕ → (ℕ → ℕ) → ℕ → ℕ
with_chars a [] m = m
with_chars a (c ∷ cs) m = with_chars (a + 1) cs (update m a c)

-- The n characters at a.
abbrev pub chars_at : (ℕ → ℕ) → ℕ → ℕ → List ℕ
chars_at m a zero = []
chars_at m a (suc n) = m a ∷ chars_at m (a + 1) n

pub length-chars_at : (m : ℕ → ℕ) (a n : ℕ) → length (chars_at m a n) ≡ n
length-chars_at m a zero = refl
length-chars_at m a (suc n) = ap suc (length-chars_at m (a + 1) n)

pub nothing : (s : End) → IsPipe s.ring [] → is_empty s ≡ true
nothing s p = let e : s.ring.rpos ≡ s.ring.wpos = p.chars in ground arith

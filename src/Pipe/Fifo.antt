-- ===== src/Pipe/Fifo.antt =====
-- user/lib/pipe.c: pipe_read and pipe_write on the queue of characters.
use run_mos_on_risc_v.Prelude.{
  ℕ, zero, suc, ◌+◌, ◌%◌, ◌≤◌, ◌<◌, ◌≡◌, ◌≢◌, ◌⊎◌, refl, sym, ap, ◌∙◌, Bool, true, false, ◌||◌, not,
  Option, some, List, [], ◌∷◌, ◌++◌, arith, ◌==◌, update, inl, inr, length,
}
use run_mos_on_risc_v.Mmu.{word_mod}
use run_mos_on_risc_v.Pipe.{
  End, get_char, put_char, is_empty, is_full, wait_char, wait_room, read_chars, write_chars,
  pipe_read, pipe_write,
}
use run_mos_on_risc_v.Pipe.Queue.{
  IsPipe, with_chars, chars_at, put-IsPipe, get-IsPipe, length-chars_at, has_char, has_room,
  nothing, append_nil, snoc-append, length-snoc,
}

module _ (yield : End → End) (closed : End → Bool) where
  -- With a character in the pipe pipe_read does not wait, and with room in it pipe_write does not.
  no_wait :
      (fuel i c : ℕ) (s : End) (cs : List ℕ)
      → IsPipe s.ring (c ∷ cs)
      → wait_char yield closed fuel i s ≡ some (true, s)
  unfolding wait_char
  no_wait zero i c s cs p = let e : is_empty s ≡ false = has_char s c cs p in rw e
  no_wait (suc k) i c s cs p = let e : is_empty s ≡ false = has_char s c cs p in rw e

  room :
      (fuel : ℕ) (s : End) (cs : List ℕ)
      → IsPipe s.ring cs
      → length cs < 32
      → wait_room yield closed fuel s ≡ some (true, s)
  unfolding wait_room
  room zero s cs p l = let e : is_full s ≡ false = has_room s cs p l in rw e
  room (suc k) s cs p l = let e : is_full s ≡ false = has_room s cs p l in rw e

  read_step :
      (fuel n i rbuf : ℕ) (s : End)
      → wait_char yield closed fuel i s ≡ some (true, s)
      → read_chars yield closed fuel (suc n) i rbuf s
        ≡ read_chars yield closed fuel n (i + 1) (rbuf + 1) (get_char rbuf s)
  unfolding read_chars
  read_step fuel n i rbuf s e = rw (read_chars, e)

  write_step :
      (fuel n i wbuf : ℕ) (s : End)
      → wait_room yield closed fuel s ≡ some (true, s)
      → write_chars yield closed fuel (suc n) i wbuf s
        ≡ write_chars yield closed fuel n (i + 1) (wbuf + 1) (put_char wbuf s)
  unfolding write_chars
  write_step fuel n i wbuf s e = rw (write_chars, e)

  abbrev Read : List ℕ → List ℕ → ℕ → ℕ → End → Option (ℕ × End) → Type 0
  Read got rest i rbuf s r =
      (t : End) × (r ≡ some (i + length got, t))
      × (t.mem ≡ with_chars rbuf got s.mem)
      × IsPipe t.ring rest

  read_lem :
      (fuel i rbuf : ℕ) (s : End) (got rest : List ℕ)
      → IsPipe s.ring (got ++ rest)
      → Read got rest i rbuf s (read_chars yield closed fuel (length got) i rbuf s)
  unfolding read_chars
  read_lem fuel i rbuf s [] rest p = (s, ap (λ j. some (j, s)) (omega arith), refl, p)
  read_lem fuel i rbuf s (c ∷ cs) rest p =
      let (t, r, m, q) =
        read_lem fuel (i + 1) (rbuf + 1) (get_char rbuf s) cs rest
          (get-IsPipe rbuf s c (cs ++ rest) p) in
      (
        t,
        read_step fuel (length cs) i rbuf s (no_wait fuel i c s (cs ++ rest) p)
            ∙ r
            ∙ ap (λ j. some (j, t)) (omega arith),
        m ∙ ap (λ v. with_chars (rbuf + 1) cs (update s.mem rbuf v)) (p.chars.0),
        q,
      )

  abbrev Written : List ℕ → List ℕ → ℕ → End → Option (ℕ × End) → Type 0
  Written held sent i s r =
      (t : End) × (r ≡ some (i + length sent, t)) × (t.mem ≡ s.mem) × IsPipe t.ring (held ++ sent)

  write_lem :
      (fuel n i wbuf : ℕ) (s : End) (held : List ℕ)
      → IsPipe s.ring held
      → length held + n ≤ 32
      → s.ring.wpos + n + 32 < word_mod
      → Written held (chars_at s.mem wbuf n) i s (write_chars yield closed fuel n i wbuf s)
  unfolding write_chars
  write_lem fuel zero i wbuf s held p l low =
      (s, ap (λ j. some (j, s)) (omega arith), refl, rw (append_nil held) p)
  write_lem fuel (suc n) i wbuf s held p l low =
      let e : (s.ring.wpos + 1) % word_mod ≡ s.ring.wpos + 1 = omega arith in
      let c : ℕ = s.mem wbuf in
      let (t, r, m, q) =
        write_lem fuel n (i + 1) (wbuf + 1) (put_char wbuf s) (held ++ (c ∷ []))
          (put-IsPipe wbuf s held p (omega arith) (omega arith)) (omega (arith, length-snoc held c))
          (omega (arith, e)) in
      (
        t,
        write_step fuel n i wbuf s (room fuel s held p (omega arith))
            ∙ r
            ∙ ap (λ j. some (j, t)) (omega arith),
        m,
        rw (snoc-append held c (chars_at s.mem (wbuf + 1) n)) at q,
      )

  -- On a pipe that holds at least n characters, pipe_read gives n, the first n that the pipe holds, into
  -- the buffer, and takes them off the pipe.
  pipe_read_lem :
      (fuel vbuf : ℕ) (s : End) (got rest : List ℕ)
      → IsPipe s.ring (got ++ rest)
      → (t : End) × (pipe_read yield closed fuel vbuf (length got) s ≡ some (length got, t))
        × (t.mem ≡ with_chars vbuf got s.mem)
        × IsPipe t.ring rest
  unfolding pipe_read
  pipe_read_lem fuel vbuf s got rest p =
      let (t, r, m, q) = read_lem fuel 0 vbuf s got rest p in
      (t, r ∙ ap (λ j. some (j, t)) (omega arith), m, q)

  -- Nothing to read, and i characters read, or the pipe closed: the wait ends.
  wait_ends :
      (fuel i : ℕ) (s : End)
      → IsPipe s.ring []
      → (not (i == 0) || closed s) ≡ true
      → wait_char yield closed fuel i s ≡ some (false, s)
  unfolding wait_char
  wait_ends zero i s p h = let e : is_empty s ≡ true = nothing s p in rw (e, h)
  wait_ends (suc k) i s p h = let e : is_empty s ≡ true = nothing s p in rw (e, h)

  stop_step :
      (fuel n i rbuf : ℕ) (s : End)
      → wait_char yield closed fuel i s ≡ some (false, s)
      → read_chars yield closed fuel (suc n) i rbuf s ≡ some (i, s)
  unfolding read_chars
  stop_step fuel n i rbuf s e = rw (read_chars, e)

  short_lem :
      (fuel k i rbuf : ℕ) (s : End) (got : List ℕ)
      → IsPipe s.ring got
      → (got ≢ []) ⊎ ((not (i == 0) || closed s) ≡ true)
      → Read got [] i rbuf s (read_chars yield closed fuel (length got + suc k) i rbuf s)
  short_lem fuel k i rbuf s [] p (inl o) = elim (o refl) [ ]
  short_lem fuel k i rbuf s [] p (inr h) =
      let z : 0 + suc k ≡ suc k = omega arith in
      (
        s,
        ap (λ n. read_chars yield closed fuel n i rbuf s) z
            ∙ stop_step fuel k i rbuf s (wait_ends fuel i s p h)
            ∙ ap (λ j. some (j, s)) (omega arith),
        refl,
        p,
      )
  short_lem fuel k i rbuf s (c ∷ cs) p h =
      let (t, r, m, q) =
        short_lem fuel k (i + 1) (rbuf + 1) (get_char rbuf s) cs (get-IsPipe rbuf s c cs p)
          (inr (ground arith)) in
      let z : suc (length cs) + suc k ≡ suc (length cs + suc k) = omega arith in
      (
        t,
        ap (λ n. read_chars yield closed fuel n i rbuf s) z
            ∙ read_step fuel (length cs + suc k) i rbuf s (no_wait fuel i c s cs p)
            ∙ r
            ∙ ap (λ j. some (j, t)) (omega arith),
        m ∙ ap (λ v. with_chars (rbuf + 1) cs (update s.mem rbuf v)) (p.chars.0),
        q,
      )

  -- On a pipe that holds characters, but fewer than are asked for, or that is empty and closed, pipe_read
  -- gives those it holds without waiting, and leaves the pipe empty.
  pipe_read_short :
      (fuel vbuf k : ℕ) (s : End) (got : List ℕ)
      → IsPipe s.ring got
      → (got ≢ []) ⊎ (closed s ≡ true)
      → (t : End) × (pipe_read yield closed fuel vbuf (length got + suc k) s ≡ some (length got, t))
        × (t.mem ≡ with_chars vbuf got s.mem)
        × IsPipe t.ring []
  unfolding pipe_read
  pipe_read_short fuel vbuf k s got p h =
      let (t, r, m, q) = short_lem fuel k 0 vbuf s got p h in
      (t, r ∙ ap (λ j. some (j, t)) (omega arith), m, q)

  -- On a pipe with room for n more characters, whose positions do not wrap around, pipe_write gives n and
  -- puts the n characters of the buffer behind those that the pipe holds, without waiting.
  pipe_write_lem :
      (fuel vbuf n : ℕ) (s : End) (held : List ℕ)
      → IsPipe s.ring held
      → length held + n ≤ 32
      → s.ring.wpos + n + 32 < word_mod
      → (t : End) × (pipe_write yield closed fuel vbuf n s ≡ some (n, t))
        × (t.mem ≡ s.mem)
        × IsPipe t.ring (held ++ chars_at s.mem vbuf n)
  unfolding pipe_write
  pipe_write_lem fuel vbuf n s held p l low =
      let (t, r, m, q) = write_lem fuel n 0 vbuf s held p l low in
      let e : 0 + length (chars_at s.mem vbuf n) ≡ n =
        omega (arith, length-chars_at s.mem vbuf n) in
      (t, r ∙ ap (λ j. some (j, t)) e, m, q)

-- Up to 32 characters that pipe_write puts into an empty pipe, whose positions do not wrap around, are
-- those that pipe_read gives at the other end, in their order; the pipe is empty again.
pub pipe_write-pipe_read :
    (yield_w yield_r : End → End) (closed_w closed_r : End → Bool) (fuel_w fuel_r wbuf rbuf n : ℕ)
    (s : End) (mem : ℕ → ℕ)
    → IsPipe s.ring []
    → n ≤ 32
    → s.ring.wpos + n + 32 < word_mod
    → (t : End) × (u : End) × (pipe_write yield_w closed_w fuel_w wbuf n s ≡ some (n, t))
      × (pipe_read yield_r closed_r fuel_r rbuf n (record { ring = t.ring; mem = mem })
          ≡ some (n, u))
      × (u.mem ≡ with_chars rbuf (chars_at s.mem wbuf n) mem)
      × IsPipe u.ring []
pipe_write-pipe_read yield_w yield_r closed_w closed_r fuel_w fuel_r wbuf rbuf n s mem p l low =
    let (t, r, _, q) = pipe_write_lem yield_w closed_w fuel_w wbuf n s [] p (omega arith) low in
    let sent : List ℕ = chars_at s.mem wbuf n in
    let end : End = record { ring = t.ring; mem = mem } in
    let (u, g, m, e) =
      pipe_read_lem yield_r closed_r fuel_r rbuf end sent [] (rw (append_nil sent) q) in
    let z : length sent ≡ n = length-chars_at s.mem wbuf n in
    (
      t,
      u,
      r,
      ap (λ k. pipe_read yield_r closed_r fuel_r rbuf k end) (sym z) ∙ g ∙ ap (λ k. some (k, u)) z,
      m,
      e,
    )

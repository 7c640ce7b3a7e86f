-- ===== src/Pipe.antt =====
-- user/lib/pipe.c: the ring buffer, and the test for a closed pipe. A `struct Pipe` is a page that the
-- two ends share. Between two yields the code is taken to run without another environment at the ring;
-- only the test for a closed pipe is modelled access by access.
pub mod Closed
pub mod Queue
pub mod Fifo
use run_mos_on_risc_v.Prelude.{
  ℕ, zero, suc, ◌+◌, ◌*◌, ◌%◌, Bool, true, false, ◌||◌, not, Option, none, some, ltb, leb, ◌==◌,
  if◌then◌else◌, update,
}
use run_mos_on_risc_v.Mmu.{word_mod}

-- BY2PIPE
abbrev pub by2pipe : ℕ
by2pipe = 32

-- struct Pipe
pub record Ring : Type 0 where
  pub rpos : ℕ
  pub wpos : ℕ
  pub buf : ℕ → ℕ

-- The pipe, and the memory of the environment at one of its ends.
pub record End : Type 0 where
  pub ring : Ring
  pub mem : ℕ → ℕ

-- *rbuf = p->p_buf[p->p_rpos++ % BY2PIPE]
abbrev pub get_char : ℕ → End → End
get_char rbuf s = record s {
  mem = update s.mem rbuf (s.ring.buf (s.ring.rpos % by2pipe));
  ring = record s.ring { rpos = (s.ring.rpos + 1) % word_mod };
}

-- p->p_buf[p->p_wpos++ % BY2PIPE] = *wbuf
abbrev pub put_char : ℕ → End → End
put_char wbuf s = record s {
  ring = record s.ring {
    buf = update s.ring.buf (s.ring.wpos % by2pipe) (s.mem wbuf);
    wpos = (s.ring.wpos + 1) % word_mod;
  };
}

-- p->p_rpos >= p->p_wpos, and p->p_wpos >= p->p_rpos + BY2PIPE
abbrev pub is_empty : End → Bool
is_empty s = leb s.ring.wpos s.ring.rpos

abbrev pub is_full : End → Bool
is_full s = leb ((s.ring.rpos + by2pipe) % word_mod) s.ring.wpos

-- What other environments do during syscall_yield, and the answer of _pipe_is_closed in a state. The
-- fuel is the number of yields allowed; `none` says that it was not enough.
module _ (yield : End → End) (closed : End → Bool) where
  -- The inner loop of pipe_read with i bytes read: whether there is a byte to read, or to return.
  unfoldable pub wait_char : ℕ → ℕ → End → Option (Bool × End)
  wait_char zero i s =
      if not (is_empty s)
      then some (true, s)
      else if not (i == 0) || closed s
      then some (false, s)
      else none
  wait_char (suc k) i s =
      if not (is_empty s)
      then some (true, s)
      else if not (i == 0) || closed s
      then some (false, s)
      else wait_char k i (yield s)

  -- The inner loop of pipe_write.
  unfoldable pub wait_room : ℕ → End → Option (Bool × End)
  wait_room zero s =
      if not (is_full s) then some (true, s) else if closed s then some (false, s) else none
  wait_room (suc k) s =
      if not (is_full s)
      then some (true, s)
      else if closed s
      then some (false, s)
      else wait_room k (yield s)

  -- The outer loops, with n bytes to go and i done.
  unfoldable pub read_chars : ℕ → ℕ → ℕ → ℕ → End → Option (ℕ × End)
  read_chars fuel zero i rbuf s = some (i, s)
  read_chars fuel (suc n) i rbuf s = elim (wait_char fuel i s) [
    | none ↦ none
    | some (true, t) ↦ read_chars fuel n (i + 1) (rbuf + 1) (get_char rbuf t)
    | some (false, t) ↦ some (i, t)
  ]

  unfoldable pub write_chars : ℕ → ℕ → ℕ → ℕ → End → Option (ℕ × End)
  write_chars fuel zero i wbuf s = some (i, s)
  write_chars fuel (suc n) i wbuf s = elim (wait_room fuel s) [
    | none ↦ none
    | some (true, t) ↦ write_chars fuel n (i + 1) (wbuf + 1) (put_char wbuf t)
    | some (false, t) ↦ some (i, t)
  ]

  unfoldable pub pipe_read : ℕ → ℕ → ℕ → End → Option (ℕ × End)
  unfolding read_chars
  pipe_read fuel vbuf n s = read_chars fuel n 0 vbuf s

  unfoldable pub pipe_write : ℕ → ℕ → ℕ → End → Option (ℕ × End)
  unfolding write_chars
  pipe_write fuel vbuf n s = write_chars fuel n 0 vbuf s

-- What _pipe_is_closed sees at a moment: env->env_runs, pageref(fd) and pageref(p).
pub record Moment : Type 0 where
  pub runs : ℕ
  pub fd_ref : ℕ
  pub pipe_ref : ℕ

-- _pipe_is_closed, whose accesses take one moment each, from moment t; with the moment behind it.
unfoldable pub is_closed : ℕ → (ℕ → Moment) → ℕ → Option (Bool × ℕ)
is_closed zero h t = none
is_closed (suc k) h t =
    if (h t).runs == (h (t + 3)).runs
    then some ((h (t + 1)).fd_ref == (h (t + 2)).pipe_ref, t + 4)
    else is_closed k h (t + 4)

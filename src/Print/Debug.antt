-- ===== src/Print/Debug.antt =====
-- user/lib/debugf.c: the buffer between vprintfmt and the console. The answer of
-- syscall_print_cons is a parameter: whether it takes the characters.
mod Buffer
pub mod Sent
use run_mos_on_risc_v.Prelude.{
  ℕ, zero, suc, ◌+◌, ◌-◌, ◌/◌, ◌≤◌, ◌<◌, ◌≡◌, refl, sym, ap, ◌∙◌, Bool, true, false, List, [], ◌∷◌,
  ◌++◌, arith, ltb, le→ltb, ◌==◌, if◌then◌else◌, length, inl, inr, Bool-cases,
}
use run_mos_on_risc_v.Print.{Printer, Outcome, ok, undefined, endless}

-- BUF_LEN
abbrev pub buf_len : ℕ
buf_len = 1024

-- struct debug_ctx, with the characters of buf below pos, and what the console was sent.
pub record Context : Type 0 where
  pub buf : List ℕ
  pub sent : List (List ℕ)

-- A call returns, or ends the environment by user_panic. `stuck` is a loop whose fuel was not enough,
-- `lost` what vprintfmt leaves undefined.
pub data Result : Type 0 where
  done : Context → Result
  panicked : Result
  stuck : Result
  lost : Result

abbrev pub and_then : Result → (Context → Result) → Result
and_then (done c) k = k c
and_then panicked k = panicked
and_then stuck k = stuck
and_then lost k = lost

abbrev pub take : ℕ → List ℕ → List ℕ
take zero xs = []
take (suc n) [] = []
take (suc n) (x ∷ xs) = x ∷ take n xs

abbrev pub drop : ℕ → List ℕ → List ℕ
drop zero xs = xs
drop (suc n) [] = []
drop (suc n) (x ∷ xs) = drop n xs

module _ (print_cons : List ℕ → Bool) where
  unfoldable pub debug_flush : Context → Result
  debug_flush c =
      if length c.buf == 0
      then done c
      else if print_cons c.buf
      then done (record { buf = []; sent = c.sent ++ c.buf ∷ [] })
      else panicked

  -- The loop that fills the buffer and flushes it while the characters do not fit.
  unfoldable pub fill_up : ℕ → List ℕ → Context → Result
  unfolding debug_flush
  fill_up zero s c =
      if ltb buf_len (length c.buf + length s) then stuck else done (record c { buf = c.buf ++ s })
  fill_up (suc k) s c =
      let n = buf_len - length c.buf in
      let rest =
        and_then (debug_flush (record c { buf = c.buf ++ take n s })) (fill_up k (drop n s)) in
      if ltb buf_len (length c.buf + length s) then rest else done (record c { buf = c.buf ++ s })

  -- Each round but the first takes a character at least.
  unfoldable pub debug_output : List ℕ → Context → Result
  unfolding fill_up
  debug_output s c = fill_up (length s + 1) s c

  -- The calls that vprintfmt makes.
  unfoldable pub outputs : List (List ℕ) → Context → Result
  unfolding debug_output
  outputs [] c = done c
  outputs (p ∷ ps) c = and_then (debug_output p c) (outputs ps)

  -- vdebugf, from the end of the call of vprintfmt.
  unfoldable pub vdebugf : Outcome (Unit {0} × Printer) → Result
  unfolding outputs debug_flush
  vdebugf (ok (a, s)) = and_then (outputs s.pieces (record { buf = []; sent = [] })) debug_flush
  vdebugf undefined = lost
  vdebugf endless = stuck

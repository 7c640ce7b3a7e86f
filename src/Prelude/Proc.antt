-- ===== src/Prelude/Proc.antt =====
-- The monad of kernel code: a procedure reads and writes a state and ends in one of five ways.
use run_mos_on_risc_v.Prelude.{Bool, true, false}

-- The error codes of error.h that the kernel returns.
pub data Error : Type 0 where
  bad_env inval no_mem no_sys no_free_env ipc_not_recv no_disk max_open not_found bad_path
        file_exists not_exec no_ring_desc :
      Error

-- `ok` and `err` return to the caller, `err e` with the value -e. `left` is the end of a function
-- that does not return but enters user mode. `panic` stops the machine by a check in the code;
-- `wild` follows a pointer that the C code never set.
pub data Run {ℓ κ} (S : Type ℓ) (A : Type κ) : Type (ℓ ⊔ κ) where
  ok : A → S → Run S A
  err : Error → S → Run S A
  left : S → Run S A
  panic : Run S A
  wild : Run S A

abbrev pub Proc {ℓ κ} : Type ℓ → Type κ → Type (ℓ ⊔ κ)
Proc S A = S → Run S A

abbrev pub pure {ℓ κ} : {S : Type ℓ} {A : Type κ} → A → Proc S A
pure = ok

abbrev pub fail {ℓ κ} : {S : Type ℓ} {A : Type κ} → Error → Proc S A
fail = err

abbrev pub stop {ℓ κ} : {S : Type ℓ} {A : Type κ} → Proc S A
stop s = panic

-- What follows a call under the macro `try`: an error is passed on with the state it left.
abbrev pub and_then {ℓ κ μ} :
    {S : Type ℓ} {A : Type κ} {B : Type μ} → Run S A → (A → Proc S B) → Run S B
and_then (ok a s) k = k a s
and_then (err e s) k = err e s
and_then (left s) k = left s
and_then panic k = panic
and_then wild k = wild

infixl 5 ◌>>=◌ ◌>>◌
abbrev pub ◌>>=◌ {ℓ κ μ} :
    {S : Type ℓ} {A : Type κ} {B : Type μ} → Proc S A → (A → Proc S B) → Proc S B
◌>>=◌ m k s = and_then (m s) k

abbrev pub ◌>>◌ {ℓ μ} : {S : Type ℓ} {B : Type μ} → Proc S (Unit {0}) → Proc S B → Proc S B
m >> k = m >>= λ _. k

-- assert(b), and panic_on(!b)
abbrev pub assert {ℓ} : {S : Type ℓ} → Bool → Proc S (Unit {0})
assert true s = ok tt s
assert false s = panic

abbrev pub get {ℓ κ} : {S : Type ℓ} {A : Type κ} → (S → A) → Proc S A
get f s = ok (f s) s

abbrev pub modify {ℓ} : {S : Type ℓ} → (S → S) → Proc S (Unit {0})
modify f s = ok tt (f s)

-- A call whose error stops the machine: panic_on(r).
abbrev pub no_error {ℓ κ} : {S : Type ℓ} {A : Type κ} → Run S A → Run S A
no_error (ok a s) = ok a s
no_error (err e s) = panic
no_error (left s) = left s
no_error panic = panic
no_error wild = wild

-- A call whose result is not looked at.
abbrev pub ignored {ℓ κ} : {S : Type ℓ} {A : Type κ} → Run S A → Run S (Unit {0})
ignored (ok a s) = ok tt s
ignored (err e s) = ok tt s
ignored (left s) = left s
ignored panic = panic
ignored wild = wild

-- A procedure on a part of the state.
abbrev pub embed {ℓ κ μ} :
    {S : Type ℓ} {T : Type κ} {A : Type μ} → (S → T → S) → S → Run T A → Run S A
embed put s (ok a t) = ok a (put s t)
embed put s (err e t) = err e (put s t)
embed put s (left t) = left (put s t)
embed put s panic = panic
embed put s wild = wild

-- The state that a run leaves, if there is one.
abbrev pub Holds {ℓ κ μ} : {S : Type ℓ} {A : Type κ} → (S → Type μ) → Run S A → Type μ
Holds P (ok a s) = P s
Holds P (err e s) = P s
Holds P (left s) = P s
Holds P panic = Unit
Holds P wild = Unit

-- A postcondition Q on normal return, and P on the state that any other end leaves.
abbrev pub Ends {ℓ κ μ} :
    {S : Type ℓ} {A : Type κ} → (A → S → Type μ) → (S → Type μ) → Run S A → Type μ
Ends Q P (ok a s) = Q a s
Ends Q P (err e s) = P s
Ends Q P (left s) = P s
Ends Q P panic = Unit
Ends Q P wild = Unit

pub Ends-bind {ℓ κ λ' μ} :
    {S : Type ℓ} {A : Type κ} {B : Type λ'} (Q : A → S → Type μ) (R : B → S → Type μ)
    (P : S → Type μ) (r : Run S A) (k : A → Proc S B)
    → Ends Q P r
    → ((a : A) (s : S) → Q a s → Ends R P (k a s))
    → Ends R P (and_then r k)
Ends-bind Q R P (ok a s) k h f = f a s h
Ends-bind Q R P (err e s) k h f = h
Ends-bind Q R P (left s) k h f = h
Ends-bind Q R P panic k h f = tt
Ends-bind Q R P wild k h f = tt

-- A run that follows no pointer or link that was not set up.
abbrev pub IsSafe {ℓ κ} : {S : Type ℓ} {A : Type κ} → Run S A → Type 0
IsSafe wild = ⊥
IsSafe other = Unit {0}

pub IsSafe-then {ℓ κ μ} :
    {S : Type ℓ} {A : Type κ} {B : Type μ} (r : Run S A) (k : A → Proc S B)
    → IsSafe r
    → ((a : A) (s : S) → IsSafe (k a s))
    → IsSafe (and_then r k)
IsSafe-then (ok a s) k h f = f a s
IsSafe-then (err e s) k h f = tt
IsSafe-then (left s) k h f = tt
IsSafe-then panic k h f = tt
IsSafe-then wild k h f = absurd h

pub embed-IsSafe {ℓ κ μ} :
    {S : Type ℓ} {T : Type κ} {A : Type μ} (put : S → T → S) (s : S) (r : Run T A)
    → IsSafe r
    → IsSafe (embed put s r)
embed-IsSafe put s (ok a t) h = tt
embed-IsSafe put s (err e t) h = tt
embed-IsSafe put s (left t) h = tt
embed-IsSafe put s panic h = tt
embed-IsSafe put s wild h = h

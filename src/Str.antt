-- ===== src/Str.antt =====
-- lib/string.c, on memory by bytes. A `char` is a number below 256, as on RISC-V, and addresses wrap
-- around at 2 ^ 32. A loop runs on fuel; `none` says that it was not enough.
pub mod Loop
pub mod Copy
pub mod Fill
pub mod Texts
use run_mos_on_risc_v.Prelude.{
  ℕ, zero, suc, ◌+◌, ◌*◌, ◌%◌, ◌-◌, Bool, true, false, ◌&&◌, not, Option, none, some, ltb, leb,
  ◌==◌, if◌then◌else◌, update,
}
use run_mos_on_risc_v.Bytes.{load_word, store_word}
use run_mos_on_risc_v.Mmu.{word_mod}

infixl 5 ◌>>=◌
abbrev pub ◌>>=◌ {ℓ κ} : {A : Type ℓ} {B : Type κ} → Option A → (A → Option B) → Option B
none >>= k = none
some a >>= k = k a

-- while (go) step
unfoldable pub while {ℓ} : {S : Type ℓ} → (S → Bool) → (S → S) → ℕ → S → Option S
while go step zero s = if go s then none else some s
while go step (suc k) s = if go s then while go step k (step s) else some s

-- The memory and the two pointers that memcpy moves.
pub record Cursor : Type 0 where
  pub mem : ℕ → ℕ
  pub dst : ℕ
  pub src : ℕ

-- *(char *)dst++ = *(char *)src++
abbrev pub copy_char : Cursor → Cursor
copy_char c = record {
  mem = update c.mem c.dst (c.mem c.src);
  dst = (c.dst + 1) % word_mod;
  src = (c.src + 1) % word_mod;
}

abbrev pub copy_word : Cursor → Cursor
copy_word c = record {
  mem = store_word c.dst (load_word c.mem c.src) c.mem;
  dst = (c.dst + 4) % word_mod;
  src = (c.src + 4) % word_mod;
}

unfoldable pub memcpy : ℕ → ℕ → ℕ → (ℕ → ℕ) → Option (ℕ → ℕ)
unfolding while
memcpy dst src n m =
    let max = (dst + n) % word_mod in
    let start : Cursor = record { mem = m; dst = dst; src = src } in
    if not (src % 4 == dst % 4)
    then (do c ← while (λ x. ltb x.dst max) copy_char n start; some c.mem)
    else (do
      c1 ← while (λ x. not (x.dst % 4 == 0) && ltb x.dst max) copy_char n start
      c2 ← while (λ x. leb ((x.dst + 4) % word_mod) max) copy_word n c1
      c3 ← while (λ x. ltb x.dst max) copy_char n c2
      some c3.mem)

-- The memory and the pointer that memset moves.
pub record Filler : Type 0 where
  pub mem : ℕ → ℕ
  pub dst : ℕ

abbrev pub fill_char : ℕ → Filler → Filler
fill_char byte f = record { mem = update f.mem f.dst byte; dst = (f.dst + 1) % word_mod }

-- word = byte | byte << 8 | byte << 16 | byte << 24
abbrev pub fill_word : ℕ → Filler → Filler
fill_word byte f = record {
  mem = store_word f.dst (byte * 0x101_0101) f.mem;
  dst = (f.dst + 4) % word_mod;
}

unfoldable pub memset : ℕ → ℕ → ℕ → (ℕ → ℕ) → Option (ℕ → ℕ)
unfolding while
memset dst c n m =
    let max = (dst + n) % word_mod in
    let byte = c % 256 in
    do
      f1 ←
          while (λ x. not (x.dst % 4 == 0) && ltb x.dst max) (fill_char byte) n
            (record { mem = m; dst = dst })
      f2 ← while (λ x. leb ((x.dst + 4) % word_mod) max) (fill_word byte) n f1
      f3 ← while (λ x. ltb x.dst max) (fill_char byte) n f2
      some f3.mem

-- strlen, with the count so far
unfoldable pub count_chars : ℕ → ℕ → ℕ → (ℕ → ℕ) → Option ℕ
count_chars zero n s m = none
count_chars (suc k) n s m =
    if m s == 0 then some n else count_chars k (n + 1) ((s + 1) % word_mod) m

unfoldable pub strlen : ℕ → ℕ → (ℕ → ℕ) → Option ℕ
unfolding count_chars
strlen fuel s m = count_chars fuel 0 s m

unfoldable pub strcpy : ℕ → ℕ → ℕ → (ℕ → ℕ) → Option (ℕ → ℕ)
strcpy zero dst src m = none
strcpy (suc k) dst src m =
    let m' = update m dst (m src) in
    if m src == 0 then some m' else strcpy k ((dst + 1) % word_mod) ((src + 1) % word_mod) m'

-- strchr, which gives an address or NULL
unfoldable pub strchr : ℕ → ℕ → ℕ → (ℕ → ℕ) → Option ℕ
strchr zero s c m = none
strchr (suc k) s c m =
    if m s == 0 then some 0 else if m s == c then some s else strchr k ((s + 1) % word_mod) c m

-- The result of strcmp: -1, 0 or 1.
pub data Sign : Type 0 where
  less equal more : Sign

abbrev pub sign_of : ℕ → ℕ → Sign
sign_of x y = if ltb x y then less else if ltb y x then more else equal

unfoldable pub strcmp : ℕ → ℕ → ℕ → (ℕ → ℕ) → Option Sign
strcmp zero p q m = none
strcmp (suc k) p q m =
    if not (m p == 0) && (m p == m q)
    then strcmp k ((p + 1) % word_mod) ((q + 1) % word_mod) m
    else some (sign_of (m p) (m q))

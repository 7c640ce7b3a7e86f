-- ===== src/Bytes.antt =====
-- Memory by bytes, as user programs and the file system see it: 32-bit words are four bytes, the low
-- one first.
use mathlib.Core.Path.{fun_ext}
use native.Mathlib.Decide.{ℕ_discrete}
use run_mos_on_risc_v.Prelude.{
  ℕ, ◌+◌, ◌-◌, ◌*◌, ◌/◌, ◌%◌, ◌^◌, ◌≤◌, ◌<◌, ◌≡◌, ◌⊎◌, true, ◌&&◌, arith, ◌==◌, ltb, leb,
  if◌then◌else◌, update,
}

-- *(uint32_t *)a
unfoldable pub load_word : (ℕ → ℕ) → ℕ → ℕ
load_word m a = m a + 0x100 * m (a + 1) + 0x1_0000 * m (a + 2) + 0x100_0000 * m (a + 3)

-- *(uint32_t *)a = v
unfoldable pub store_word : ℕ → ℕ → (ℕ → ℕ) → ℕ → ℕ
store_word a v m =
    update
      (update (update (update m a (v % 256)) (a + 1) (v / 0x100 % 256)) (a + 2)
        (v / 0x1_0000 % 256))
      (a + 3) (v / 0x100_0000 % 256)

-- n bytes from src to dst, the areas apart
unfoldable pub copy_bytes : ℕ → ℕ → (ℕ → ℕ) → (ℕ → ℕ) → ℕ → ℕ
copy_bytes dst n from m a = if leb dst a && ltb a (dst + n) then from (a - dst) else m a

pub load_word-store_word_self :
    (m : ℕ → ℕ) (a v : ℕ) → v < 2 ^ 32 → load_word (store_word a v m) a ≡ v
unfolding load_word store_word
load_word-store_word_self m a v h = ground arith

pub store_word_other : (m : ℕ → ℕ) (a v x : ℕ) → (x < a) ⊎ (a + 4 ≤ x) → store_word a v m x ≡ m x
unfolding store_word
store_word_other m a v x h = ground arith

pub load_word-store_word_other :
    (m : ℕ → ℕ) (a v b : ℕ)
    → (b + 4 ≤ a) ⊎ (a + 4 ≤ b)
    → load_word (store_word a v m) b ≡ load_word m b
unfolding load_word
load_word-store_word_other m a v b h = omega (
  arith,
  store_word_other m a v b (ground arith),
  store_word_other m a v (b + 1) (ground arith),
  store_word_other m a v (b + 2) (ground arith),
  store_word_other m a v (b + 3) (ground arith),
)

-- A copy goes on by a byte.
pub copy_bytes_more :
    (dst k : ℕ) (from m : ℕ → ℕ)
    → update (copy_bytes dst k from m) (dst + k) (from k) ≡ copy_bytes dst (k + 1) from m
unfolding copy_bytes
copy_bytes_more dst k from m = fun_ext (λ x. elim (ℕ_discrete (dst + k) x) [
  | yes e ↦
      let t : (leb dst x && ltb x (dst + (k + 1))) ≡ true = ground arith in
      let u : (dst + k == x) ≡ true = ground arith in
      let v : k ≡ x - dst = omega arith in rw (t, u, ← v)
  | no o ↦ ground arith
])

-- The four bytes of a word.
pub word_bytes :
    (a b c d : ℕ)
    → a < 256
    → b < 256
    → c < 256
    → d < 256
    → (w : ℕ) → w ≡ a + 0x100 * b + 0x1_0000 * c + 0x100_0000 * d
    → (w % 256 ≡ a) × (w / 0x100 % 256 ≡ b) × (w / 0x1_0000 % 256 ≡ c) × (w / 0x100_0000 % 256 ≡ d)
word_bytes a b c d ha hb hc hd w e = (omega arith, omega arith, omega arith, omega arith)

-- ===== src/Env/Ident.antt =====
-- mkenvid and envid2env: what an identifier says, and who may use it.
use run_mos_on_risc_v.Prelude.{
  ℕ, ◌+◌, ◌*◌, ◌%◌, ◌<◌, ◌≡◌, ◌≢◌, ◌⊎◌, ◌∙◌, Bool, true, false, some, ◌&&◌, ◌||◌, not, arith, ◌==◌,
  if◌then◌else◌, inl, inr, Bool-cases,
}
use run_mos_on_risc_v.Prelude.Bits.{bit_or-low}
use run_mos_on_risc_v.Prelude.Proc.{ok, err, bad_env, Ends}
use run_mos_on_risc_v.Mmu.{word_mod}
use run_mos_on_risc_v.Kernel.{Kernel, cur, env_free_status}
use run_mos_on_risc_v.Env.{make_id, mkenvid, envx, not_permitted, envid2env}

pub make_id_sum : (i e : ℕ) → i < 0x20_0000 → e < 1024 → make_id i e ≡ i * 2048 + e
make_id_sum i e hi he =
    let s : i * 2048 % word_mod ≡ i * 2 * 1024 = omega arith in
    rw s (bit_or-low (i * 2) e he ∙ omega arith)

-- mkenvid gives an identifier from which ENVX reads the environment's index, which is not the
-- identifier 0 of the caller, and which differs from that of every other count and environment, as
-- long as fewer than 2 ^ 21 were made.
mkenvid_lem :
    (k : Kernel) (e : ℕ)
    → e < 1024
    → k.id_count + 1 < 0x20_0000
    → (id : ℕ) × (mkenvid e k ≡ ok id (record k { id_count = k.id_count + 1 }))
      × (envx id ≡ e)
      × (id ≢ 0)
      × ((i e' : ℕ)
          → i < 0x20_0000
          → e' < 1024
          → make_id i e' ≡ id
          → (i ≡ k.id_count + 1) × (e' ≡ e))
unfolding mkenvid
mkenvid_lem k e he hi =
    let fits : (k.id_count + 1) % word_mod ≡ k.id_count + 1 = omega arith in
    let sum = make_id_sum (k.id_count + 1) e hi he in
    (
      make_id (k.id_count + 1) e,
      rw fits,
      omega (arith, sum),
      omega (arith, sum),
      (λ i e' h h' q. omega (arith, make_id_sum i e' h h', sum, q)),
    )

-- The test of envid2env on the environment that the identifier names.
abbrev pub is_live : Kernel → ℕ → Bool
is_live k envid =
    not ((k.envs (envx envid)).status == env_free_status) && ((k.envs (envx envid)).id == envid)

abbrev pub is_own : Kernel → ℕ → ℕ → Bool
is_own k c e = e == c || ((k.envs e).parent_id == (k.envs c).id)

-- With a current environment c, envid2env changes nothing; the identifier 0 is c itself, and any
-- other one is accepted exactly when a live environment carries it which, where permission is
-- checked, is c or a child of c.
pub envid2env_lem :
    (k : Kernel) (c envid : ℕ) (checkperm : Bool)
    → k.curenv ≡ some c
    → envid2env envid checkperm k ≡ (
        if envid == 0
        then ok c k
        else (if is_live k envid && (not checkperm || is_own k c (envx envid))
            then ok (envx envid) k
            else err bad_env k))
unfolding envid2env cur not_permitted
envid2env_lem k c envid true h = rw h (ground arith)
envid2env_lem k c envid false h = rw h (ground arith)

-- An environment that is neither the caller nor its child is out of reach.
pub envid2env_stranger :
    (k : Kernel) (c envid : ℕ)
    → k.curenv ≡ some c
    → envid ≢ 0
    → is_own k c (envx envid) ≡ false
    → envid2env envid true k ≡ err bad_env k
envid2env_stranger k c envid h z s = envid2env_lem k c envid true h ∙ ground arith

pub envid2env_cases :
    (k : Kernel) (c envid : ℕ) (checkperm : Bool)
    → k.curenv ≡ some c
    → (envid2env envid checkperm k ≡ err bad_env k)
      ⊎ ((e : ℕ) × (envid2env envid checkperm k ≡ ok e k))
envid2env_cases k c envid checkperm q =
    let e = envid2env_lem k c envid checkperm q in
    elim (Bool-cases (envid == 0)) [
      | inl z ↦ inr (c, e ∙ rw z)
      | inr z ↦ elim (Bool-cases (is_live k envid && (not checkperm || is_own k c (envx envid)))) [
        | inl y ↦ inr (envx envid, e ∙ rw (z, y))
        | inr n ↦ inl (e ∙ rw (z, n))
      ]
    ]

-- envid2env only reads.
pub envid2env_reads :
    (P : Kernel → Type 0) (k : Kernel) (envid : ℕ) (checkperm : Bool)
    → P k
    → Ends (λ _. P) P (envid2env envid checkperm k)
unfolding envid2env cur not_permitted
envid2env_reads P k envid true h = ground (arith, h)
envid2env_reads P k envid false h = ground (arith, h)

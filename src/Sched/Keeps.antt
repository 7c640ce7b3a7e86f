-- ===== src/Sched/Keeps.antt =====
-- Procedures that keep the invariant of the kernel: how they are put together, and schedule.
use run_mos_on_risc_v.Prelude.{
  ℕ, ◌≡◌, refl, sym, ◌∙◌, Bool, true, Option, none, some, inl, inr, arith, ◌==◌,
}
use run_mos_on_risc_v.Prelude.Proc.{
  Run, ok, err, left, panic, wild, Proc, Ends, Ends-bind, embed, ◌>>=◌,
}
use run_mos_on_risc_v.Pmap.{Mem}
use run_mos_on_risc_v.Disk.{Disk, Bus, virtio_disk_intr}
use run_mos_on_risc_v.Kernel.{
  Kernel, Env, env_runnable, in_mm, on_disk, on_bus, put_bus, set_env, cur,
}
use mathlib.Core.Option.{some-injective}
use run_mos_on_risc_v.Env.{envid2env}
use run_mos_on_risc_v.Env.Ident.{envid2env_reads}
use run_mos_on_risc_v.Sched.{choose, schedule}
use run_mos_on_risc_v.Sched.Turns.{Scheduled, IsChosen, choose-Scheduled}
use run_mos_on_risc_v.Sched.Invariant.{IsOk, IsOk-same, with_env-IsOk, Keeps}

pub bind-Keeps {ℓ κ} :
    {A : Type ℓ} {B : Type κ} (p : Proc Kernel A) (f : A → Proc Kernel B)
    → Keeps p
    → ((a : A) → Keeps (f a))
    → Keeps (p >>= f)
bind-Keeps p f h g k i = Ends-bind (λ _. IsOk) (λ _. IsOk) IsOk (p k) f (h k i) (λ a s j. g a s j)

embed_mm {ℓ} :
    {A : Type ℓ} (k : Kernel) (r : Run Mem A)
    → IsOk k
    → Ends (λ _. IsOk) IsOk (embed (λ (s : Kernel) m. record s { mm = m }) k r)
embed_mm k (ok a m) h = IsOk-same k (record k { mm = m }) refl refl refl (λ e. refl) h
embed_mm k (err e m) h = IsOk-same k (record k { mm = m }) refl refl refl (λ e. refl) h
embed_mm k (left m) h = IsOk-same k (record k { mm = m }) refl refl refl (λ e. refl) h
embed_mm k panic h = tt
embed_mm k wild h = tt

pub in_mm-Keeps {ℓ} : {A : Type ℓ} (p : Proc Mem A) → Keeps (in_mm p)
in_mm-Keeps p k h = embed_mm k (p k.mm) h

embed_disk {ℓ} :
    {A : Type ℓ} (k : Kernel) (r : Run Disk A)
    → IsOk k
    → Ends (λ _. IsOk) IsOk (embed (λ (s : Kernel) d. record s { disk = d }) k r)
embed_disk k (ok a m) h = IsOk-same k (record k { disk = m }) refl refl refl (λ e. refl) h
embed_disk k (err e m) h = IsOk-same k (record k { disk = m }) refl refl refl (λ e. refl) h
embed_disk k (left m) h = IsOk-same k (record k { disk = m }) refl refl refl (λ e. refl) h
embed_disk k panic h = tt
embed_disk k wild h = tt

pub on_disk-Keeps {ℓ} : {A : Type ℓ} (p : Proc Disk A) → Keeps (on_disk p)
on_disk-Keeps p k h = embed_disk k (p k.disk) h

embed_bus {ℓ} :
    {A : Type ℓ} (k : Kernel) (r : Run Bus A) → IsOk k → Ends (λ _. IsOk) IsOk (embed put_bus k r)
embed_bus k (ok a m) h = IsOk-same k (put_bus k m) refl refl refl (λ e. refl) h
embed_bus k (err e m) h = IsOk-same k (put_bus k m) refl refl refl (λ e. refl) h
embed_bus k (left m) h = IsOk-same k (put_bus k m) refl refl refl (λ e. refl) h
embed_bus k panic h = tt
embed_bus k wild h = tt

pub on_bus-Keeps {ℓ} : {A : Type ℓ} (p : Proc Bus A) → Keeps (on_bus p)
on_bus-Keeps p k h = embed_bus k (p (record { disk = k.disk; word = k.mm.word })) h

pub set_env-Keeps :
    (e : ℕ) (f : Env → Env) → ((r : Env) → (f r).status ≡ r.status) → Keeps (set_env e f)
set_env-Keeps e f s k h = with_env-IsOk e f k s h

chosen-IsOk : (k s : Kernel) (e : ℕ) → IsChosen k e s → IsOk k → IsOk s
chosen-IsOk k s e c h = record {
  envs = c.well;
  free_once = rw (c.free) h.free_once;
  free_status = λ x i. c.states x ∙ h.free_status x (rw (← c.free) i);
  live = λ x q z.
      let p : e ≡ x = some-injective e x (sym c.current ∙ q) in
      let r : ((s.envs x).status == env_runnable) ≡ true =
        sym (c.well.runnable x) ∙ rw (← p) c.listed in
      let st : (s.envs x).status ≡ env_runnable = ground arith in omega (arith, st, z);
}

choose_keeps :
    (k : Kernel) (r : Run Kernel (Unit {0})) → IsOk k → Scheduled k r → Ends (λ _. IsOk) IsOk r
choose_keeps k r h (inl (e, _)) = rw e tt
choose_keeps k r h (inr (e, s, q, c)) = rw q (chosen-IsOk k s e c h)

pub choose-Keeps : (yield : Bool) → Keeps (choose yield)
choose-Keeps yield k h = choose_keeps k (choose yield k) h (choose-Scheduled k yield h.envs)

pub schedule-Keeps : (yield : Bool) → Keeps (schedule yield)
unfolding schedule
schedule-Keeps yield =
    bind-Keeps (on_disk virtio_disk_intr) (λ _. choose yield) (on_disk-Keeps virtio_disk_intr)
      (λ _. choose-Keeps yield)

-- The environment that envid2env finds is not free, and the state is as before.
pub envid2env-Keeps : (envid : ℕ) (checkperm : Bool) → Keeps (envid2env envid checkperm)
envid2env-Keeps envid checkperm k h = envid2env_reads IsOk k envid checkperm h

pub cur-Keeps : Keeps cur
unfolding cur
cur-Keeps k h = go k.curenv
  where
    go : (o : Option ℕ) → Ends (λ _. IsOk) IsOk (elim o [ none ↦ wild | some e ↦ ok e k ])
    go none = tt
    go (some e) = h

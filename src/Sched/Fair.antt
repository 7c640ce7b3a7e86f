-- ===== src/Sched/Fair.antt =====
-- Turns under repeated calls of schedule(1): every runnable environment runs in the order of the list.
use run_mos_on_risc_v.Prelude.{
  ℕ, zero, suc, ◌≡◌, ◌%◌, refl, sym, ap, ◌∙◌, true, Option, none, some, List, [], ◌∷◌, ◌++◌, arith,
  ◌==◌, if◌then◌else◌, ==-refl, length,
}
use mathlib.Core.List.{append_assoc}
use run_mos_on_risc_v.Prelude.Proc.{ok, left}
use run_mos_on_risc_v.Kernel.{Kernel, env_runnable}
use run_mos_on_risc_v.Disk.{Disk, pending, virtio_disk_intr}
use run_mos_on_risc_v.Sched.{schedule, save_context, choose}
use run_mos_on_risc_v.Sched.Queue.{
  IsEnvs, running, running-list, running-IsEnvs, rotated, rotated-IsEnvs, full_slice, first_runs,
  choose_turn,
}
use run_mos_on_risc_v.Sched.Turns.{with_count}

-- n calls of schedule(1), each in the state that the one before left to user mode.
pub turns : ℕ → Kernel → Option Kernel
turns zero k = some k
turns (suc n) k = elim (schedule true k) [ left s ↦ turns n s | _ ↦ none ]

-- The current environment is the head of the list, and the device has completed no request that the
-- interrupt handler has not yet seen.
pub record IsTurn (k : Kernel) (c : ℕ) (xs : List ℕ) : Type 0 where
  pub well : IsEnvs k
  pub current : k.curenv ≡ some c
  pub queue : k.env_sched_list ≡ c ∷ xs
  pub calm : pending k.disk ≡ 0

-- virtio_disk_intr with nothing to do: it acknowledges the interrupt, if there is one.
abbrev acked : Disk → Disk
acked d = record d {
  interrupt_ack = if d.interrupt_status == 0 then d.interrupt_ack else d.interrupt_status % 4;
}

calm_intr : (d : Disk) → pending d ≡ 0 → virtio_disk_intr d ≡ ok tt (acked d)
unfolding virtio_disk_intr
calm_intr d h = rw h

abbrev seen : Kernel → Kernel
seen k = record k { disk = acked k.disk }

calm_schedule : (k : Kernel) → pending k.disk ≡ 0 → schedule true k ≡ choose true (seen k)
unfolding schedule
calm_schedule k h = rw (calm_intr k.disk h)

seen-IsTurn : (k : Kernel) (c : ℕ) (xs : List ℕ) → IsTurn k c xs → IsTurn (seen k) c xs
seen-IsTurn k c xs t = record {
  well = record { once = t.well.once; runnable = t.well.runnable };
  current = t.current;
  queue = t.queue;
  calm = t.calm;
}

save_context-disk : (o : Option ℕ) (k : Kernel) → (save_context o k).disk ≡ k.disk
save_context-disk none k = refl
save_context-disk (some c) k = refl

IsTurn-status :
    (k : Kernel) (c : ℕ) (xs : List ℕ) → IsTurn k c xs → (k.envs c).status ≡ env_runnable
IsTurn-status k c xs t =
    let e : ((k.envs c).status == env_runnable) ≡ true =
      sym (t.well.runnable c) ∙ rw (t.queue, ==-refl c) in
    ground arith

-- The state after the turn has passed from c to d.
abbrev passed : ℕ → ℕ → Kernel → Kernel
passed c d k = running d (record (rotated c k) { count = full_slice d k })

rotated-queue :
    (k : Kernel) (c : ℕ) (xs : List ℕ)
    → k.env_sched_list ≡ c ∷ xs
    → (rotated c k).env_sched_list ≡ xs ++ c ∷ []
rotated-queue k c xs q = rw (q, ==-refl c)

choose_passes :
    (k : Kernel) (c d : ℕ) (xs : List ℕ)
    → IsTurn k c (d ∷ xs)
    → (choose true k ≡ left (passed c d k)) × IsTurn (passed c d k) d (xs ++ c ∷ [])
choose_passes k c d xs t =
    let r = IsTurn-status k c (d ∷ xs) t in
    let q = rotated-queue k c (d ∷ xs) t.queue in
    (
      choose_turn k c true t.well t.current r refl ∙ ap (λ l. first_runs l (rotated c k)) q,
      record {
        well =
            running-IsEnvs d (record (rotated c k) { count = full_slice d k })
              (with_count (rotated c k) (full_slice d k) (rotated-IsEnvs c k r t.well));
        current = refl;
        queue = running-list d (record (rotated c k) { count = full_slice d k }) ∙ q;
        calm =
            ap pending
              (save_context-disk k.curenv (record (rotated c k) { count = full_slice d k }))
            ∙ t.calm;
      },
    )

turn :
    (k : Kernel) (c d : ℕ) (xs : List ℕ)
    → IsTurn k c (d ∷ xs)
    → (schedule true k ≡ left (passed c d (seen k))) × IsTurn (passed c d (seen k)) d (xs ++ c ∷ [])
turn k c d xs t =
    let (p, u) = choose_passes (seen k) c d xs (seen-IsTurn k c (d ∷ xs) t) in
    (calm_schedule k t.calm ∙ p, u)

turns_step : (n : ℕ) (k s : Kernel) → schedule true k ≡ left s → turns (suc n) k ≡ turns n s
unfolding turns
turns_step n k s p = ap (λ r. elim r [ left s ↦ turns n s | _ ↦ none ]) p

turns_none : (k : Kernel) → turns 0 k ≡ some k
unfolding turns
turns_none k = refl

-- When the current environment is the head of a well-formed list, and the disk has no answer for the
-- interrupt handler that each call runs first, then after as many calls of
-- schedule(1) as an environment of the list has others before it, it is the one that runs, and those
-- that ran before it stand behind it in the order in which they ran.
pub turns_lem :
    (xs : List ℕ) (k : Kernel) (c e : ℕ) (ys : List ℕ)
    → IsTurn k c (xs ++ e ∷ ys)
    → (s : Kernel) × (turns (suc (length xs)) k ≡ some s) × IsTurn s e (ys ++ c ∷ xs)
turns_lem [] k c e ys t =
    let (p, u) = turn k c e ys t in
    (
      passed c e (seen k),
      turns_step 0 k (passed c e (seen k)) p ∙ turns_none (passed c e (seen k)),
      u,
    )
turns_lem (d ∷ xs) k c e ys t =
    let (p, u) = turn k c d (xs ++ e ∷ ys) t in
    let (s, q, v) =
      turns_lem xs (passed c d (seen k)) d e (ys ++ c ∷ [])
        (rw (← append_assoc xs (e ∷ ys) (c ∷ [])) u) in
    (
      s,
      turns_step (suc (length xs)) k (passed c d (seen k)) p ∙ q,
      rw (← append_assoc ys (c ∷ []) (d ∷ xs)) v,
    )

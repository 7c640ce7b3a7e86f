-- ===== src/Sched/Queue.antt =====
-- env_sched_list and schedule: the list holds the runnable environments, and they take turns.
use native.Mathlib.Decide.{ℕ_discrete}
use run_mos_on_risc_v.Prelude.{
  ℕ, ◌+◌, ◌-◌, ◌%◌, ◌≡◌, refl, sym, ap, ◌∙◌, Bool, true, false, ◌||◌, Option, none, some, List, [],
  ◌∷◌, ◌++◌, arith, ◌==◌, eq→==, ne→==, ==-refl, elem, erase, IsNodup, elem-append, elem-erase_ne,
  elem-erase_self, erase-IsNodup, append-IsNodup,
}
use run_mos_on_risc_v.Prelude.Proc.{Run, ok, left, panic}
use run_mos_on_risc_v.Mmu.{word_mod}
use run_mos_on_risc_v.Kernel.{Kernel, env_runnable, sched_remove, sched_insert_tail}
use run_mos_on_risc_v.Sched.{
  save_context, switch_to, env_run, cannot_run, requeue, run_first, run_on, choose,
}

-- The list holds each runnable environment once and nothing else.
pub record IsEnvs (k : Kernel) : Type 0 where
  pub once : IsNodup k.env_sched_list
  pub runnable : (e : ℕ) → elem e k.env_sched_list ≡ ((k.envs e).status == env_runnable)

save_context-status :
    (o : Option ℕ) (k : Kernel) (e : ℕ) → ((save_context o k).envs e).status ≡ (k.envs e).status
save_context-status none k e = refl
save_context-status (some c) k e = elim (ℕ_discrete c e) [
  | yes p ↦ rw (eq→== c e p, p)
  | no n ↦ rw (ne→== c e n)
]

switch_to-status :
    (c : ℕ) (k : Kernel) (e : ℕ) → ((switch_to c k).envs e).status ≡ (k.envs e).status
switch_to-status c k e = elim (ℕ_discrete c e) [
  | yes p ↦ rw (eq→== c e p, p)
  | no n ↦ rw (ne→== c e n)
]

save_context-list :
    (o : Option ℕ) (k : Kernel) → (save_context o k).env_sched_list ≡ k.env_sched_list
save_context-list none k = refl
save_context-list (some c) k = refl

-- The state in which e goes on running.
abbrev pub running : ℕ → Kernel → Kernel
running e k = switch_to e (save_context k.curenv k)

pub running-list : (e : ℕ) (k : Kernel) → (running e k).env_sched_list ≡ k.env_sched_list
running-list e k = save_context-list k.curenv k

save_context-free : (o : Option ℕ) (k : Kernel) → (save_context o k).env_free_list ≡ k.env_free_list
save_context-free none k = refl
save_context-free (some c) k = refl

pub running-free : (e : ℕ) (k : Kernel) → (running e k).env_free_list ≡ k.env_free_list
running-free e k = save_context-free k.curenv k

pub running-status :
    (e : ℕ) (k : Kernel) (x : ℕ) → ((running e k).envs x).status ≡ (k.envs x).status
running-status e k x =
    switch_to-status e (save_context k.curenv k) x ∙ save_context-status k.curenv k x

pub running-IsEnvs : (e : ℕ) (k : Kernel) → IsEnvs k → IsEnvs (running e k)
running-IsEnvs e k h = record {
  once = rw (running-list e k) h.once;
  runnable = λ x.
      rw
        (
          running-list e k,
          switch_to-status e (save_context k.curenv k) x,
          save_context-status k.curenv k x,
        )
        (h.runnable x);
}

-- The list with its element c moved to the tail.
abbrev pub rotated : ℕ → Kernel → Kernel
rotated c k = record k { env_sched_list = erase c k.env_sched_list ++ c ∷ [] }

pub rotated-elem :
    (c e : ℕ) (xs : List ℕ)
    → IsNodup xs
    → elem c xs ≡ true
    → elem e (erase c xs ++ c ∷ []) ≡ elem e xs
rotated-elem c e xs n i = elim (ℕ_discrete e c) [
  | yes p ↦ rw (p, elem-append c (erase c xs) (c ∷ []), i) (ground (arith, ==-refl c))
  | no p ↦
      rw (elem-append e (erase c xs) (c ∷ []), elem-erase_ne e c xs (ne→== e c p))
        (ground (arith, ne→== e c p))
]

pub rotated-IsEnvs :
    (c : ℕ) (k : Kernel) → (k.envs c).status ≡ env_runnable → IsEnvs k → IsEnvs (rotated c k)
rotated-IsEnvs c k r h =
    let i : elem c k.env_sched_list ≡ true = h.runnable c ∙ eq→== _ _ r in
    record {
      once =
          append-IsNodup c (erase c k.env_sched_list) (elem-erase_self c k.env_sched_list h.once)
            (erase-IsNodup c k.env_sched_list h.once);
      runnable = λ e. rotated-elem c e k.env_sched_list h.once i ∙ h.runnable e;
    }

requeue_lem :
    (c : ℕ) (k : Kernel)
    → (k.envs c).status ≡ env_runnable
    → IsEnvs k
    → requeue (some c) k ≡ ok tt (rotated c k)
unfolding requeue sched_remove sched_insert_tail
requeue_lem c k r h =
    let i : elem c k.env_sched_list ≡ true = h.runnable c ∙ eq→== _ _ r in
    rw (eq→== _ _ r, i, elem-erase_self c k.env_sched_list h.once)

-- The slice of an environment that starts.
abbrev pub full_slice : ℕ → Kernel → ℕ
full_slice e k = ((k.envs e).pri + word_mod - 1) % word_mod

-- The first environment of the list, or a panic.
abbrev pub first_runs : List ℕ → Kernel → Run Kernel (Unit {0})
first_runs [] k = panic
first_runs (e ∷ _) k = left (running e (record k { count = full_slice e k }))

first_runs_lem :
    (k : Kernel) (xs : List ℕ) → k.env_sched_list ≡ xs → IsEnvs k → run_first xs k ≡ first_runs xs k
unfolding run_first env_run
first_runs_lem k [] q h = refl
first_runs_lem k (e ∷ xs) q h =
    let i : elem e k.env_sched_list ≡ true = rw (q, ==-refl e) in
    let s : ((k.envs e).status == env_runnable) ≡ true = sym (h.runnable e) ∙ i in rw s

-- A runnable environment whose slice is over, or that yields, goes to the tail of the list, and the
-- first of the list then runs with a full slice.
pub choose_turn :
    (k : Kernel) (c : ℕ) (yield : Bool)
    → IsEnvs k
    → k.curenv ≡ some c
    → (k.envs c).status ≡ env_runnable
    → (yield || k.count == 0) ≡ true
    → choose yield k ≡ first_runs (rotated c k).env_sched_list (rotated c k)
unfolding choose
choose_turn k c yield h q r y =
    let e : requeue k.curenv k ≡ ok tt (rotated c k) =
      ap (λ o. requeue o k) q ∙ requeue_lem c k r h in
    let s : (yield || k.count == 0 || cannot_run k k.curenv) ≡ true = ground arith in
    rw (s, e)
      (first_runs_lem (rotated c k) (rotated c k).env_sched_list refl (rotated-IsEnvs c k r h))

stays : (o : Option ℕ) (k : Kernel) → cannot_run k o ≡ true → requeue o k ≡ ok tt k
unfolding requeue
stays none k n = refl
stays (some e) k n = ground arith

-- With no current environment, or one that is blocked or freed, the list stays as it is and its first
-- environment runs with a full slice.
pub choose_other :
    (k : Kernel) (yield : Bool)
    → IsEnvs k
    → cannot_run k k.curenv ≡ true
    → choose yield k ≡ first_runs k.env_sched_list k
unfolding choose
choose_other k yield h n =
    let s : (yield || k.count == 0 || cannot_run k k.curenv) ≡ true = ground arith in
    rw (s, stays k.curenv k n) (first_runs_lem k k.env_sched_list refl h)

-- A runnable environment with time left runs on, with one less.
pub choose_same :
    (k : Kernel) (c : ℕ)
    → k.curenv ≡ some c
    → (k.envs c).status ≡ env_runnable
    → (k.count == 0) ≡ false
    → choose false k ≡ left (running c (record k { count = (k.count + word_mod - 1) % word_mod }))
unfolding choose run_on env_run
choose_same k c q r n = rw (n, q, eq→== _ _ r)

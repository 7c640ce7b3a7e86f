-- ===== src/Sched/Turns.antt =====
-- schedule: what it chooses, and that every runnable environment gets its turn.
use native.Mathlib.Decide.{ℕ_discrete}
use run_mos_on_risc_v.Prelude.{
  ℕ, ◌+◌, ◌-◌, ◌%◌, ◌≡◌, ◌⊎◌, refl, sym, ◌∙◌, Bool, true, false, ◌||◌, some, List, [], ◌∷◌, inl,
  inr, Bool-cases, Option-cases, ◌==◌, eq→==, ne→==, ==-refl, elem,
}
use run_mos_on_risc_v.Prelude.Proc.{Run, left, panic}
use run_mos_on_risc_v.Mmu.{word_mod}
use run_mos_on_risc_v.Kernel.{Kernel, env_runnable}
use run_mos_on_risc_v.Sched.{cannot_run, choose, make_satp}
use run_mos_on_risc_v.Sched.Queue.{
  IsEnvs, running, running-list, running-free, running-status, running-IsEnvs, rotated,
  rotated-elem, rotated-IsEnvs, full_slice, first_runs, choose_turn, choose_other, choose_same,
}

-- An environment was chosen: it is current and runnable, the register satp has its page directory and
-- its address space identifier, cur_pgdir is that directory, and the list
-- is well formed and holds the same environments.
pub record IsChosen (k : Kernel) (e : ℕ) (k' : Kernel) : Type 0 where
  pub current : k'.curenv ≡ some e
  pub listed : elem e k'.env_sched_list ≡ true
  pub space : k'.cur_pgdir ≡ (k'.envs e).pgdir
  pub translation : k'.satp ≡ make_satp (k'.envs e).asid (k'.envs e).pgdir
  pub well : IsEnvs k'
  pub free : k'.env_free_list ≡ k.env_free_list
  pub states : (x : ℕ) → (k'.envs x).status ≡ (k.envs x).status
  pub same : (x : ℕ) → elem x k'.env_sched_list ≡ elem x k.env_sched_list

-- The outcome of schedule behind the disk interrupt: a panic when no environment is runnable, or one
-- runs.
abbrev pub Scheduled : Kernel → Run Kernel (Unit {0}) → Type 0
Scheduled k r =
    ((r ≡ panic) × ((e : ℕ) → ((k.envs e).status == env_runnable) ≡ false))
    ⊎ ((e : ℕ) × (k' : Kernel) × (r ≡ left k') × IsChosen k e k')

chosen :
    (k s : Kernel) (e : ℕ)
    → s.envs ≡ k.envs
    → s.env_free_list ≡ k.env_free_list
    → elem e s.env_sched_list ≡ true
    → IsEnvs s
    → ((x : ℕ) → elem x s.env_sched_list ≡ elem x k.env_sched_list)
    → IsChosen k e (running e s)
chosen k s e en fr i h f = record {
  current = refl;
  listed = rw (running-list e s) i;
  space = rw (==-refl e);
  translation = rw (==-refl e);
  well = running-IsEnvs e s h;
  free = running-free e s ∙ fr;
  states = λ x. running-status e s x ∙ rw en;
  same = λ x. rw (running-list e s) (f x);
}

pub with_count : (k : Kernel) (n : ℕ) → IsEnvs k → IsEnvs (record k { count = n })
with_count k n h = record { once = h.once; runnable = h.runnable }

first_runs-Scheduled :
    (k s : Kernel) (xs : List ℕ)
    → s.envs ≡ k.envs
    → s.env_free_list ≡ k.env_free_list
    → s.env_sched_list ≡ xs
    → IsEnvs k
    → IsEnvs s
    → ((x : ℕ) → elem x s.env_sched_list ≡ elem x k.env_sched_list)
    → Scheduled k (first_runs xs s)
first_runs-Scheduled k s [] en fr q h g f = inl (refl, (λ e. sym (h.runnable e) ∙ sym (f e) ∙ rw q))
first_runs-Scheduled k s (e ∷ xs) en fr q h g f = inr (
  e,
  running e (record s { count = full_slice e s }),
  refl,
  chosen k (record s { count = full_slice e s }) e en fr (rw (q, ==-refl e))
      (with_count s (full_slice e s) g) f,
)

turn-Scheduled :
    (k : Kernel) (c : ℕ) (yield : Bool)
    → IsEnvs k
    → k.curenv ≡ some c
    → (k.envs c).status ≡ env_runnable
    → (yield || k.count == 0) ≡ true
    → Scheduled k (choose yield k)
turn-Scheduled k c yield h q r y =
    let i : elem c k.env_sched_list ≡ true = h.runnable c ∙ eq→== _ _ r in
    rw (choose_turn k c yield h q r y) (
      first_runs-Scheduled k (rotated c k) (rotated c k).env_sched_list refl refl refl h
        (rotated-IsEnvs c k r h) (λ x. rotated-elem c x k.env_sched_list h.once i))

other-Scheduled :
    (k : Kernel) (yield : Bool)
    → IsEnvs k
    → cannot_run k k.curenv ≡ true
    → Scheduled k (choose yield k)
other-Scheduled k yield h n =
    rw (choose_other k yield h n)
      (first_runs-Scheduled k k k.env_sched_list refl refl refl h h (λ x. refl))

same-Scheduled :
    (k : Kernel) (c : ℕ)
    → IsEnvs k
    → k.curenv ≡ some c
    → (k.envs c).status ≡ env_runnable
    → (k.count == 0) ≡ false
    → Scheduled k (choose false k)
same-Scheduled k c h q r n =
    let i : elem c k.env_sched_list ≡ true = h.runnable c ∙ eq→== _ _ r in
    let m = (k.count + word_mod - 1) % word_mod in
    rw (choose_same k c q r n) (
      inr (
        c,
        running c (record k { count = m }),
        refl,
        chosen k (record k { count = m }) c refl refl i (with_count k m h) (λ x. refl),
      ))

current-Scheduled :
    (k : Kernel) (c : ℕ) (yield : Bool)
    → IsEnvs k
    → k.curenv ≡ some c
    → (k.envs c).status ≡ env_runnable
    → Scheduled k (choose yield k)
current-Scheduled k c true h q r = turn-Scheduled k c true h q r refl
current-Scheduled k c false h q r = elim (Bool-cases (k.count == 0)) [
  | inl z ↦ turn-Scheduled k c false h q r z
  | inr z ↦ same-Scheduled k c h q r z
]

-- When the list of runnable environments is well formed, schedule (behind the disk interrupt) never
-- goes wrong: if no environment is runnable it panics, and otherwise a runnable environment becomes
-- current, with cur_pgdir and the register satp set to its page directory and identifier, and the list stays well formed with the same elements.
pub choose-Scheduled : (k : Kernel) (yield : Bool) → IsEnvs k → Scheduled k (choose yield k)
choose-Scheduled k yield h = elim (Option-cases k.curenv) [
  | inl q ↦ other-Scheduled k yield h (rw q)
  | inr (c, q) ↦ elim (ℕ_discrete (k.envs c).status env_runnable) [
    | yes r ↦ current-Scheduled k c yield h q r
    | no n ↦ other-Scheduled k yield h (rw (q, ne→== _ _ n))
  ]
]

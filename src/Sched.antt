-- ===== src/Sched.antt =====
-- kern/sched.c, with env_run and env_destroy of kern/env.c and env_pop_tf of kern/env_asm.S.
pub mod Queue
pub mod Turns
pub mod Fair
pub mod Invariant
pub mod Keeps
pub mod Start
use run_mos_on_risc_v.Prelude.{
  ℕ, ◌+◌, ◌-◌, ◌*◌, ◌%◌, bit_or, Bool, true, false, ◌||◌, not, Option, none, some, List, [], ◌∷◌,
  ◌==◌, if◌then◌else◌, update,
}
use run_mos_on_risc_v.Prelude.Proc.{
  Run, ok, err, left, panic, wild, Proc, pure, fail, stop, assert, get, modify, ◌>>=◌, ◌>>◌,
}
use run_mos_on_risc_v.Mmu.{word_mod, sv32mode, ppn}
use run_mos_on_risc_v.Disk.{virtio_disk_intr}
use run_mos_on_risc_v.Kernel.{
  Kernel, Env, in_mm, on_disk, with_env, set_env, sched_insert_tail, sched_remove, env_runnable,
}
use run_mos_on_risc_v.Env.{env_free}

-- SV32MODE | asid << 22 | PPN(pgdir)
abbrev pub make_satp : ℕ → ℕ → ℕ
make_satp asid pgdir = bit_or (bit_or sv32mode (asid * 0x40_0000 % word_mod)) (ppn pgdir)

-- The trapframe of the environment that ran so far is saved.
abbrev pub save_context : Option ℕ → Kernel → Kernel
save_context none k = k
save_context (some c) k = with_env c (λ r. record r { tf = k.stack_tf }) k

abbrev pub switch_to : ℕ → Kernel → Kernel
switch_to e k =
    let s = with_env e (λ r. record r { runs = (r.runs + 1) % word_mod }) k in
    record s {
      curenv = some e;
      cur_pgdir = (s.envs e).pgdir;
      satp = make_satp (s.envs e).asid (s.envs e).pgdir;
    }

-- env_run does not return: `left` is the state in which user mode goes on with env_tf of curenv.
unfoldable pub env_run : ℕ → Proc Kernel (Unit {0})
env_run e k =
    if (k.envs e).status == env_runnable
    then left (switch_to e (save_context k.curenv k))
    else panic

-- e == NULL || e->env_status != ENV_RUNNABLE
abbrev pub cannot_run : Kernel → Option ℕ → Bool
cannot_run k none = true
cannot_run k (some e) = not ((k.envs e).status == env_runnable)

-- A current environment that can run on goes to the tail.
requeue : Option ℕ → Proc Kernel (Unit {0})
unfolding sched_remove sched_insert_tail
requeue none k = ok tt k
requeue (some e) k =
    if (k.envs e).status == env_runnable
    then (do sched_remove e; sched_insert_tail e) k
    else ok tt k

-- TAILQ_FIRST, the new slice, and the switch
run_first : List ℕ → Proc Kernel (Unit {0})
unfolding env_run
run_first [] k = panic
run_first (e ∷ _) k = env_run e (record k { count = ((k.envs e).pri + word_mod - 1) % word_mod })

run_on : Option ℕ → Proc Kernel (Unit {0})
unfolding env_run
run_on none k = wild
run_on (some e) k = env_run e (record k { count = (k.count + word_mod - 1) % word_mod })

-- schedule behind virtio_disk_intr
unfoldable pub choose : Bool → Proc Kernel (Unit {0})
unfolding requeue run_first run_on
choose yield k =
    if yield || k.count == 0 || cannot_run k k.curenv
    then (do requeue k.curenv; first ← get (λ (s : Kernel). s.env_sched_list); run_first first) k
    else run_on k.curenv k

unfoldable pub schedule : Bool → Proc Kernel (Unit {0})
unfolding choose
schedule yield = do on_disk virtio_disk_intr; choose yield

-- curenv == e
abbrev pub is_cur : Option ℕ → ℕ → Bool
is_cur none e = false
is_cur (some c) e = c == e

unfoldable pub env_destroy : ℕ → Proc Kernel (Unit {0})
unfolding env_free schedule
env_destroy e = do
  env_free e
  c ← get (λ (k : Kernel). k.curenv)
  if is_cur c e then (do modify (λ k. record k { curenv = none }); schedule true) else pure tt

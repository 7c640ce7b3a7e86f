-- ===== src/Syscall/Fork.antt =====
-- sys_exofork keeps the invariant.
use run_mos_on_risc_v.Prelude.{ℕ, ◌≡◌, refl, false, List, [], ◌∷◌, arith, update}
use run_mos_on_risc_v.Prelude.Proc.{
  Run, ok, err, left, panic, wild, Proc, Ends, Ends-bind, ◌>>=◌, ◌>>◌, get,
}
use run_mos_on_risc_v.Kernel.{Kernel, set_env, cur, env_not_runnable}
use run_mos_on_risc_v.Env.{env_alloc_from, env_alloc}
use run_mos_on_risc_v.Sched.Invariant.{IsOk, Keeps, placed-IsOk}
use run_mos_on_risc_v.Sched.Keeps.{bind-Keeps, cur-Keeps}
use run_mos_on_risc_v.Syscall.{sys_exofork}
use run_mos_on_risc_v.Syscall.Wake.{same_listed}
use run_mos_on_risc_v.Syscall.Life.{IsHeld, IsGiven, taken-Given}

pub weaken {ℓ} :
    {A : Type ℓ} (Q : A → Kernel → Type 0) (P R : Kernel → Type 0) (r : Run Kernel A)
    → ((s : Kernel) → P s → R s)
    → Ends Q P r
    → Ends Q R r
weaken Q P R (ok a s) f h = h
weaken Q P R (err e s) f h = f s h
weaken Q P R (left s) f h = f s h
weaken Q P R panic f h = tt
weaken Q P R wild f h = tt

alloc-IsGiven :
    (k : Kernel) (l : List ℕ) (parent : ℕ)
    → k.env_free_list ≡ l
    → IsOk k
    → Ends IsGiven IsOk (env_alloc_from l parent k)
unfolding env_alloc_from
alloc-IsGiven k [] parent q h = h
alloc-IsGiven k (e ∷ rest) parent q h =
    weaken IsGiven (IsHeld (e ∷ rest)) IsOk (env_alloc_from (e ∷ rest) parent k) (λ s i. i.well)
      (taken-Given e rest parent k (record { well = h; free = q }))

env_alloc-IsGiven : (parent : ℕ) (k : Kernel) → IsOk k → Ends IsGiven IsOk (env_alloc parent k)
unfolding env_alloc
env_alloc-IsGiven parent k h = alloc-IsGiven k k.env_free_list parent refl h

-- sys_exofork behind env_alloc
abbrev fork_off : ℕ → ℕ → Proc Kernel ℕ
fork_off c e = do
  frame ← get (λ (k : Kernel). k.stack_tf)
  pri ← get (λ (k : Kernel). (k.envs c).pri)
  set_env e (λ r. record r {
    tf = record frame { regs = update frame.regs 10 0 };
    status = env_not_runnable;
    pri = pri;
  })
  get (λ (k : Kernel). (k.envs e).id)

fork_off-IsOk : (c e : ℕ) (s : Kernel) → IsGiven e s → Ends (λ _. IsOk) IsOk (fork_off c e s)
fork_off-IsOk c e s g =
    placed-IsOk s e env_not_runnable
      (λ r. record r {
        tf = record (s.stack_tf) { regs = update s.stack_tf.regs 10 0 };
        status = env_not_runnable;
        pri = (s.envs c).pri;
      })
      s.env_sched_list (λ r. refl) (omega arith) g.off g.well.envs.once
      (λ x. same_listed s.env_sched_list e x false g.out) g.well

pub sys_exofork-Keeps : Keeps sys_exofork
unfolding sys_exofork
sys_exofork-Keeps = bind-Keeps cur _ cur-Keeps (λ c.
    bind-Keeps (get (λ (k : Kernel). (k.envs c).id))
      (λ parent. do e ← env_alloc parent; fork_off c e) (λ k h. h)
      (λ parent k h.
        Ends-bind IsGiven (λ _. IsOk) IsOk (env_alloc parent k) (fork_off c)
          (env_alloc-IsGiven parent k h) (λ e s g. fork_off-IsOk c e s g)))

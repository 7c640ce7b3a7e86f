-- ===== src/Syscall/Delivery.antt =====
-- A message without a page, from sys_ipc_try_send to an environment that waits in sys_ipc_recv.
use run_mos_on_risc_v.Prelude.{
  ℕ, ◌≡◌, ◌≢◌, refl, ◌∙◌, true, false, some, [], ◌∷◌, ◌++◌, arith, ◌==◌, ne→==, ==-refl, elem,
}
use run_mos_on_risc_v.Prelude.Proc.{ok, err, ipc_not_recv}
use run_mos_on_risc_v.Kernel.{Kernel, with_env, cur, sched_insert_tail, env_runnable}
use run_mos_on_risc_v.Env.{envx, envid2env}
use run_mos_on_risc_v.Env.Ident.{is_live, envid2env_lem}
use run_mos_on_risc_v.Syscall.Message.{deliver, sys_ipc_try_send}
use run_mos_on_risc_v.Syscall.Ipc.{received}

-- The state after the message: the receiver has it, with the sender's identifier, and is the last of
-- the runnable environments; a second message is refused until it waits again.
pub record IsDelivered (k : Kernel) (c envid value : ℕ) (k' : Kernel) : Type 0 where
  pub value_is : (k'.envs (envx envid)).ipc_value ≡ value
  pub sender_is : (k'.envs (envx envid)).ipc_from ≡ (k.envs c).id
  pub awake : (k'.envs (envx envid)).status ≡ env_runnable
  pub last : k'.env_sched_list ≡ k.env_sched_list ++ envx envid ∷ []
  pub once : (v perm : ℕ) → sys_ipc_try_send envid v 0 perm k' ≡ err ipc_not_recv k'

module _ (k : Kernel) (c envid value perm : ℕ) (q : k.curenv ≡ some c) (z : envid ≢ 0)
    (l : is_live k envid ≡ true) where
  abbrev e : ℕ
  e = envx envid

  abbrev after : Kernel
  after = record (with_env e (received value (k.envs c).id perm) k) {
    env_sched_list = k.env_sched_list ++ e ∷ [];
  }

  found : envid2env envid false k ≡ ok e k
  found = envid2env_lem k c envid false q ∙ rw (ne→== envid 0 z, l)

  live_after : is_live after envid ≡ true
  live_after = rw (==-refl e) (ground (arith, l))

  found_after : envid2env envid false after ≡ ok e after
  found_after = envid2env_lem after c envid false q ∙ rw (ne→== envid 0 z, live_after)

  refused_after : (v p : ℕ) → sys_ipc_try_send envid v 0 p after ≡ err ipc_not_recv after
  unfolding sys_ipc_try_send
  refused_after v p = rw (found_after, ==-refl e)

  sent :
      ((k.envs e).ipc_recving == 0) ≡ false
      → elem e k.env_sched_list ≡ false
      → sys_ipc_try_send envid value 0 perm k ≡ ok 0 after
  unfolding sys_ipc_try_send deliver cur sched_insert_tail
  sent w out = rw (found, w, q, out)

-- With a current environment, a message without a page to a live environment that waits and is not on
-- the list of runnable environments succeeds: the receiver has the value and the sender's identifier,
-- is runnable and the last of the list, and a second message to it is refused and changes nothing.
pub sys_ipc_try_send-IsDelivered :
    (k : Kernel) (c envid value perm : ℕ)
    → k.curenv ≡ some c
    → envid ≢ 0
    → is_live k envid ≡ true
    → ((k.envs (envx envid)).ipc_recving == 0) ≡ false
    → elem (envx envid) k.env_sched_list ≡ false
    → (k' : Kernel) × (sys_ipc_try_send envid value 0 perm k ≡ ok 0 k')
      × IsDelivered k c envid value k'
sys_ipc_try_send-IsDelivered k c envid value perm q z l w out =
    let i = ==-refl (envx envid) in
    (
      after k c envid value perm q z l,
      sent k c envid value perm q z l w out,
      record {
        value_is = rw i;
        sender_is = rw i;
        awake = rw i;
        last = refl;
        once = refused_after k c envid value perm q z l;
      },
    )

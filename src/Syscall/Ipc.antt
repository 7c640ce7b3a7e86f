-- ===== src/Syscall/Ipc.antt =====
-- sys_ipc_recv and sys_ipc_try_send keep the invariant.
use run_mos_on_risc_v.Prelude.{
  ℕ, ◌≢◌, refl, true, false, Option, none, some, inl, inr, Bool-cases, ◌==◌, if◌then◌else◌, bit_or,
  not, ◌&&◌, ◌++◌, [], ◌∷◌, elem, erase, update,
}
use run_mos_on_risc_v.Prelude.Proc.{
  Proc, Ends, Ends-bind, ◌>>=◌, ◌>>◌, pure, fail, get, modify, ipc_not_recv,
}
use run_mos_on_risc_v.Mmu.{pte_u, pte_v}
use run_mos_on_risc_v.Pmap.{page_insert, page_lookup, readable}
use run_mos_on_risc_v.Kernel.{
  Kernel, Env, in_mm, set_env, with_env, cur, sched_insert_tail, sched_remove, env_free_status,
  env_runnable, env_not_runnable,
}
use run_mos_on_risc_v.Env.{envid2env}
use run_mos_on_risc_v.Sched.{schedule}
use run_mos_on_risc_v.Sched.Invariant.{IsOk, IsOk-same, Keeps}
use run_mos_on_risc_v.Sched.Keeps.{bind-Keeps, in_mm-Keeps, schedule-Keeps}
use run_mos_on_risc_v.Syscall.{is_illegal_va}
use run_mos_on_risc_v.Syscall.Message.{sys_ipc_recv, send_page, deliver, sys_ipc_try_send}
use run_mos_on_risc_v.Syscall.Wake.{Live, cur-Live, found_live, woken-IsOk, blocked-IsOk}
use run_mos_on_risc_v.Syscall.Calls.{if-Keeps, last-Keeps, guard-Keeps}

abbrev waiting : ℕ → Env → Env
waiting dstva r = record r { ipc_recving = 1; ipc_dstva = dstva; status = env_not_runnable }

abbrev give_up : Proc Kernel ℕ
give_up = do
  modify (λ (s : Kernel). record s {
    stack_tf = record (s.stack_tf) { regs = update s.stack_tf.regs 10 0 };
  })
  schedule true
  pure 0

give_up-Keeps : Keeps give_up
give_up-Keeps k h =
    let s = record k { stack_tf = record (k.stack_tf) { regs = update k.stack_tf.regs 10 0 } } in
    bind-Keeps (schedule true) (λ _. pure 0) (schedule-Keeps true) (λ _ k i. i) s
      (IsOk-same k s refl refl refl (λ e. refl) h)

wait :
    (k : Kernel) (c dstva : ℕ)
    → IsOk k
    → (k.envs c).status ≢ env_free_status
    → Ends (λ _. IsOk) IsOk ((do set_env c (waiting dstva); sched_remove c; give_up) k)
unfolding sched_remove
wait k c dstva h n = elim (Bool-cases (elem c k.env_sched_list)) [
  | inl i ↦ rw i (
      give_up-Keeps
        (record (with_env c (waiting dstva) k) { env_sched_list = erase c k.env_sched_list })
        (blocked-IsOk k c (waiting dstva) (λ r. refl) n h))
  | inr i ↦ rw i tt
]

pub sys_ipc_recv-Keeps : (dstva : ℕ) → Keeps (sys_ipc_recv dstva)
unfolding sys_ipc_recv
sys_ipc_recv-Keeps dstva k h =
    guard-Keeps (not (dstva == 0) && is_illegal_va dstva)
      (do c ← cur; set_env c (waiting dstva); sched_remove c; give_up) k
      (λ s i.
        Ends-bind (Live s) (λ _. IsOk) IsOk (cur s)
          (λ c. do set_env c (waiting dstva); sched_remove c; give_up) (cur-Live s i)
          (λ c t l. rw (l.0) (wait s c dstva i l.1)))
      h

send_page-Keeps : (e : ℕ) (found : Option (ℕ × ℕ)) → Keeps (send_page e found)
unfolding send_page
send_page-Keeps e none = λ k h. h
send_page-Keeps e (some (pp, a)) =
    bind-Keeps (get (λ (k : Kernel). k.envs e)) _ (λ k h. h)
      (λ r.
        last-Keeps (in_mm (page_insert (r.pgdir) (r.asid) pp (r.ipc_dstva) (r.ipc_perm)))
          (in_mm-Keeps _))

abbrev pub received : ℕ → ℕ → ℕ → Env → Env
received value from perm r = record r {
  ipc_value = value;
  ipc_from = from;
  ipc_perm = bit_or (bit_or pte_u pte_v) (readable perm);
  ipc_recving = 0;
  status = env_runnable;
}

abbrev pub hand_over : ℕ → ℕ → ℕ → Proc Kernel ℕ
hand_over c e srcva = if srcva == 0 then pure 0 else (do
  r ← get (λ (k : Kernel). k.envs c)
  found ← in_mm (page_lookup (r.pgdir) srcva)
  send_page e found)

hand_over-Keeps : (c e srcva : ℕ) → Keeps (hand_over c e srcva)
hand_over-Keeps c e srcva =
    if-Keeps (srcva == 0) (pure 0)
      (do
        r ← get (λ (k : Kernel). k.envs c)
        found ← in_mm (page_lookup (r.pgdir) srcva)
        send_page e found)
      (λ k h. h)
      (bind-Keeps (get (λ (k : Kernel). k.envs c)) _ (λ k h. h)
        (λ r.
          bind-Keeps (in_mm (page_lookup (r.pgdir) srcva)) (send_page e)
            (in_mm-Keeps (page_lookup (r.pgdir) srcva)) (send_page-Keeps e)))

wake :
    (k : Kernel) (c e value srcva perm from : ℕ)
    → IsOk k
    → (k.envs e).status ≢ env_free_status
    → Ends
        (λ _. IsOk)
        IsOk
        ((do set_env e (received value from perm); sched_insert_tail e; hand_over c e srcva) k)
unfolding sched_insert_tail
wake k c e value srcva perm from h n = elim (Bool-cases (elem e k.env_sched_list)) [
  | inl i ↦ rw i tt
  | inr i ↦ rw i (
      hand_over-Keeps c e srcva
        (record (with_env e (received value from perm) k) {
          env_sched_list = k.env_sched_list ++ e ∷ [];
        })
        (woken-IsOk k e (received value from perm) (λ r. refl) n i h))
]

deliver-IsOk :
    (k : Kernel) (e value srcva perm : ℕ)
    → IsOk k
    → (k.envs e).status ≢ env_free_status
    → Ends (λ _. IsOk) IsOk (deliver e value srcva perm k)
unfolding deliver
deliver-IsOk k e value srcva perm h n =
    Ends-bind (Live k) (λ _. IsOk) IsOk (cur k) _ (cur-Live k h)
      (λ c t l. rw (l.0) (wake k c e value srcva perm (k.envs c).id h n))

abbrev offer : ℕ → ℕ → ℕ → ℕ → Proc Kernel ℕ
offer value srcva perm e = do
  recving ← get (λ (s : Kernel). (s.envs e).ipc_recving)
  if recving == 0 then fail ipc_not_recv else deliver e value srcva perm

offer-IsOk :
    (k : Kernel) (e value srcva perm : ℕ)
    → IsOk k
    → (k.envs e).status ≢ env_free_status
    → Ends (λ _. IsOk) IsOk (offer value srcva perm e k)
offer-IsOk k e value srcva perm h n = elim (Bool-cases ((k.envs e).ipc_recving == 0)) [
  | inl r ↦ rw r h
  | inr r ↦ rw r (deliver-IsOk k e value srcva perm h n)
]

pub sys_ipc_try_send-Keeps :
    (envid value srcva perm : ℕ) → Keeps (sys_ipc_try_send envid value srcva perm)
unfolding sys_ipc_try_send
sys_ipc_try_send-Keeps envid value srcva perm k h =
    guard-Keeps (not (srcva == 0) && is_illegal_va srcva)
      (do e ← envid2env envid false; offer value srcva perm e) k
      (λ s i.
        found_live s envid false (offer value srcva perm) i
          (λ e n. offer-IsOk s e value srcva perm i n))
      h

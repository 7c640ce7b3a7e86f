-- ===== src/Kernel.antt =====
-- The state of the kernel: include/env.h, include/trap.h, include/queue.h and the global variables of
-- kern/env.c, kern/sched.c and kern/pmap.c. An environment is given by its index in `envs`, and the
-- two intrusive lists by the indices of their elements in order.
use run_mos_on_risc_v.Prelude.{
  ℕ, Option, none, some, List, [], ◌∷◌, ◌++◌, elem, erase, if◌then◌else◌, update,
}
use run_mos_on_risc_v.Prelude.Proc.{ok, wild, Proc, embed}
use run_mos_on_risc_v.Pmap.{Mem}
use run_mos_on_risc_v.Disk.{Disk, Bus}

pub record Trapframe : Type 0 where
  pub regs : ℕ → ℕ
  pub sstatus : ℕ
  pub sscratch : ℕ
  pub scause : ℕ
  pub sepc : ℕ
  pub stval : ℕ
  pub sip : ℕ

-- ENV_FREE, ENV_RUNNABLE and ENV_NOT_RUNNABLE
abbrev pub env_free_status : ℕ
env_free_status = 0

abbrev pub env_runnable : ℕ
env_runnable = 1

abbrev pub env_not_runnable : ℕ
env_not_runnable = 2

-- NENV
abbrev pub nenv : ℕ
nenv = 1024

-- struct Env; its two links are positions in the lists below.
pub record Env : Type 0 where
  pub tf : Trapframe
  pub id : ℕ
  pub asid : ℕ
  pub parent_id : ℕ
  pub status : ℕ
  pub pgdir : ℕ
  pub pri : ℕ
  pub ipc_value : ℕ
  pub ipc_from : ℕ
  pub ipc_recving : ℕ
  pub ipc_dstva : ℕ
  pub ipc_perm : ℕ
  pub user_tlb_mod_entry : ℕ
  pub pgdir_copy_pa : ℕ
  pub runs : ℕ

pub record Kernel : Type 0 where
  pub mm : Mem
  pub disk : Disk
  pub envs : ℕ → Env
  pub env_free_list : List ℕ
  pub env_sched_list : List ℕ
  pub curenv : Option ℕ
  pub asid_bitmap : ℕ → ℕ
  pub id_count : ℕ  -- the static variable i of mkenvid
  pub count : ℕ  -- the static variable count of schedule, an int as its bit pattern
  pub cur_pgdir : ℕ
  pub satp : ℕ
  pub base_pgdir : ℕ
  pub kernel_pgdir : ℕ
  pub stack_tf : Trapframe  -- the trapframe below KSTACKTOP
  pub console : List ℕ  -- the characters printed, the last one first

-- A procedure of pmap.c, and one on the disk and the memory.
abbrev pub in_mm {ℓ} : {A : Type ℓ} → Proc Mem A → Proc Kernel A
in_mm p k = embed (λ (s : Kernel) m. record s { mm = m }) k (p k.mm)

abbrev pub put_bus : Kernel → Bus → Kernel
put_bus k b = record k { disk = b.disk; mm = record k.mm { word = b.word } }

abbrev pub on_bus {ℓ} : {A : Type ℓ} → Proc Bus A → Proc Kernel A
on_bus p k = embed put_bus k (p (record { disk = k.disk; word = k.mm.word }))

abbrev pub on_disk {ℓ} : {A : Type ℓ} → Proc Disk A → Proc Kernel A
on_disk p k = embed (λ (s : Kernel) d. record s { disk = d }) k (p k.disk)

abbrev pub with_env : ℕ → (Env → Env) → Kernel → Kernel
with_env e f k = record k { envs = update k.envs e (f (k.envs e)) }

-- An assignment to fields of envs[e].
abbrev pub set_env : ℕ → (Env → Env) → Proc Kernel (Unit {0})
set_env e f k = ok tt (with_env e f k)

-- The environment that curenv points to; a null pointer must not be followed.
unfoldable pub cur : Proc Kernel ℕ
cur k = elim k.curenv [ none ↦ wild | some e ↦ ok e k ]

-- TAILQ_INSERT_TAIL, TAILQ_INSERT_HEAD and TAILQ_REMOVE on env_sched_list. They keep the links of a
-- list only if the element is not yet on it, or is on it: in the other cases the C code writes
-- through links that do not belong to the list, and what follows has no meaning.
unfoldable pub sched_insert_tail : ℕ → Proc Kernel (Unit {0})
sched_insert_tail e k =
    if elem e k.env_sched_list
    then wild
    else ok tt (record k { env_sched_list = k.env_sched_list ++ e ∷ [] })

unfoldable pub sched_insert_head : ℕ → Proc Kernel (Unit {0})
sched_insert_head e k =
    if elem e k.env_sched_list
    then wild
    else ok tt (record k { env_sched_list = e ∷ k.env_sched_list })

unfoldable pub sched_remove : ℕ → Proc Kernel (Unit {0})
sched_remove e k =
    if elem e k.env_sched_list
    then ok tt (record k { env_sched_list = erase e k.env_sched_list })
    else wild

-- ===== src/Tests.antt =====
-- Runs of kern/env.c, kern/sched.c, kern/syscall_all.c, kern/tlbex.c and kern/disk_driver.c: three
-- environments, of which the first two are runnable.
pub mod Library
use run_mos_on_risc_v.Prelude.{
  ℕ, suc, ◌+◌, ◌<◌, ◌≤◌, inl, inr, update, ◌≡◌, ◌≢◌, ◌⊎◌, refl, Bool, true, not, ◌&&◌, ◌||◌, none,
  some, [], ◌∷◌, arith, ◌==◌, if◌then◌else◌,
}
use run_mos_on_risc_v.Prelude.Proc.{Ends, IsSafe, ok, err, bad_env, no_ring_desc}
use run_mos_on_risc_v.Pmap.{Mem}
use run_mos_on_risc_v.Disk.{Disk, virtio_disk_req}
use run_mos_on_risc_v.Disk.Bitmap.{FewFree, TakenThree, alloc_3_desc-TakenThree}
use run_mos_on_risc_v.Disk.Chain.{Accepted, virtio_disk_req-Accepted}
use run_mos_on_risc_v.Kernel.{Trapframe, Env, Kernel}
use run_mos_on_risc_v.Env.{asid_free, asid_used, make_id, mkenvid, envx, envid2env}
use run_mos_on_risc_v.Env.Asid.{Allocated, asid_alloc-Allocated}
use run_mos_on_risc_v.Env.Ident.{is_live, is_own}
use run_mos_on_risc_v.Sched.{choose}
use run_mos_on_risc_v.Sched.Queue.{IsEnvs}
use run_mos_on_risc_v.Sched.Turns.{Scheduled, choose-Scheduled}
use run_mos_on_risc_v.Sched.Invariant.{IsOk, IsOk-same}
use run_mos_on_risc_v.Syscall.{Machine}
use run_mos_on_risc_v.Syscall.Message.{sys_ipc_try_send}
use run_mos_on_risc_v.Syscall.Delivery.{IsDelivered, sys_ipc_try_send-IsDelivered}
use run_mos_on_risc_v.Syscall.Dispatch.{do_syscall}
use run_mos_on_risc_v.Syscall.Safe.{IsUsable}
use run_mos_on_risc_v.Syscall.Safe.Dispatch.{do_syscall-IsSafe}
use run_mos_on_risc_v.Syscall.Stranger.{IsRefused, stranger-IsRefused}
use mathlib.Core.Option.{some-injective}
use run_mos_on_risc_v.Sched.Fair.{turns, IsTurn, turns_lem}
use run_mos_on_risc_v.Mmu.{page2pa}
use run_mos_on_risc_v.Tlb.{do_tlb_mod, frame_at}
use run_mos_on_risc_v.Tlb.Stack.{entered, do_tlb_mod_lem}

abbrev idle_disk : Disk
idle_disk = record {
  desc = λ _. record { addr = 0; len = 0; flags = 0; next = 0 };
  avail_ring = λ _. 0;
  avail_idx = 0xffff;
  used_flags = 0;
  device_idx = 0xffff;
  used_ring = λ _. 0;
  desc_free_bitmap = 0xf5;
  outhdr = λ _. record { type = 0; ioprio = 0; sector = 0 };
  outhdr_addr = 0x8030_0000;
  used_idx = 0xffff;
  interrupt_status = 1;
  interrupt_ack = 0;
  notified = 0;
}

abbrev frame : Trapframe
frame = record {
  regs = λ _. 0;
  sstatus = 0;
  sscratch = 0;
  scause = 0;
  sepc = 0x40_0000;
  stval = 0;
  sip = 0;
}

-- Environment i has the identifier make_id (i + 1) i; the third one is blocked.
abbrev env_at : ℕ → Env
env_at i = record {
  tf = frame;
  id = make_id (suc i) i;
  asid = i;
  parent_id = if i == 1 then make_id 1 0 else 0;
  status = if i == 0 || i == 1 then 1 else if i == 2 then 2 else 0;
  pgdir = 0x8030_0000;
  pri = 2;
  ipc_value = 0;
  ipc_from = 0;
  ipc_recving = 0;
  ipc_dstva = 0;
  ipc_perm = 0;
  user_tlb_mod_entry = 0;
  pgdir_copy_pa = 0;
  runs = 0;
}

abbrev memory : Mem
memory = record { word = λ _. 0; ref = λ _. 0; free = 1 ∷ 2 ∷ 3 ∷ []; npage = 8; fences = [] }

abbrev kernel : Kernel
kernel = record {
  mm = memory;
  disk = idle_disk;
  envs = env_at;
  env_free_list = 3 ∷ 4 ∷ [];
  env_sched_list = 0 ∷ 1 ∷ [];
  curenv = some 0;
  asid_bitmap = λ _. 7;
  id_count = 3;
  count = 1;
  cur_pgdir = 0;
  satp = 0;
  base_pgdir = 0;
  kernel_pgdir = 0;
  stack_tf = frame;
  console = [];
}

kernel-IsEnvs : IsEnvs kernel
kernel-IsEnvs = record { once = (refl, (refl, tt)); runnable = λ e. ground arith }

alloc_3_desc-TakenThree_example : TakenThree idle_disk
alloc_3_desc-TakenThree_example = alloc_3_desc-TakenThree idle_disk (omega arith)

virtio_disk_req-Accepted_example :
    ((virtio_disk_req 0x8060_0000 (record { disk = idle_disk; word = λ _. 1 })
        ≡ err no_ring_desc (record { disk = idle_disk; word = λ _. 1 }))
      × FewFree 0xf5)
    ⊎ Accepted 0x8060_0000 (record { disk = idle_disk; word = λ _. 1 })
virtio_disk_req-Accepted_example =
    virtio_disk_req-Accepted 0x8060_0000 (record { disk = idle_disk; word = λ _. 1 }) (omega arith)
      (omega arith) (omega arith) (omega arith)

asid_alloc-Allocated_example : Allocated kernel
asid_alloc-Allocated_example = asid_alloc-Allocated kernel

-- The second environment is a child of the first, the third one is not.
child_found : envid2env 0x1001 true kernel ≡ ok 1 kernel
unfolding envid2env
child_found = refl

stranger_refused : envid2env 0x1802 true kernel ≡ err bad_env kernel
unfolding envid2env
stranger_refused = refl

choose-Scheduled_example : Scheduled kernel (choose true kernel)
choose-Scheduled_example = choose-Scheduled kernel true kernel-IsEnvs

turns_lem_example : (s : Kernel) × (turns 1 kernel ≡ some s) × IsTurn s 1 (0 ∷ [])
turns_lem_example =
    turns_lem [] kernel 0 1 []
      (record { well = kernel-IsEnvs; current = refl; queue = refl; calm = refl })

kernel-IsOk : IsOk kernel
kernel-IsOk = record {
  envs = kernel-IsEnvs;
  free_once = (refl, (refl, tt));
  free_status = λ e i. ground arith;
  live = λ c q z. let p : 0 ≡ c = some-injective 0 c q in ground arith;
}

-- The first environment blocks the second one, its child.
abbrev asking : Kernel
asking = record kernel {
  stack_tf = record frame {
    regs = λ r. if r == 10 then 10 else if r == 11 then 0x1001 else if r == 12 then 2 else 0;
  };
}

abbrev machine : Machine
machine = record { user_byte = λ _ _. 65; user_frame = λ _ _. frame; cgetc = λ k. ok 65 k }

asking-IsUsable : IsUsable asking
asking-IsUsable = record {
  well = IsOk-same kernel asking refl refl refl (λ e. refl) kernel-IsOk;
  someone = (0, refl, refl);
  three = λ e. ground arith;
  waiting = λ e i. refl;
}

do_syscall-IsSafe_example :
    Ends (λ _. IsOk) IsOk (do_syscall machine asking)
    × (IsSafe (do_syscall machine asking) ⊎ (asking.stack_tf.regs 10 ≡ 4))
do_syscall-IsSafe_example = do_syscall-IsSafe machine (λ k h. h) (λ s. tt) asking asking-IsUsable

stranger-IsRefused_example : IsRefused kernel 0x1802
stranger-IsRefused_example = stranger-IsRefused kernel 0 0x1802 refl (omega arith) refl

abbrev before_init : Kernel
before_init = record kernel { curenv = none }

-- The third environment waits for a message.
abbrev expecting : Kernel
expecting = record kernel { envs = update env_at 2 (record (env_at 2) { ipc_recving = 1 }) }

sys_ipc_try_send-IsDelivered_example :
    (k' : Kernel) × (sys_ipc_try_send 0x1802 77 0 0 expecting ≡ ok 0 k')
    × IsDelivered expecting 0 0x1802 77 k'
sys_ipc_try_send-IsDelivered_example =
    sys_ipc_try_send-IsDelivered expecting 0 0x1802 77 0 refl (omega arith) refl refl refl

-- A user that stores at 0x403008, and one whose handler of page faults is at 0x400100.
abbrev faulting : Kernel
faulting = record kernel {
  cur_pgdir = page2pa 0;
  stack_tf = record frame { scause = 15; stval = 0x40_3008 };
}

abbrev handling : Kernel
handling = record kernel { envs = λ i. record (env_at i) { user_tlb_mod_entry = 0x40_0100 } }

do_tlb_mod_lem_example :
    (do_tlb_mod (λ sp tf k. ok tt k) handling ≡ ok tt (entered 0x40_0100 memory handling))
    × (0x7f3f_f000 ≤ (entered 0x40_0100 memory handling).stack_tf.sscratch)
    × (frame_at 0 + 152 ≤ 0x7f40_0000)
do_tlb_mod_lem_example =
    do_tlb_mod_lem (λ sp tf k. ok tt k) handling 0 memory refl (omega arith) (inl (omega arith))
      refl

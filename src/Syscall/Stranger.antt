-- ===== src/Syscall/Stranger.antt =====
-- What a system call answers for an environment that is out of the caller's reach.
use run_mos_on_risc_v.Prelude.{
  ℕ, ◌≡◌, ◌≢◌, true, false, some, inl, inr, Bool-cases, ◌==◌, if◌then◌else◌, ◌||◌,
}
use run_mos_on_risc_v.Prelude.Proc.{err, inval, bad_env}
use run_mos_on_risc_v.Kernel.{Kernel, env_runnable, env_not_runnable}
use run_mos_on_risc_v.Env.{envx}
use run_mos_on_risc_v.Env.Ident.{is_own, envid2env_stranger, envid2env_cases}
use run_mos_on_risc_v.Syscall.{
  is_illegal_va, sys_env_destroy, sys_set_tlb_mod_entry, sys_mem_alloc, sys_mem_map, sys_mem_unmap,
  sys_set_env_status, sys_set_trapframe, Machine, is_illegal_va_range, trapframe_size,
}

-- The calls that ask for the caller's permission, of the environment that is current in k on the one that
-- envid names: all are refused, and nothing changes.
pub record IsRefused (k : Kernel) (envid : ℕ) : Type 0 where
  pub destroy : sys_env_destroy envid k ≡ err bad_env k
  pub set_handler : (func : ℕ) → sys_set_tlb_mod_entry envid func k ≡ err bad_env k
  pub alloc :
      (va perm : ℕ)
      → sys_mem_alloc envid va perm k ≡ (if is_illegal_va va then err inval k else err bad_env k)
  pub map_from :
      (srcva dstid dstva perm : ℕ)
      → sys_mem_map envid srcva dstid dstva perm k
        ≡ (if is_illegal_va srcva || is_illegal_va dstva then err inval k else err bad_env k)
  pub map_to :
      (srcid srcva dstva perm : ℕ)
      → sys_mem_map srcid srcva envid dstva perm k
        ≡ (if is_illegal_va srcva || is_illegal_va dstva then err inval k else err bad_env k)
  pub set_frame :
      (h : Machine) (tf : ℕ)
      → sys_set_trapframe h envid tf k
        ≡ (if is_illegal_va_range tf trapframe_size then err inval k else err bad_env k)
  pub unmap :
      (va : ℕ)
      → sys_mem_unmap envid va k ≡ (if is_illegal_va va then err inval k else err bad_env k)
  pub set_status :
      (status : ℕ)
      → sys_set_env_status envid status k ≡ (
          if status == env_runnable || status == env_not_runnable
          then err bad_env k
          else err inval k)

-- An environment that is neither the caller nor a child of the caller, by an identifier other than 0,
-- can be neither destroyed nor changed in its memory, its handler, its trapframe or its status, and its
-- memory can be neither mapped elsewhere nor replaced by another's: each of these calls returns an error and changes nothing.
pub stranger-IsRefused :
    (k : Kernel) (c envid : ℕ)
    → k.curenv ≡ some c
    → envid ≢ 0
    → is_own k c (envx envid) ≡ false
    → IsRefused k envid
unfolding sys_env_destroy sys_set_tlb_mod_entry sys_mem_alloc sys_mem_map sys_mem_unmap
    sys_set_env_status sys_set_trapframe
stranger-IsRefused k c envid q z s =
    let e = envid2env_stranger k c envid q z s in
    record {
      destroy = rw e;
      set_handler = λ func. rw e;
      alloc = λ va perm. elim (Bool-cases (is_illegal_va va)) [ inl b ↦ rw b | inr b ↦ rw (b, e) ];
      map_from = λ srcva dstid dstva perm. elim (Bool-cases (is_illegal_va srcva)) [
        | inl b ↦ rw b
        | inr b ↦ elim (Bool-cases (is_illegal_va dstva)) [
          | inl d ↦ rw (b, d)
          | inr d ↦ rw (b, d, e)
        ]
      ];
      map_to = λ srcid srcva dstva perm. elim (Bool-cases (is_illegal_va srcva)) [
        | inl b ↦ rw b
        | inr b ↦ elim (Bool-cases (is_illegal_va dstva)) [
          | inl d ↦ rw (b, d)
          | inr d ↦ elim (envid2env_cases k c srcid true q) [
            | inl r ↦ rw (b, d, r)
            | inr (src, r) ↦ rw (b, d, r, e)
          ]
        ]
      ];
      set_frame = λ h tf. elim (Bool-cases (is_illegal_va_range tf trapframe_size)) [
        | inl b ↦ rw b
        | inr b ↦ rw (b, e)
      ];
      unmap = λ va. elim (Bool-cases (is_illegal_va va)) [ inl b ↦ rw b | inr b ↦ rw (b, e) ];
      set_status = λ status.
          elim (Bool-cases (status == env_runnable || status == env_not_runnable)) [
            | inl b ↦ rw (b, e)
            | inr b ↦ rw b
          ];
    }

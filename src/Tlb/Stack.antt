-- ===== src/Tlb/Stack.antt =====
-- do_tlb_mod of kern/tlbex.c: the frame on the exception stack.
use run_mos_on_risc_v.Prelude.{
  ℕ, ◌+◌, ◌-◌, ◌%◌, ◌≤◌, ◌<◌, ◌≡◌, ◌≢◌, ◌⊎◌, ap, ◌∙◌, false, ◌||◌, some, arith, ltb, leb, ◌==◌,
  if◌then◌else◌, update, inl, inr, Bool-cases,
}
use run_mos_on_risc_v.Prelude.Proc.{ok, Proc, and_then, get, modify, stop, ◌>>=◌}
use run_mos_on_risc_v.Mmu.{word_mod, by2pg, ustacktop, uxstacktop}
use run_mos_on_risc_v.Pmap.{Mem}
use run_mos_on_risc_v.Kernel.{Kernel, Trapframe, cur}
use run_mos_on_risc_v.Tlb.{frame_at, do_tlb_mod}

-- The stack pointer is below the invalid page under the exception stack, or above that stack, or on its
-- page with room for a frame and a word.
abbrev pub HasRoom : ℕ → Type 0
HasRoom sp = (sp < ustacktop) ⊎ (uxstacktop ≤ sp) ⊎ (ustacktop + by2pg + 156 ≤ sp)

bounds :
    (sp : ℕ) → HasRoom sp → (ustacktop + by2pg + 4 ≤ frame_at sp) × (frame_at sp + 152 ≤ uxstacktop)
bounds sp o = elim (Bool-cases (ltb sp ustacktop || leb uxstacktop sp)) [
  | inl t ↦ rw t (omega arith, omega arith)
  | inr t ↦ rw t (inside (ground arith) (ground arith))
]
  where
    inside :
        ustacktop + by2pg + 156 ≤ sp
        → sp < uxstacktop
        → (ustacktop + by2pg + 4 ≤ (sp + word_mod - 152) % word_mod)
          × ((sp + word_mod - 152) % word_mod + 152 ≤ uxstacktop)
    inside a b = (omega arith, omega arith)

lower : (x : ℕ) → 4 ≤ x → x < word_mod → (x + word_mod - 4) % word_mod ≡ x - 4
lower x a b = omega arith

pub cur_lem : (k : Kernel) (e : ℕ) → k.curenv ≡ some e → cur k ≡ ok e k
unfolding cur
cur_lem k e c = rw c

-- The kernel once sscratch points to the new frame, and at the end, with the handler at `entry`.
abbrev pub framed : Kernel → Kernel
framed k = record k { stack_tf = record k.stack_tf { sscratch = frame_at k.stack_tf.sscratch } }

abbrev pub entered : ℕ → Mem → Kernel → Kernel
entered entry mm k =
    let sp : ℕ = frame_at k.stack_tf.sscratch in
    record k {
      mm = mm;
      stack_tf = record k.stack_tf {
        regs = update k.stack_tf.regs 10 sp;
        sscratch = sp - 4;
        sepc = entry;
      };
    }

-- If the current environment has registered a handler, the stack pointer is below the invalid page under
-- the exception stack, above that stack, or has room on it, and the store of the frame changes only memory, then do_tlb_mod saves the old
-- trapframe within the page of the exception stack, and enters the handler with the frame's address in
-- a0 and the stack pointer just below it, on the same page.
pub do_tlb_mod_lem :
    (save : ℕ → Trapframe → Proc Kernel (Unit {0})) (k : Kernel) (e : ℕ) (mm : Mem)
    → k.curenv ≡ some e
    → (k.envs e).user_tlb_mod_entry ≢ 0
    → HasRoom k.stack_tf.sscratch
    → save (frame_at k.stack_tf.sscratch) k.stack_tf (framed k)
      ≡ ok tt (record (framed k) { mm = mm })
    → (do_tlb_mod save k ≡ ok tt (entered (k.envs e).user_tlb_mod_entry mm k))
      × (ustacktop + by2pg ≤ (entered (k.envs e).user_tlb_mod_entry mm k).stack_tf.sscratch)
      × (frame_at k.stack_tf.sscratch + 152 ≤ uxstacktop)
unfolding do_tlb_mod
do_tlb_mod_lem save k e mm c h o saved =
    let (low, high) = bounds k.stack_tf.sscratch o in
    let z : ((k.envs e).user_tlb_mod_entry == 0) ≡ false = ground arith in
    let down : (frame_at k.stack_tf.sscratch + word_mod - 4) % word_mod
        ≡ frame_at k.stack_tf.sscratch - 4 =
      lower _ (omega arith) (omega arith) in
    (
      ap (λ r. and_then r (λ _. cur >>= found)) saved
          ∙ ap (λ r. and_then r found) (cur_lem (record (framed k) { mm = mm }) e c)
          ∙ rw (z, down),
      omega arith,
      high,
    )
  where
    found : ℕ → Proc Kernel (Unit {0})
    found e = do
      entry ← get (λ (k : Kernel). (k.envs e).user_tlb_mod_entry)
      if entry == 0
          then stop
          else modify (λ k. record k {
            stack_tf = record k.stack_tf {
              regs = update k.stack_tf.regs 10 k.stack_tf.sscratch;
              sscratch = (k.stack_tf.sscratch + word_mod - 4) % word_mod;
              sepc = entry;
            };
          })

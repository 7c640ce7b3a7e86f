-- ===== src/Syscall/Life.antt =====
-- env_alloc takes an environment off the free list and keeps the invariant.
use run_mos_on_risc_v.Prelude.{
  ℕ, ◌≡◌, refl, ◌∙◌, false, inl, inr, arith, ◌+◌, ◌*◌, ◌-◌, List, ◌∷◌, elem, IsNodup, ==-refl,
}
use run_mos_on_risc_v.Prelude.Proc.{
  ignored, Run, ok, err, left, panic, wild, Proc, Ends, Ends-bind, ◌>>=◌, ◌>>◌, pure, get, modify,
  embed,
}
use run_mos_on_risc_v.Mmu.{pdx, utop, uvpt, by2pg, ustacktop}
use run_mos_on_risc_v.Pmap.{Mem, page_alloc, page2kva}
use run_mos_on_risc_v.Kernel.{Kernel, Env, in_mm, set_env, env_free_status}
use run_mos_on_risc_v.Env.{env_setup_vm, env_alloc_from, ref_up, copy_words, mkenvid, asid_alloc}
use run_mos_on_risc_v.Env.Asid.{asid_alloc-OnlyBitmap}
use run_mos_on_risc_v.Sched.Invariant.{IsOk, IsOk-same, with_env-IsOk}

-- The invariant, with the free list that a call of env_alloc found.
pub record IsHeld (l : List ℕ) (k : Kernel) : Type 0 where
  pub well : IsOk k
  pub free : k.env_free_list ≡ l

module _ (l : List ℕ) where
  abbrev HoldsOn {ℓ} : {A : Type ℓ} → Proc Kernel A → Type 0
  HoldsOn p = (k : Kernel) → IsHeld l k → Ends (λ _. IsHeld l) (IsHeld l) (p k)

  held_bind {ℓ κ} :
      {A : Type ℓ} {B : Type κ} (p : Proc Kernel A) (f : A → Proc Kernel B)
      → HoldsOn p
      → ((a : A) → HoldsOn (f a))
      → HoldsOn (p >>= f)
  held_bind p f h g k i =
      Ends-bind (λ _. IsHeld l) (λ _. IsHeld l) (IsHeld l) (p k) f (h k i) (λ a s j. g a s j)

  IsHeld-same :
      (k s : Kernel)
      → s.env_sched_list ≡ k.env_sched_list
      → s.env_free_list ≡ k.env_free_list
      → s.curenv ≡ k.curenv
      → ((e : ℕ) → (s.envs e).status ≡ (k.envs e).status)
      → IsHeld l k
      → IsHeld l s
  IsHeld-same k s a b c d h = record { well = IsOk-same k s a b c d h.well; free = b ∙ h.free }

  IsHeld-embed {ℓ} :
      {A : Type ℓ} (k : Kernel) (r : Run Mem A)
      → IsHeld l k
      → Ends (λ _. IsHeld l) (IsHeld l) (embed (λ (s : Kernel) m. record s { mm = m }) k r)
  IsHeld-embed k (ok a m) h = IsHeld-same k (record k { mm = m }) refl refl refl (λ e. refl) h
  IsHeld-embed k (err e m) h = IsHeld-same k (record k { mm = m }) refl refl refl (λ e. refl) h
  IsHeld-embed k (left m) h = IsHeld-same k (record k { mm = m }) refl refl refl (λ e. refl) h
  IsHeld-embed k panic h = tt
  IsHeld-embed k wild h = tt

  held_mm {ℓ} : {A : Type ℓ} (p : Proc Mem A) → HoldsOn (in_mm p)
  held_mm p k h = IsHeld-embed k (p k.mm) h

  held_env : (e : ℕ) (f : Env → Env) → ((r : Env) → (f r).status ≡ r.status) → HoldsOn (set_env e f)
  held_env e f s k h = record { well = with_env-IsOk e f k s h.well; free = h.free }

  IsHeld-ignored :
      (r : Run Kernel (Unit {0}))
      → Ends (λ _. IsHeld l) (IsHeld l) r
      → Ends (λ _. IsHeld l) (IsHeld l) (ignored r)
  IsHeld-ignored (ok u s) h = h
  IsHeld-ignored (err e s) h = h
  IsHeld-ignored (left s) h = h
  IsHeld-ignored panic h = tt
  IsHeld-ignored wild h = tt

  -- env_setup_vm behind the assignment of env_pgdir
  abbrev copies : ℕ → ℕ → Proc Kernel (Unit {0})
  copies e pgdir = do
    kernel_pgdir ← get (λ (k : Kernel). k.kernel_pgdir)
    base_pgdir ← get (λ (k : Kernel). k.base_pgdir)
    in_mm (copy_words pgdir kernel_pgdir by2pg)
    in_mm
        (copy_words (pgdir + 4 * pdx utop) (base_pgdir + 4 * pdx utop) (4 * (pdx uvpt - pdx utop)))
    set_env e (λ r. record r { pgdir_copy_pa = 0 })

  held_copies : (e pgdir : ℕ) → HoldsOn (copies e pgdir)
  held_copies e pgdir =
      held_bind (get (λ (k : Kernel). k.kernel_pgdir)) _ (λ k h. h)
        (λ kp.
          held_bind (get (λ (k : Kernel). k.base_pgdir)) _ (λ k h. h)
            (λ bp.
              held_bind (in_mm (copy_words pgdir kp by2pg)) _ (held_mm (copy_words pgdir kp by2pg))
                (λ _.
                  held_bind
                    (in_mm (
                      copy_words (pgdir + 4 * pdx utop) (bp + 4 * pdx utop)
                        (4 * (pdx uvpt - pdx utop))))
                    (λ _. set_env e (λ r. record r { pgdir_copy_pa = 0 }))
                    (held_mm (
                      copy_words (pgdir + 4 * pdx utop) (bp + 4 * pdx utop)
                        (4 * (pdx uvpt - pdx utop))))
                    (λ _. held_env e (λ r. record r { pgdir_copy_pa = 0 }) (λ r. refl)))))

  held_setup : (e : ℕ) → HoldsOn (env_setup_vm e)
  unfolding env_setup_vm
  held_setup e = held_bind (in_mm page_alloc) _ (held_mm page_alloc) (λ p.
      held_bind (in_mm (ref_up p)) _ (held_mm (ref_up p)) (λ _.
        held_bind (in_mm (page2kva p)) _ (held_mm (page2kva p)) (λ pgdir.
          held_bind (set_env e (λ r. record r { pgdir = pgdir })) (λ _. copies e pgdir)
            (held_env e (λ r. record r { pgdir = pgdir }) (λ r. refl)) (λ _. held_copies e pgdir))))

  held_mkenvid : (e : ℕ) → HoldsOn (mkenvid e)
  unfolding mkenvid
  held_mkenvid e k h = IsHeld-same k _ refl refl refl (λ x. refl) h

  held_asid : HoldsOn asid_alloc
  held_asid k h = elim (asid_alloc-OnlyBitmap k) [
    | inl q ↦ rw q h
    | inr (i, bitmap, q) ↦
        rw q (IsHeld-same k (record k { asid_bitmap = bitmap }) refl refl refl (λ e. refl) h)
  ]

  pub IsHeld-then {ℓ κ} :
      {A : Type ℓ} {B : Type κ} (R : B → Kernel → Type 0) (p : Proc Kernel A)
      (f : A → Proc Kernel B)
      → HoldsOn p
      → ((a : A) (s : Kernel) → IsHeld l s → Ends R (IsHeld l) (f a s))
      → (k : Kernel) → IsHeld l k
      → Ends R (IsHeld l) ((p >>= f) k)
  IsHeld-then R p f h g k i = Ends-bind (λ _. IsHeld l) R (IsHeld l) (p k) f (h k i) g

-- An environment that was taken off the free list and is in no list.
pub record IsGiven (e : ℕ) (k : Kernel) : Type 0 where
  pub well : IsOk k
  pub off : elem e k.env_free_list ≡ false
  pub out : elem e k.env_sched_list ≡ false

IsNodup-of : (xs ys : List ℕ) → xs ≡ ys → IsNodup xs → IsNodup ys
IsNodup-of xs ys q n = rw (← q) n

take_off :
    (s : Kernel) (e : ℕ) (rest : List ℕ)
    → IsHeld (e ∷ rest) s
    → IsGiven e (record s { env_free_list = rest })
take_off s e rest h =
    let n : IsNodup (e ∷ rest) = IsNodup-of s.env_free_list (e ∷ rest) h.free h.well.free_once in
    let z : (s.envs e).status ≡ env_free_status = h.well.free_status e (rw (h.free, ==-refl e)) in
    record {
      well = record {
        envs = record { once = h.well.envs.once; runnable = h.well.envs.runnable };
        free_once = n.1;
        free_status = λ x i. h.well.free_status x (rw (h.free, i) (ground arith));
        live = h.well.live;
      };
      off = n.0;
      out = h.well.envs.runnable e ∙ rw z;
    }

module _ (e : ℕ) (rest : List ℕ) (parent : ℕ) where
  abbrev l : List ℕ
  l = e ∷ rest

  abbrev Given : ℕ → Kernel → Type 0
  Given = IsGiven

  abbrev finish : ℕ → Proc Kernel ℕ
  finish asid = do
    set_env e (λ r. record r {
      asid = asid;
      parent_id = parent;
      tf = record (r.tf) { sstatus = 2; sscratch = ustacktop - 8 };
    })
    modify (λ (s : Kernel). record s { env_free_list = rest })
    pure e

  finish-Given : (asid : ℕ) (k : Kernel) → IsHeld l k → Ends Given (IsHeld l) (finish asid k)
  finish-Given asid k h =
      IsHeld-then l Given
        (set_env e (λ r. record r {
          asid = asid;
          parent_id = parent;
          tf = record (r.tf) { sstatus = 2; sscratch = ustacktop - 8 };
        }))
        (λ _. do modify (λ (s : Kernel). record s { env_free_list = rest }); pure e)
        (held_env l e
          (λ r. record r {
            asid = asid;
            parent_id = parent;
            tf = record (r.tf) { sstatus = 2; sscratch = ustacktop - 8 };
          })
          (λ r. refl))
        (λ _ s i. take_off s e rest i) k h

  abbrev named : ℕ → Proc Kernel ℕ
  named id = do set_env e (λ r. record r { id = id }); asid ← asid_alloc; finish asid

  named-Given : (id : ℕ) (k : Kernel) → IsHeld l k → Ends Given (IsHeld l) (named id k)
  named-Given id k h =
      IsHeld-then l Given (set_env e (λ r. record r { id = id }))
        (λ _. do asid ← asid_alloc; finish asid)
        (held_env l e (λ r. record r { id = id }) (λ r. refl))
        (λ _ s i. IsHeld-then l Given asid_alloc finish (held_asid l) finish-Given s i) k h

  abbrev reset : Env → Env
  reset r = record r { user_tlb_mod_entry = 0; runs = 0 }

  pub taken-Given : (k : Kernel) → IsHeld l k → Ends Given (IsHeld l) (env_alloc_from l parent k)
  unfolding env_alloc_from
  taken-Given k h =
      IsHeld-then l Given (λ s. ignored (env_setup_vm e s))
        (λ _. do set_env e reset; id ← mkenvid e; named id)
        (λ s i. IsHeld-ignored l (env_setup_vm e s) (held_setup l e s i))
        (λ _ s i.
          IsHeld-then l Given (set_env e reset) (λ _. do id ← mkenvid e; named id)
            (held_env l e reset (λ r. refl))
            (λ _ t j. IsHeld-then l Given (mkenvid e) named (held_mkenvid l e) named-Given t j) s i)
        k h

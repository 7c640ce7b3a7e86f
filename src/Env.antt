-- ===== src/Env.antt =====
-- kern/env.c: identifiers, address space identifiers, and the life of an environment.
-- Left out: load_icode and env_create, which read an ELF image, and the lines that only print.
pub mod Asid
pub mod Ident
use run_mos_on_risc_v.Prelude.{
  ℕ, zero, suc, ◌+◌, ◌-◌, ◌*◌, ◌/◌, ◌%◌, bit_or, Bool, true, false, ◌&&◌, ◌||◌, not, Option, none,
  some, List, [], ◌∷◌, ltb, leb, ◌==◌, if◌then◌else◌, update,
}
use run_mos_on_risc_v.Prelude.Bits.{test_bit, set_bit, clear_bit}
use run_mos_on_risc_v.Prelude.Proc.{
  Run, ok, err, panic, left, wild, Proc, pure, fail, stop, assert, get, modify, no_error, ignored,
  ◌>>=◌, ◌>>◌, Error, no_free_env, bad_env,
}
use run_mos_on_risc_v.Mmu.{
  pdx, by2pg, word_mod, ulim, utop, uvpt, upages, uenvs, ustacktop, pte_addr, is_valid, page2pa,
  pte_g, pte_r, pte_u, round,
}
use run_mos_on_risc_v.Pmap.{
  Mem, load, store, set_ref, kaddr, pa2page, page2kva, page_alloc, page_decref, page_insert,
  page_remove, tlb_flush,
}
use run_mos_on_risc_v.Kernel.{
  Kernel, Env, Trapframe, in_mm, with_env, set_env, cur, sched_remove, env_free_status,
  env_runnable, nenv,
}

-- NASID
abbrev pub nasid : ℕ
nasid = 64

-- asid_bitmap[i >> 5] & (1 << (i & 31))
abbrev pub asid_used : (ℕ → ℕ) → ℕ → Bool
asid_used bitmap i = test_bit (bitmap (i / 32)) (i % 32)

-- The loop of asid_alloc over n values from i.
pub find_asid : ℕ → ℕ → (ℕ → ℕ) → Option ℕ
find_asid zero i bitmap = none
find_asid (suc n) i bitmap =
    let rest = find_asid n (i + 1) bitmap in if asid_used bitmap i then rest else some i

pub take_asid : Option ℕ → Proc Kernel ℕ
take_asid none k = err no_free_env k
take_asid (some i) k = ok i (record k {
  asid_bitmap = update k.asid_bitmap (i / 32) (set_bit (k.asid_bitmap (i / 32)) (i % 32));
})

unfoldable pub asid_alloc : Proc Kernel ℕ
unfolding find_asid take_asid
asid_alloc k = take_asid (find_asid nasid 0 k.asid_bitmap) k

unfoldable pub asid_free : ℕ → Proc Kernel (Unit {0})
asid_free i k = ok tt (record k {
  asid_bitmap = update k.asid_bitmap (i / 32) (clear_bit (k.asid_bitmap (i / 32)) (i % 32));
})

-- ((++i) << (1 + LOG2NENV)) | (e - envs), in 32 bits
abbrev pub make_id : ℕ → ℕ → ℕ
make_id i e = bit_or (i * 2048 % word_mod) e

unfoldable pub mkenvid : ℕ → Proc Kernel ℕ
mkenvid e k = let i = (k.id_count + 1) % word_mod in ok (make_id i e) (record k { id_count = i })

-- ENVX
abbrev pub envx : ℕ → ℕ
envx envid = envid % nenv

-- checkperm && e != curenv && e->env_parent_id != curenv->env_id
unfoldable pub not_permitted : Bool → ℕ → Option ℕ → Kernel → Run Kernel Bool
not_permitted false e c k = ok false k
not_permitted true e none k = wild
not_permitted true e (some c) k = ok (not (e == c) && not ((k.envs e).parent_id == (k.envs c).id)) k

unfoldable pub envid2env : ℕ → Bool → Proc Kernel ℕ
unfolding cur not_permitted
envid2env envid checkperm k =
    if envid == 0
    then cur k
    else (let e = envx envid in
        if (k.envs e).status == env_free_status || not ((k.envs e).id == envid)
        then err bad_env k
        else (do
          refused ← not_permitted checkperm e k.curenv
          if refused then fail bad_env else pure e)
            k)

-- The loop of map_segment, with n pages to go. A failing page_insert stops the machine.
map_pages : ℕ → ℕ → ℕ → ℕ → ℕ → ℕ → Proc Mem (Unit {0})
map_pages zero pgdir asid pa va perm = pure tt
map_pages (suc n) pgdir asid pa va perm = do
  pp ← pa2page pa
  (λ m. no_error (page_insert pgdir asid pp va perm m))
  map_pages n pgdir asid ((pa + by2pg) % word_mod) ((va + by2pg) % word_mod) perm

unfoldable pub map_segment : ℕ → ℕ → ℕ → ℕ → ℕ → ℕ → Proc Mem (Unit {0})
unfolding map_pages
map_segment pgdir asid pa va size perm = do
  assert (pa % by2pg == 0)
  assert (va % by2pg == 0)
  assert (size % by2pg == 0)
  map_pages (size / by2pg) pgdir asid pa va perm

-- PADDR
unfoldable pub paddr : ℕ → Proc Mem ℕ
paddr kva m = if ltb kva ulim then panic else ok kva m

-- The loop of env_init, with the environments below n to go.
unfoldable pub free_envs : ℕ → Kernel → Kernel
free_envs zero k = k
free_envs (suc n) k =
    free_envs n (record (with_env n (λ e. record e { status = env_free_status }) k) {
      env_free_list = n ∷ k.env_free_list;
    })

-- sizeof(struct Page) and sizeof(struct Env)
abbrev pub page_size : ℕ
page_size = 12

abbrev pub env_size : ℕ
env_size = 224

-- p->pp_ref++, a u_short
unfoldable pub ref_up : ℕ → Proc Mem (Unit {0})
ref_up pp = do r ← get (λ (m : Mem). m.ref pp); set_ref pp ((r + 1) % 0x1_0000)

-- The template directory of env_init; `pages` and `envs` are the addresses of those arrays.
pub base_tables : ℕ → ℕ → Proc Mem ℕ
unfolding ref_up map_segment paddr
base_tables pages envs = do
  p ← (λ m. no_error (page_alloc m))
  ref_up p
  base ← page2kva p
  pages_pa ← paddr pages
  npage ← get (λ (m : Mem). m.npage)
  map_segment base 0 pages_pa upages (round (npage * page_size)) (bit_or (bit_or pte_g pte_r) pte_u)
  envs_pa ← paddr envs
  map_segment base 0 envs_pa uenvs (round (nenv * env_size)) (bit_or (bit_or pte_g pte_r) pte_u)
  pure base

unfoldable pub env_init : ℕ → ℕ → Proc Kernel (Unit {0})
unfolding free_envs base_tables
env_init pages envs = do
  modify (λ k. free_envs nenv (record k { env_free_list = []; env_sched_list = [] }))
  base ← in_mm (base_tables pages envs)
  modify (λ k. record k { base_pgdir = base })

-- memcpy(dst, src, n) on whole words of areas apart
abbrev pub copy : ℕ → ℕ → ℕ → (ℕ → ℕ) → ℕ → ℕ
copy dst src n word a = if leb dst a && ltb a (dst + n) then word (src + (a - dst)) else word a

unfoldable pub copy_words : ℕ → ℕ → ℕ → Proc Mem (Unit {0})
copy_words dst src n m = ok tt (record m { word = copy dst src n m.word })

unfoldable pub env_setup_vm : ℕ → Proc Kernel (Unit {0})
unfolding ref_up copy_words
env_setup_vm e = do
  p ← in_mm page_alloc
  in_mm (ref_up p)
  pgdir ← in_mm (page2kva p)
  set_env e (λ r. record r { pgdir = pgdir })
  kernel_pgdir ← get (λ (k : Kernel). k.kernel_pgdir)
  base_pgdir ← get (λ (k : Kernel). k.base_pgdir)
  in_mm (copy_words pgdir kernel_pgdir by2pg)
  in_mm (copy_words (pgdir + 4 * pdx utop) (base_pgdir + 4 * pdx utop) (4 * (pdx uvpt - pdx utop)))
  set_env e (λ r. record r { pgdir_copy_pa = 0 })

-- env_alloc, on the list that LIST_FIRST and LIST_REMOVE find
unfoldable pub env_alloc_from : List ℕ → ℕ → Proc Kernel ℕ
unfolding env_setup_vm mkenvid asid_alloc
env_alloc_from [] parent k = err no_free_env k
env_alloc_from (e ∷ rest) parent k =
    (do
      (λ s. ignored (env_setup_vm e s))
      set_env e (λ r. record r { user_tlb_mod_entry = 0; runs = 0 })
      id ← mkenvid e
      set_env e (λ r. record r { id = id })
      asid ← asid_alloc
      set_env e (λ r. record r {
        asid = asid;
        parent_id = parent;
        tf = record (r.tf) { sstatus = 2; sscratch = ustacktop - 8 };
      })
      modify (λ s. record s { env_free_list = rest })
      pure e)
      k

unfoldable pub env_alloc : ℕ → Proc Kernel ℕ
unfolding env_alloc_from
env_alloc parent k = env_alloc_from k.env_free_list parent k

-- The inner loop of env_free over n entries from j of the table at pt.
free_entries : ℕ → ℕ → ℕ → ℕ → ℕ → ℕ → Proc Mem (Unit {0})
free_entries zero j pgdir asid i pt = pure tt
free_entries (suc n) j pgdir asid i pt = do
  v ← load (pt + 4 * j)
  if is_valid v then page_remove pgdir asid (i * 0x40_0000 + j * by2pg) else pure tt
  free_entries n (j + 1) pgdir asid i pt

free_table : ℕ → ℕ → ℕ → Proc Mem (Unit {0})
unfolding free_entries
free_table pgdir asid i = do
  pde ← load (pgdir + 4 * i)
  if is_valid pde
      then (do
        pt ← kaddr (pte_addr pde)
        free_entries 1024 0 pgdir asid i pt
        store (pgdir + 4 * i) 0
        pp ← pa2page (pte_addr pde)
        page_decref pp
        tlb_flush asid 0)
      else pure tt

-- The outer loop of env_free over n directory entries from i.
free_tables : ℕ → ℕ → ℕ → ℕ → Proc Mem (Unit {0})
unfolding free_table
free_tables zero i pgdir asid = pure tt
free_tables (suc n) i pgdir asid = do free_table pgdir asid i; free_tables n (i + 1) pgdir asid

free_copy : ℕ → Proc Mem (Unit {0})
free_copy copy_pa =
    if copy_pa == 0
    then pure tt
    else do pp ← pa2page copy_pa; r ← get (λ (m : Mem). m.ref pp); assert (r == 1); page_decref pp

-- The part of env_free that is about memory.
pub free_space : ℕ → ℕ → ℕ → Proc Mem (Unit {0})
unfolding free_tables free_copy paddr
free_space pgdir asid copy_pa = do
  free_tables (pdx utop) 0 pgdir asid
  free_copy copy_pa
  pa ← paddr pgdir
  pp ← pa2page pa
  page_decref pp

unfoldable pub env_free : ℕ → Proc Kernel (Unit {0})
unfolding free_space asid_free sched_remove
env_free e = do
  r ← get (λ (k : Kernel). k.envs e)
  in_mm (free_space (r.pgdir) (r.asid) (r.pgdir_copy_pa))
  asid_free (r.asid)
  in_mm (tlb_flush (r.asid) 0)
  set_env e (λ x. record x { status = env_free_status })
  modify (λ k. record k { env_free_list = e ∷ k.env_free_list })
  sched_remove e

-- ===== src/Disk/Safe.antt =====
-- kern/disk_driver.c: the pointers that the driver follows.
use run_mos_on_risc_v.Prelude.{
  ℕ, zero, suc, ◌%◌, ◌++◌, not, Option, none, some, List, [], ◌∷◌, inl, inr, Bool-cases, ltb, ◌==◌,
  arith,
}
use run_mos_on_risc_v.Prelude.Proc.{Run, ok, err, left, panic, wild, Proc, IsSafe, IsSafe-then}
use run_mos_on_risc_v.Prelude.Bits.{test_bit}
use run_mos_on_risc_v.Disk.{
  Disk, Bus, kstacktop, queue_num, free_all, take_desc, alloc_desc, find_bit, or_free, alloc_descs,
  submit, notify, virtio_disk_req, free_desc, chain_loop, free_chain, used_loop, pending,
  virtio_disk_intr,
}

pub free_desc-IsSafe : (i : ℕ) (d : Disk) → IsSafe (free_desc i d)
unfolding free_desc
free_desc-IsSafe i d = elim (Bool-cases (ltb i queue_num)) [
  | inr b ↦ rw b tt
  | inl b ↦ elim (Bool-cases (not (test_bit d.desc_free_bitmap i))) [
    | inl t ↦ rw (b, t) tt
    | inr t ↦ rw (b, t) tt
  ]
]

chain_loop-IsSafe : (n i : ℕ) (d : Disk) → IsSafe (chain_loop n i d)
unfolding chain_loop
chain_loop-IsSafe zero i d = tt
chain_loop-IsSafe (suc n) i d = IsSafe-then (free_desc i d) _ (free_desc-IsSafe i d) λ _ s.
    elim (Bool-cases (test_bit (d.desc i).flags 0)) [
      | inl b ↦ rw b (chain_loop-IsSafe n (d.desc i).next s)
      | inr b ↦ rw b tt
    ]

used_loop-IsSafe : (n : ℕ) (d : Disk) → IsSafe (used_loop n d)
unfolding used_loop free_chain
used_loop-IsSafe zero d = tt
used_loop-IsSafe (suc n) d =
    let id = d.used_ring (d.used_idx % queue_num) in
    IsSafe-then (chain_loop 33 id d) _ (chain_loop-IsSafe 33 id d) (λ _ s. used_loop-IsSafe n _)

pub virtio_disk_intr-IsSafe : (d : Disk) → IsSafe (virtio_disk_intr d)
unfolding virtio_disk_intr
virtio_disk_intr-IsSafe d = used_loop-IsSafe (pending d) _

free_all-IsSafe : (is : List ℕ) (d : Disk) → IsSafe (free_all is d)
unfolding free_all
free_all-IsSafe [] d = tt
free_all-IsSafe (i ∷ is) d =
    IsSafe-then (free_desc i d) _ (free_desc-IsSafe i d) (λ _ s. free_all-IsSafe is s)

take_desc-IsSafe : (o : Option ℕ) (d : Disk) → IsSafe (take_desc o d)
unfolding take_desc
take_desc-IsSafe none d = tt
take_desc-IsSafe (some i) d = tt

alloc_desc-IsSafe : (d : Disk) → IsSafe (alloc_desc d)
unfolding alloc_desc
alloc_desc-IsSafe d = elim (Bool-cases (d.desc_free_bitmap == 0)) [
  | inl z ↦ rw z tt
  | inr z ↦ rw z (take_desc-IsSafe (find_bit queue_num 0 d.desc_free_bitmap) d)
]

or_free-IsSafe :
    (r : Run Disk ℕ) (got : List ℕ) (k : ℕ → Proc Disk (List ℕ))
    → IsSafe r
    → ((i : ℕ) (d : Disk) → IsSafe (k i d))
    → IsSafe (or_free r got k)
or_free-IsSafe (ok i d) got k h f = f i d
or_free-IsSafe (err e d) got k h f =
    IsSafe-then (free_all got d) _ (free_all-IsSafe got d) (λ _ s. tt)
or_free-IsSafe (left d) got k h f = tt
or_free-IsSafe panic got k h f = tt
or_free-IsSafe wild got k h f = absurd h

alloc_descs-IsSafe : (n : ℕ) (got : List ℕ) (d : Disk) → IsSafe (alloc_descs n got d)
unfolding alloc_descs
alloc_descs-IsSafe zero got d = tt
alloc_descs-IsSafe (suc n) got d =
    or_free-IsSafe (alloc_desc d) got _ (alloc_desc-IsSafe d)
      (λ i s. alloc_descs-IsSafe n (got ++ i ∷ []) s)

submit-IsSafe : (req : ℕ) (l : List ℕ) (b : Bus) → IsSafe (submit req l b)
unfolding submit notify
submit-IsSafe req [] b = tt
submit-IsSafe req (i ∷ []) b = tt
submit-IsSafe req (i ∷ j ∷ []) b = tt
submit-IsSafe req (i ∷ j ∷ k ∷ []) b = ground arith
submit-IsSafe req (i ∷ j ∷ k ∷ l ∷ ls) b = tt

submitted : ℕ → Bus → Run Disk (List ℕ) → Run Bus (Unit {0})
submitted req b r = elim r [
  | ok idx d ↦ submit req idx (record b { disk = d })
  | err e d ↦ err e (record b { disk = d })
  | left d ↦ left (record b { disk = d })
  | panic ↦ panic
  | wild ↦ wild
]

submitted-IsSafe :
    (req : ℕ) (b : Bus) (r : Run Disk (List ℕ)) → IsSafe r → IsSafe (submitted req b r)
unfolding submitted
submitted-IsSafe req b (ok idx d) h = submit-IsSafe req idx _
submitted-IsSafe req b (err e d) h = tt
submitted-IsSafe req b (left d) h = tt
submitted-IsSafe req b panic h = tt
submitted-IsSafe req b wild h = h

pub virtio_disk_req-IsSafe : (req : ℕ) (b : Bus) → IsSafe (virtio_disk_req req b)
unfolding virtio_disk_req submitted
virtio_disk_req-IsSafe req b = elim (Bool-cases (ltb req kstacktop)) [
  | inl z ↦ rw z tt
  | inr z ↦ rw z (
      let h : IsSafe (alloc_descs 3 [] b.disk) = alloc_descs-IsSafe 3 [] b.disk in
      submitted-IsSafe req b (alloc_descs 3 [] b.disk) h)
]

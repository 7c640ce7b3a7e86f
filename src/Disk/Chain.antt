-- ===== src/Disk/Chain.antt =====
-- A request and its completion: the chain that virtio_disk_req builds is the one that free_chain
-- gives back, and the interrupt handler catches up with the device.
use run_mos_on_risc_v.Prelude.{
  ℕ, ◌+◌, ◌-◌, ◌%◌, ◌^◌, ◌≤◌, ◌<◌, ◌≡◌, ◌≢◌, ◌⊎◌, refl, sym, ◌∙◌, Bool, true, false, [], ◌∷◌, inl,
  inr, arith, ◌==◌, if◌then◌else◌, le→ltb, ne→==, ==-refl, update, bit_or,
}
use run_mos_on_risc_v.Prelude.Bits.{test_bit, clear_bit, test_bit-clear_bit, test_bit-bit_or}
use run_mos_on_risc_v.Prelude.Proc.{ok, err, no_ring_desc}
use run_mos_on_risc_v.Mmu.{kstacktop}
use run_mos_on_risc_v.Disk.{
  Disk, Bus, alloc_3_desc, set_status, free_desc, free_chain, chained, virtio_disk_req,
  virtio_disk_intr, f_next, f_write,
}
use run_mos_on_risc_v.Disk.Bitmap.{
  with_bits, FewFree, cleared, free_desc_lem, clear_comm, set_bit-clear_bit, taken_ne,
  alloc_3_desc-TakenThree, clear_bit_self,
}

-- Three different descriptors taken from the bitmap w.
module _ (w i j k : ℕ) (ti : test_bit w i ≡ true) (tj : test_bit (clear_bit w i) j ≡ true)
    (tk : test_bit (clear_bit (clear_bit w i) j) k ≡ true) where
  i_ne_j : i ≢ j
  i_ne_j = (taken_ne w i j tj).0

  j_ne_k : j ≢ k
  j_ne_k = (taken_ne (clear_bit w i) j k tk).0

  i_ne_k : i ≢ k
  i_ne_k = (taken_ne w i k (taken_ne (clear_bit w i) j k tk).1).0

  clear_out : cleared w (i ∷ j ∷ k ∷ []) ≡ clear_bit (clear_bit (clear_bit w k) j) i
  clear_out = rw (clear_comm w i j, clear_comm (clear_bit w j) i k) (rw (clear_comm w j k))

  i_free : test_bit (clear_bit (clear_bit w k) j) i ≡ true
  i_free =
      rw (test_bit-clear_bit (clear_bit w k) j i, test_bit-clear_bit w k i)
        (ground (arith, i_ne_j, i_ne_k))

  j_free : test_bit (clear_bit w k) j ≡ true
  j_free = rw (test_bit-clear_bit w k j) (ground (arith, j_ne_k, (taken_ne w i j tj).1))

  k_free : test_bit w k ≡ true
  k_free = (taken_ne w i k (taken_ne (clear_bit w i) j k tk).1).1

  module _ (d : Disk) (hi : i < 32) (hj : j < 32) (hk : k < 32)
      (bits : d.desc_free_bitmap ≡ cleared w (i ∷ j ∷ k ∷ []))
      (more_i : test_bit (d.desc i).flags 0 ≡ true) (next_i : (d.desc i).next ≡ j)
      (more_j : test_bit (d.desc j).flags 0 ≡ true) (next_j : (d.desc j).next ≡ k)
      (last_k : test_bit (d.desc k).flags 0 ≡ false) where
    back_i : free_desc i d ≡ ok tt (with_bits d (clear_bit (clear_bit w k) j))
    back_i =
        let e = bits ∙ clear_out in
        free_desc_lem d i hi (rw e (clear_bit_self (clear_bit (clear_bit w k) j) i))
        ∙ rw (e, set_bit-clear_bit _ i i_free)

    back_j :
        free_desc j (with_bits d (clear_bit (clear_bit w k) j))
        ≡ ok tt (with_bits d (clear_bit w k))
    back_j =
        free_desc_lem (with_bits d (clear_bit (clear_bit w k) j)) j hj
          (clear_bit_self (clear_bit w k) j)
        ∙ rw (set_bit-clear_bit _ j j_free)

    back_k : free_desc k (with_bits d (clear_bit w k)) ≡ ok tt (with_bits d w)
    back_k =
        free_desc_lem (with_bits d (clear_bit w k)) k hk (clear_bit_self w k)
        ∙ rw (set_bit-clear_bit w k k_free)

    pub free_chain_three : free_chain i d ≡ ok tt (with_bits d w)
    unfolding free_chain
    free_chain_three = rw (back_i, more_i, next_i, back_j, more_j, next_j, back_k, last_k)

data_flags_next : (b : Bool) → test_bit (bit_or (if b then f_write else 0) f_next) 0 ≡ true
data_flags_next b = ground (arith, test_bit-bit_or (if b then f_write else 0) f_next 0)

-- The device reports the chain at `head` as used.
abbrev pub answered : Disk → ℕ → Disk
answered d head = record d {
  used_ring = update d.used_ring (d.used_idx % 32) head;
  device_idx = (d.used_idx + 1) % 0x1_0000;
}

-- The handler's state once it has read the interrupt status.
abbrev acked : Disk → Disk
acked d = record d {
  interrupt_ack = if d.interrupt_status == 0 then d.interrupt_ack else d.interrupt_status % 4;
}

pub intr_one :
    (d : Disk) (head w : ℕ)
    → d.used_idx < 0x1_0000
    → free_chain head (acked (answered d head)) ≡ ok tt (with_bits (acked (answered d head)) w)
    → virtio_disk_intr (answered d head)
      ≡ ok tt (record (with_bits (acked (answered d head)) w) {
        used_idx = (d.used_idx + 1) % 0x1_0000;
      })
unfolding virtio_disk_intr
intr_one d head w h e =
    let one : ((d.used_idx + 1) % 0x1_0000 + 0x1_0000 - d.used_idx) % 0x1_0000 ≡ 1 = omega arith in
    rw (one, ==-refl (d.used_idx % 32), e)

-- A request that was accepted: the chain is the one in the avail ring, and when the device has
-- answered it, the interrupt handler returns with every descriptor of it free again.
abbrev pub Accepted : ℕ → Bus → Type 0
Accepted req b =
    (b' : Bus) × (head : ℕ) × (virtio_disk_req req b ≡ ok tt b')
    × (b'.disk.avail_ring (b.disk.avail_idx % 32) ≡ head)
    × (b'.disk.avail_idx ≡ (b.disk.avail_idx + 1) % 0x1_0000)
    × (s : Disk) × (virtio_disk_intr (answered b'.disk head) ≡ ok tt s)
    × (s.desc_free_bitmap ≡ b.disk.desc_free_bitmap)
    × (s.used_idx ≡ s.device_idx)

module _ (req : ℕ) (b : Bus) (high : kstacktop ≤ req) (calm : b.disk.used_flags < 2)
    (small : b.disk.used_idx < 0x1_0000) where
  abbrev w₀ : ℕ
  w₀ = b.disk.desc_free_bitmap

  module _ (i j k : ℕ) (hi : i < 32) (hj : j < 32) (hk : k < 32) (ti : test_bit w₀ i ≡ true)
      (tj : test_bit (clear_bit w₀ i) j ≡ true)
      (tk : test_bit (clear_bit (clear_bit w₀ i) j) k ≡ true) where
    abbrev taken : Bus
    taken = record b { disk = with_bits b.disk (cleared w₀ (i ∷ j ∷ k ∷ [])) }

    abbrev sent : Disk
    sent = chained req i j k taken

    ki : (k == i) ≡ false
    ki = ne→== k i (λ p. i_ne_k w₀ i j k ti tj tk (sym p))

    kj : (k == j) ≡ false
    kj = ne→== k j (λ p. j_ne_k w₀ i j k ti tj tk (sym p))

    ji : (j == i) ≡ false
    ji = ne→== j i (λ p. i_ne_j w₀ i j k ti tj tk (sym p))

    completes :
        (d : Disk)
        → d.desc ≡ sent.desc
        → d.desc_free_bitmap ≡ sent.desc_free_bitmap
        → free_chain i d ≡ ok tt (with_bits d w₀)
    completes d e bits =
        free_chain_three w₀ i j k ti tj tk d hi hj hk bits (rw (e, ki, ji, ==-refl i))
          (rw (e, ki, ji, ==-refl i))
          (rw (e, kj, ==-refl j) (data_flags_next (b.word (req + 4) % 256 == 0)))
          (rw (e, kj, ==-refl j)) (rw (e, ==-refl k))

    ring_head : sent.avail_ring (b.disk.avail_idx % 32) ≡ i
    ring_head = rw (==-refl (b.disk.avail_idx % 32))

    abbrev queued : ℕ → Disk
    queued n = record sent { notified = n }

    abbrev settled : ℕ → Disk
    settled n = record (with_bits (acked (answered (queued n) i)) w₀) {
      used_idx = (b.disk.used_idx + 1) % 0x1_0000;
    }

    intr_settled : (n : ℕ) → virtio_disk_intr (answered (queued n) i) ≡ ok tt (settled n)
    intr_settled n =
        intr_one (queued n) i w₀ small (completes (acked (answered (queued n) i)) refl refl)

    req_queued :
        (n : ℕ)
        → virtio_disk_req req b
          ≡ ok tt (record { disk = queued n; word = set_status req 0xff b.word })
        → Accepted req b
    req_queued n e = (
      record { disk = queued n; word = set_status req 0xff b.word },
      i,
      e,
      ring_head,
      refl,
      settled n,
      intr_settled n,
      refl,
      refl,
    )

    accepted :
        alloc_3_desc b.disk ≡ ok (i ∷ j ∷ k ∷ []) taken.disk
        → (b.disk.used_flags ≡ 0) ⊎ (b.disk.used_flags ≡ 1)
        → Accepted req b
    unfolding virtio_disk_req
    accepted e (inl f) = req_queued (b.disk.notified + 1) (rw (le→ltb req kstacktop high, e, f))
    accepted e (inr f) = req_queued b.disk.notified (rw (le→ltb req kstacktop high, e, f))

  refused :
      alloc_3_desc b.disk ≡ err no_ring_desc b.disk → virtio_disk_req req b ≡ err no_ring_desc b
  unfolding virtio_disk_req
  refused e = rw (le→ltb req kstacktop high, e)

-- On a driver whose bitmap has 32 bits, whose index has sixteen and whose device has set no other flag
-- than the one that asks for silence, a request above the kernel stack is refused, with nothing
-- changed, only if fewer than three descriptors are free; otherwise it is queued. Then the head of
-- its chain is in the avail ring, and once the device has answered it the interrupt handler returns
-- with the bitmap of free descriptors as it was before the request and no entry left to do.
pub virtio_disk_req-Accepted :
    (req : ℕ) (b : Bus)
    → kstacktop ≤ req
    → b.disk.used_flags < 2
    → b.disk.used_idx < 0x1_0000
    → b.disk.desc_free_bitmap < 2 ^ 32
    → ((virtio_disk_req req b ≡ err no_ring_desc b) × FewFree b.disk.desc_free_bitmap)
      ⊎ Accepted req b
virtio_disk_req-Accepted req b high calm small bound = elim (alloc_3_desc-TakenThree b.disk bound) [
  | inl (e, few) ↦ inl (refused req b high calm small e, few)
  | inr (i, j, k, hi, hj, hk, ti, tj, tk, e) ↦
      inr (accepted req b high calm small i j k hi hj hk ti tj tk e (omega arith))
]

-- ===== src/Disk.antt =====
-- kern/disk_driver.c: the descriptors of the virtio block device, requests and their completion.
-- The structures of include/drivers/virtio_ring.h that driver and device share are fields of one
-- record; what the device writes (used->idx, used->ring, used->flags, the interrupt status) is read
-- from it. The request lies in physical memory, so a call works on the driver and the memory.
pub mod Safe
pub mod Bitmap
pub mod Chain
use run_mos_on_risc_v.Prelude.{
  ℕ, zero, suc, ◌+◌, ◌-◌, ◌*◌, ◌/◌, ◌%◌, bit_or, bit_and, Bool, true, false, not, Option, none,
  some, List, [], ◌∷◌, ◌++◌, ltb, leb, ◌==◌, if◌then◌else◌, update,
}
use run_mos_on_risc_v.Prelude.Bits.{test_bit, set_bit, clear_bit}
use run_mos_on_risc_v.Prelude.Proc.{
  Run, ok, err, panic, left, wild, Proc, pure, fail, stop, assert, get, modify, ◌>>=◌, ◌>>◌, Error,
  inval, no_ring_desc,
}
use run_mos_on_risc_v.Mmu.{kstacktop}

-- VIRTIO_QUEUE_NUM
abbrev pub queue_num : ℕ
queue_num = 32

-- struct vring_desc
pub record Desc : Type 0 where
  pub addr : ℕ
  pub len : ℕ
  pub flags : ℕ
  pub next : ℕ

-- struct virtio_blk_outhdr
pub record Outhdr : Type 0 where
  pub type : ℕ
  pub ioprio : ℕ
  pub sector : ℕ

-- struct vring, with the device's registers that a request or an interrupt touches.
pub record Disk : Type 0 where
  pub desc : ℕ → Desc
  pub avail_ring : ℕ → ℕ
  pub avail_idx : ℕ
  pub used_flags : ℕ
  pub device_idx : ℕ  -- used->idx, which the device advances
  pub used_ring : ℕ → ℕ  -- used->ring[_].id
  pub desc_free_bitmap : ℕ
  pub outhdr : ℕ → Outhdr
  pub outhdr_addr : ℕ  -- the address of outhdr[0]
  pub used_idx : ℕ
  pub interrupt_status : ℕ
  pub interrupt_ack : ℕ
  pub notified : ℕ  -- how often the register QUEUE_NOTIFY was written

-- The driver together with physical memory.
pub record Bus : Type 0 where
  pub disk : Disk
  pub word : ℕ → ℕ

-- for (i = i; i < i + n; i++) if (bitmap & (1 << i)) return i
pub find_bit : ℕ → ℕ → ℕ → Option ℕ
find_bit zero i w = none
find_bit (suc n) i w = let rest = find_bit n (i + 1) w in if test_bit w i then some i else rest

take_desc : Option ℕ → Proc Disk ℕ
take_desc none d = panic
take_desc (some i) d = ok i (record d { desc_free_bitmap = clear_bit d.desc_free_bitmap i })

unfoldable pub alloc_desc : Proc Disk ℕ
unfolding find_bit take_desc
alloc_desc d =
    if d.desc_free_bitmap == 0
    then err no_ring_desc d
    else take_desc (find_bit queue_num 0 d.desc_free_bitmap) d

unfoldable pub free_desc : ℕ → Proc Disk (Unit {0})
free_desc idx = do
  assert (ltb idx queue_num)
  bitmap ← get (λ (d : Disk). d.desc_free_bitmap)
  assert (not (test_bit bitmap idx))
  modify (λ d. record d { desc_free_bitmap = set_bit d.desc_free_bitmap idx })

-- The inner loop of alloc_3_desc, which gives back what was taken.
pub free_all : List ℕ → Proc Disk (Unit {0})
unfolding free_desc
free_all [] = pure tt
free_all (i ∷ is) = do free_desc i; free_all is

-- What follows a call of alloc_desc in alloc_3_desc: on an error the descriptors taken go back.
abbrev pub or_free : Run Disk ℕ → List ℕ → (ℕ → Proc Disk (List ℕ)) → Run Disk (List ℕ)
or_free (ok i d) got k = k i d
or_free (err e d) got k = (do free_all got; fail e) d
or_free (left d) got k = left d
or_free panic got k = panic
or_free wild got k = wild

-- alloc_3_desc, with n descriptors still to take behind those in `got`.
pub alloc_descs : ℕ → List ℕ → Proc Disk (List ℕ)
unfolding alloc_desc free_all
alloc_descs zero got d = ok got d
alloc_descs (suc n) got d = or_free (alloc_desc d) got (λ i. alloc_descs n (got ++ i ∷ []))

unfoldable pub alloc_3_desc : Proc Disk (List ℕ)
unfolding alloc_descs
alloc_3_desc = alloc_descs 3 []

-- VRING_DESC_F_NEXT and VRING_DESC_F_WRITE
abbrev pub f_next : ℕ
f_next = 1

abbrev pub f_write : ℕ
f_write = 2

-- free_chain on fuel. Each round sets a bit that was clear, so a chain of more than queue_num
-- descriptors ends in the panic of free_desc, and queue_num + 1 rounds are enough.
pub chain_loop : ℕ → ℕ → Proc Disk (Unit {0})
unfolding free_desc
chain_loop zero idx = stop
chain_loop (suc n) idx = do
  last ← get (λ (d : Disk). d.desc idx)
  free_desc idx
  if test_bit last.flags 0 then chain_loop n last.next else pure tt

unfoldable pub free_chain : ℕ → Proc Disk (Unit {0})
unfolding chain_loop
free_chain = chain_loop 33

-- struct virtio_blk_req: sector at 0, write at 4, status at 5, buf at 6.
abbrev pub req_write : (ℕ → ℕ) → ℕ → ℕ
req_write word req = word (req + 4) % 256

-- req->status = v, a byte of the second word
abbrev pub set_status : ℕ → ℕ → (ℕ → ℕ) → ℕ → ℕ
set_status req v word =
    update word (req + 4) (word (req + 4) / 65536 * 65536 + v * 256 + word (req + 4) % 256)

-- The three descriptors of a request, the entry in the avail ring, and its index.
abbrev pub chained : ℕ → ℕ → ℕ → ℕ → Bus → Disk
chained req i0 i1 i2 b = record d {
  outhdr = update d.outhdr i0 header;
  desc =
      update
        (update
          (update d.desc i0
            (record { addr = d.outhdr_addr + 16 * i0; len = 16; flags = f_next; next = i1 }))
          i1 (record { addr = req + 6; len = 512; flags = bit_or data_flags f_next; next = i2 }))
        i2 (record { addr = req + 5; len = 1; flags = f_write; next = 0 });
  avail_ring = update d.avail_ring (d.avail_idx % queue_num) i0;
  avail_idx = (d.avail_idx + 1) % 0x1_0000;
}
  where
    open b use {disk as d, word}

    reading : Bool
    reading = req_write word req == 0

    header : Outhdr
    header = record { type = if reading then 0 else 1; ioprio = 0; sector = word req }

    data_flags : ℕ
    data_flags = if reading then f_write else 0

-- *R(VIRTIO_MMIO_QUEUE_NOTIFY) = 0, unless the device asked for silence.
notify : Proc Disk (Unit {0})
notify d =
    if d.used_flags == 0
    then ok tt (record d { notified = d.notified + 1 })
    else (if d.used_flags == 1 then ok tt d else panic)

-- virtio_disk_req behind alloc_3_desc
submit : ℕ → List ℕ → Proc Bus (Unit {0})
unfolding notify
submit req (i0 ∷ i1 ∷ i2 ∷ []) b = elim (notify (chained req i0 i1 i2 b)) [
  | ok u d ↦ ok u (record { disk = d; word = set_status req 0xff b.word })
  | _ ↦ panic
]
submit req _ b = panic

unfoldable pub virtio_disk_req : ℕ → Proc Bus (Unit {0})
unfolding alloc_3_desc submit
virtio_disk_req req b = if ltb req kstacktop then err inval b else (elim (alloc_3_desc b.disk) [
  | ok idx d ↦ submit req idx (record b { disk = d })
  | err e d ↦ err e (record b { disk = d })
  | left d ↦ left (record b { disk = d })
  | panic ↦ panic
  | wild ↦ wild
])

-- The loop of virtio_disk_intr, with n entries of the used ring to go.
pub used_loop : ℕ → Proc Disk (Unit {0})
unfolding free_chain
used_loop zero = pure tt
used_loop (suc n) = do
  id ← get (λ (d : Disk). d.used_ring (d.used_idx % queue_num))
  free_chain id
  modify (λ d. record d { used_idx = (d.used_idx + 1) % 0x1_0000 })
  used_loop n

-- used_idx counts in sixteen bits up to used->idx.
abbrev pub pending : Disk → ℕ
pending d = (d.device_idx + 0x1_0000 - d.used_idx) % 0x1_0000

unfoldable pub virtio_disk_intr : Proc Disk (Unit {0})
unfolding used_loop
virtio_disk_intr = do
  modify (λ d. record d {
    interrupt_ack = if d.interrupt_status == 0 then d.interrupt_ack else d.interrupt_status % 4;
  })
  n ← get pending
  used_loop n

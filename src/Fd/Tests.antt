-- ===== src/Fd/Tests.antt =====
-- user/lib/fd.c: runs on a small table, and the theorems at concrete inputs.
use run_mos_on_risc_v.Prelude.{ℕ, ◌≡◌, refl, true, [], ◌∷◌, arith, ◌==◌, if◌then◌else◌}
use run_mos_on_risc_v.Prelude.Proc.{Run, ok, err, left, panic, wild, inval}
use run_mos_on_risc_v.Fd.{Space, index2fd, descriptor, fd_alloc}
use run_mos_on_risc_v.Fd.Device.{Dev, readn, seek, dup}
use run_mos_on_risc_v.Fd.Table.{Allotted, fd_alloc-Allotted}
use run_mos_on_risc_v.Fd.Seek.{dup-seek}

-- A device that gives what is asked for up to the offset 10.
abbrev ten : Dev
ten = record {
  id = b't';
  read = λ fd buf n offset s. ok (if offset == 9 then 1 else if offset == 10 then 0 else n) s;
  write = λ fd buf n offset. err inval;
  close = λ fd. ok 0;
}

-- The descriptor 0 is open at the offset 5, in the frame 70.
abbrev space : Space
space = record {
  vpd = λ i. i == 383;
  vpt = λ p. record { valid = p == 0x5_fc00; frame = 70; flags = 0x204 };
  fds = λ f. record { dev_id = b't'; offset = 5; omode = 0 };
  answers = true ∷ [];
}

abbrev state_of {ℓ} : {A : Type ℓ} → Run Space A → Space
state_of (ok a s) = s
state_of (err e s) = s
state_of (left s) = s
state_of panic = space
state_of wild = space

fd_alloc-Allotted_example : Allotted space (fd_alloc space)
fd_alloc-Allotted_example = fd_alloc-Allotted space

abbrev with_dup : Space
with_dup = state_of (dup (ten ∷ []) 0 1 space)

with_dup_lem : dup (ten ∷ []) 0 1 space ≡ ok 1 with_dup
unfolding dup
with_dup_lem = refl

dup-seek_example :
    (◌≡◌ {A = ℕ} 1 1)
    × ((u : Space) × (seek 1 8 with_dup ≡ ok tt u)
        × (descriptor (index2fd 0) u ≡ record (descriptor (index2fd 0) with_dup) { offset = 8 }))
dup-seek_example =
    dup-seek (ten ∷ []) 0 1 1 8 space with_dup (omega arith) (omega arith) (omega arith)
      with_dup_lem

-- readn asks again until it has the four characters.
readn_lem : readn (ten ∷ []) 0 0x2000 4 space ≡ ok 4 (state_of (readn (ten ∷ []) 0 0x2000 4 space))
unfolding readn
readn_lem = refl

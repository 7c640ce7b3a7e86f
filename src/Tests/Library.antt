-- ===== src/Tests/Library.antt =====
-- Runs of lib/string.c, lib/elfloader.c and user/lib/pipe.c on small memories.
use run_mos_on_risc_v.Prelude.{
  ℕ, ◌+◌, ◌<◌, inl, inr, ◌≡◌, refl, Bool, false, some, [], arith, ◌==◌, if◌then◌else◌,
}
use run_mos_on_risc_v.Prelude.Proc.{ok}
use run_mos_on_risc_v.Bytes.{copy_bytes}
use run_mos_on_risc_v.Elf.{Phdr, elf_load_seg}
use run_mos_on_risc_v.Elf.Pages.{Image, place}
use run_mos_on_risc_v.Elf.Segment.{IsLoaded, elf_load_seg-IsLoaded}
use run_mos_on_risc_v.Pipe.{Ring, End, Moment, is_closed, pipe_read, pipe_write}
use run_mos_on_risc_v.Pipe.Closed.{IsSteady, IsSnapshot, is_closed-IsSnapshot}
use run_mos_on_risc_v.Pipe.Queue.{IsPipe, with_chars, chars_at}
use run_mos_on_risc_v.Pipe.Fifo.{pipe_write-pipe_read}
use run_mos_on_risc_v.Str.{memcpy}
use run_mos_on_risc_v.Str.Copy.{memcpy_lem}

-- The text "ab" at 0x1000.
abbrev ab : ℕ → ℕ
ab a = if a == 0x1000 then b'a' else if a == 0x1001 then b'b' else 0

ab-bytes : (a : ℕ) → ab a < 256
ab-bytes a = ground arith

memcpy_lem_example :
    memcpy 0x2002 0x1002 9 ab ≡ some (copy_bytes 0x2002 9 (λ j. ab (0x1002 + j)) ab)
memcpy_lem_example =
    memcpy_lem ab 0x2002 0x1002 9 ab-bytes (omega arith) (omega arith) (inl (omega arith))

-- A pipe that is empty at position 30, so that what is written goes around the end of the ring.
abbrev ring : Ring
ring = record { rpos = 30; wpos = 30; buf = λ _. 0 }

abbrev writer : End
writer = record { ring = ring; mem = ab }

ring-IsPipe : IsPipe ring []
ring-IsPipe = record { chars = refl; few = omega arith; low = omega arith }

pipe_write-pipe_read_example :
    (t : End) × (u : End) × (pipe_write (λ s. s) (λ s. false) 0 0x1000 3 writer ≡ some (3, t))
    × (pipe_read (λ s. s) (λ s. false) 0 0x2000 3 (record { ring = t.ring; mem = ab })
        ≡ some (3, u))
    × (u.mem ≡ with_chars 0x2000 (chars_at ab 0x1000 3) ab)
    × IsPipe u.ring []
pipe_write-pipe_read_example =
    pipe_write-pipe_read (λ s. s) (λ s. s) (λ s. false) (λ s. false) 0 0 0x1000 0x2000 3 writer ab
      ring-IsPipe (omega arith) (omega arith)

-- Another environment runs between the first and the second access, and closes its end.
abbrev moments : ℕ → Moment
moments t =
    if t == 0
    then record { runs = 5; fd_ref = 1; pipe_ref = 2 }
    else record { runs = 6; fd_ref = 1; pipe_ref = 1 }

moments-IsSteady : IsSteady moments
moments-IsSteady t j e l = (ground arith, ground arith)

is_closed-IsSnapshot_example :
    (b : Bool) × (u : ℕ) × (is_closed 2 moments 0 ≡ some (b, u)) × IsSnapshot moments 0 b u
is_closed-IsSnapshot_example =
    is_closed-IsSnapshot moments 0 1 2 moments-IsSteady refl (omega arith)

-- A segment that starts within a page, and ends behind its part in the file.
abbrev text : Phdr
text = record { vaddr = 0x40_0010; filesz = 5000; memsz = 9000; flags = 5 }

abbrev blank : Image
blank = record { mapped = λ _. false; byte = λ _. 0 }

elf_load_seg-IsLoaded_example :
    (m' : Image) × (elf_load_seg (place (λ a. a)) text 0x100 blank ≡ ok tt m')
    × IsLoaded (λ a. a) text 0x100 m'
elf_load_seg-IsLoaded_example =
    elf_load_seg-IsLoaded (λ a. a) text 0x100 blank (omega arith) (omega arith) (inr (omega arith))

-- ===== src/Fd.antt =====
-- user/lib/fd.c with user/include/fd.h: the file descriptors of an environment. A descriptor is a page
-- of its own, a `struct Fd` in the frame that the page is mapped to: two descriptors that dup made
-- share the frame. The devices are parameters.
pub mod Device
pub mod Table
pub mod Keeps
pub mod Share
pub mod Close
pub mod Dup
pub mod Seek
pub mod Undo
pub mod Tests
use run_mos_on_risc_v.Prelude.{
  ℕ, zero, suc, ◌+◌, ◌-◌, ◌*◌, ◌/◌, ◌%◌, Bool, true, false, ◌&&◌, ◌||◌, not, Option, none, some,
  List, [], ◌∷◌, bit_and, ltb, leb, ◌==◌, if◌then◌else◌, update,
}
use run_mos_on_risc_v.Prelude.Proc.{
  Run, ok, err, left, panic, wild, Proc, pure, fail, get, modify, ignored, ◌>>=◌, ◌>>◌, Error,
  inval, max_open, no_mem,
}
use run_mos_on_risc_v.Mmu.{word_mod, by2pg, pdmap}
use run_mos_on_risc_v.Syscall.{is_illegal_va}

-- A page table entry, by its parts.
pub record Entry : Type 0 where
  pub valid : Bool
  pub frame : ℕ
  pub flags : ℕ

-- struct Fd
pub record Descriptor : Type 0 where
  pub dev_id : ℕ
  pub offset : ℕ
  pub omode : ℕ

-- The tables at vpd and vpt, by directory index and page number; the descriptors by frame; and the
-- kernel's answers to the calls of syscall_mem_map to come (when they run out there is no memory).
pub record Space : Type 0 where
  pub vpd : ℕ → Bool
  pub vpt : ℕ → Entry
  pub fds : ℕ → Descriptor
  pub answers : List Bool

-- MAXFD, FDTABLE and FILEBASE
abbrev pub maxfd : ℕ
maxfd = 32

abbrev pub filebase : ℕ
filebase = 0x6000_0000

abbrev pub fdtable : ℕ
fdtable = 0x5fc0_0000

-- INDEX2FD and INDEX2DATA, on 32 bits
abbrev pub index2fd : ℕ → ℕ
index2fd i = (fdtable + i * by2pg) % word_mod

abbrev pub index2data : ℕ → ℕ
index2data i = (filebase + i * pdmap) % word_mod

unfoldable pub fd2num : ℕ → ℕ
fd2num fd = (fd + word_mod - fdtable) % word_mod / by2pg

unfoldable pub num2fd : ℕ → ℕ
num2fd fd = (fd * by2pg + fdtable) % word_mod

unfoldable pub fd2data : ℕ → ℕ
unfolding fd2num
fd2data fd = index2data (fd2num fd)

-- vpd[va / PDMAP] & PTE_V, and vpt[va / BY2PG] & PTE_V
abbrev pub has_table : ℕ → Space → Bool
has_table va s = s.vpd (va / pdmap)

abbrev pub entry_of : ℕ → Space → Entry
entry_of va s = s.vpt (va / by2pg)

abbrev pub is_mapped : ℕ → Space → Bool
is_mapped va s = has_table va s && (entry_of va s).valid

-- The loop of fd_alloc over n numbers from fdno.
unfoldable pub find_fd : ℕ → ℕ → Proc Space ℕ
find_fd zero fdno = fail max_open
find_fd (suc n) fdno = do
  let va = index2fd fdno
  table ← get (has_table va)
  entry ← get (entry_of va)
  if not table then pure va else if not entry.valid then pure va else find_fd n (fdno + 1)

unfoldable pub fd_alloc : Proc Space ℕ
unfolding find_fd
fd_alloc = find_fd (maxfd - 1) 0

-- fdnum >= MAXFD on ints, which a negative number passes.
abbrev pub is_large : ℕ → Bool
is_large fdnum = leb maxfd fdnum && ltb fdnum 0x8000_0000

unfoldable pub fd_lookup : ℕ → Proc Space ℕ
fd_lookup fdnum = if is_large fdnum then fail inval else (do
  let va = index2fd fdnum
  mapped ← get (is_mapped va)
  if mapped then pure va else fail inval)

-- *fd, and a write of its offset
abbrev pub descriptor : ℕ → Space → Descriptor
descriptor fd s = s.fds (entry_of fd s).frame

unfoldable pub set_offset : ℕ → ℕ → Proc Space (Unit {0})
set_offset fd offset s =
    let frame = (entry_of fd s).frame in
    ok tt (record s { fds = update s.fds frame (record (s.fds frame) { offset = offset }) })

-- syscall_mem_unmap(0, va)
unfoldable pub unmap_va : ℕ → Proc Space (Unit {0})
unmap_va va s =
    if is_illegal_va va
    then err inval s
    else ok tt (record s {
      vpt = update s.vpt (va / by2pg) (record { valid = false; frame = 0; flags = 0 });
    })

unfoldable pub fd_close : ℕ → Proc Space (Unit {0})
unfolding unmap_va
fd_close fd s = ignored (unmap_va fd s)

-- The entry of src at dst, with some of its flags.
abbrev pub shared : ℕ → ℕ → Space → Space
shared src dst s = record s {
  vpd = update s.vpd (dst / pdmap) true;
  vpt =
      update s.vpt (dst / by2pg)
        (record (entry_of src s) { flags = bit_and (entry_of src s).flags 0x204 });
}

answer : ℕ → ℕ → List Bool → Proc Space (Unit {0})
answer src dst [] s = err no_mem s
answer src dst (true ∷ rest) s = ok tt (shared src dst (record s { answers = rest }))
answer src dst (false ∷ rest) s = err no_mem (record s { answers = rest })

-- syscall_mem_map(0, src, 0, dst, vpt[VPN(src)] & (PTE_W | PTE_LIBRARY))
unfoldable pub map_va : ℕ → ℕ → Proc Space (Unit {0})
unfolding answer
map_va src dst s =
    if is_illegal_va src || (is_illegal_va dst || not (is_mapped src s))
    then err inval s
    else answer src dst s.answers s

-- ===== src/Serve.antt =====
-- fs/serv.c with pageref of user/lib/pageref.c and fs/serv.h: the table of open files and the requests
-- of clients, over the file system of Fs. ipc_send is a record of what is sent; how many environments
-- have a page mapped is part of the state, which clients change between two requests.
pub mod Requests
pub mod Table
pub mod Answers
pub mod Lookup
pub mod Open
pub mod Rounds
pub mod Tests
use run_mos_on_risc_v.Prelude.{
  ℕ, zero, suc, ◌+◌, ◌-◌, ◌*◌, ◌/◌, ◌%◌, Bool, true, false, ◌||◌, not, List, [], ◌∷◌, ◌++◌, ltb,
  leb, ◌==◌, if◌then◌else◌, update,
}
use run_mos_on_risc_v.Prelude.Proc.{
  Run, ok, err, left, panic, wild, Proc, pure, fail, get, modify, embed, ignored, ◌>>=◌, ◌>>◌,
  Error, inval, max_open,
}
use run_mos_on_risc_v.Bytes.{copy_bytes, store_word}
use run_mos_on_risc_v.Mmu.{word_mod, by2pg}
use run_mos_on_risc_v.Fs.Cache.{Server, vpn, by2blk, mem_alloc, mem_unmap}
use run_mos_on_risc_v.Fs.File.{file_get_block, file_set_size, file_close, file_dirty, fs_sync}
use run_mos_on_risc_v.Fs.Path.{by2file, file_open, file_remove}

-- The value of an answer: 0, an error, or a file id that is negative as an int.
pub data Answer : Type 0 where
  success : Answer
  failure : Error → Answer
  negative : ℕ → Answer

-- ipc_send(to, value, srcva, perm); srcva is 0 where no page is sent.
pub record Reply : Type 0 where
  pub to : ℕ
  pub value : Answer
  pub srcva : ℕ

-- opentab, field by field, with the file system, the reference counts of the pages (by page of the
-- server's address space), and the answers sent so far.
pub record Service : Type 0 where
  pub fs : Server
  pub file : ℕ → ℕ
  pub fileid : ℕ → ℕ
  pub mode : ℕ → ℕ
  pub ff : ℕ → ℕ
  pub refs : ℕ → ℕ
  pub replies : List Reply

-- MAXOPEN, FILEVA and REQVA
abbrev pub maxopen : ℕ
maxopen = 1024

abbrev pub fileva : ℕ
fileva = 0x6000_0000

abbrev pub reqva : ℕ
reqva = 0x0fff_f000

-- A procedure of the file system.
abbrev pub on_fs {ℓ} : {A : Type ℓ} → Proc Server A → Proc Service A
on_fs m s = embed (λ u t. record u { fs = t }) s (m s.fs)

unfoldable pub ipc_send : ℕ → Answer → ℕ → Proc Service (Unit {0})
ipc_send to value srcva s =
    ok tt
      (record s { replies = s.replies ++ record { to = to; value = value; srcva = srcva } ∷ [] })

unfoldable pub pageref : ℕ → Service → ℕ
pageref va s = if s.fs.mapped (vpn va) then s.refs (vpn va) else 0

-- The loop of serve_init over n entries from i.
unfoldable pub init_entries : ℕ → ℕ → ℕ → Service → Service
init_entries zero i va s = s
init_entries (suc n) i va s =
    init_entries n (i + 1) (va + by2pg)
      (record s { fileid = update s.fileid i i; ff = update s.ff i va })

unfoldable pub serve_init : Proc Service (Unit {0})
unfolding init_entries
serve_init = modify (init_entries maxopen 0 fileva)

-- memset of the page at va
abbrev pub clear_page : ℕ → Server → Server
clear_page va t = record t {
  mem = copy_bytes va by2pg (λ _. 0) t.mem;
  dirty = update t.dirty (vpn va) true;
}

-- case 1 of open_alloc, into which case 0 falls through. The number of the entry stands for *o.
unfoldable pub take_entry : ℕ → Proc Service ℕ
take_entry i s = ok i (record s {
  fileid = update s.fileid i ((s.fileid i + maxopen) % word_mod);
  fs = clear_page (s.ff i) s.fs;
})

-- case 0: a page for the descriptor, which only the server has.
unfoldable pub new_page : ℕ → Proc Service (Unit {0})
unfolding mem_alloc
new_page i = do
  va ← get (λ (s : Service). s.ff i)
  on_fs (mem_alloc va)
  modify (λ s. record s { refs = update s.refs (vpn va) 1 })

-- The loop of open_alloc over n entries from i.
unfoldable pub find_open : ℕ → ℕ → Proc Service ℕ
unfolding pageref new_page take_entry
find_open zero i = fail max_open
find_open (suc n) i = do
  refs ← get (λ (s : Service). pageref (s.ff i) s)
  if refs == 0
      then (do new_page i; take_entry i)
      else if refs == 1
      then take_entry i
      else find_open n (i + 1)

unfoldable pub open_alloc : Proc Service ℕ
unfolding find_open
open_alloc = find_open maxopen 0

-- open_lookup, with the number of the entry for *po.
unfoldable pub open_lookup : ℕ → Proc Service ℕ
unfolding pageref
open_lookup fileid = do
  let i = fileid % maxopen
  refs ← get (λ (s : Service). pageref (s.ff i) s)
  id ← get (λ (s : Service). s.fileid i)
  if refs == 1 || not (id == fileid) then fail inval else pure i

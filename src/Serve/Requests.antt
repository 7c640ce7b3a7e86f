-- ===== src/Serve/Requests.antt =====
-- fs/serv.c: the requests, and the loop that receives them.
use run_mos_on_risc_v.Prelude.{ℕ, ◌+◌, ◌/◌, Bool, true, ◌&&◌, List, leb, if◌then◌else◌, update}
use run_mos_on_risc_v.Prelude.Proc.{
  Run, ok, err, left, panic, wild, Proc, pure, modify, ignored, ◌>>◌,
}
use run_mos_on_risc_v.Bytes.{copy_bytes, store_word}
use run_mos_on_risc_v.Fs.Cache.{Server, vpn, by2blk, mem_unmap}
use run_mos_on_risc_v.Fs.File.{file_get_block, file_set_size, file_close, file_dirty, fs_sync}
use run_mos_on_risc_v.Fs.Path.{by2file, file_open, file_remove}
use run_mos_on_risc_v.Serve.{
  Service, success, failure, negative, on_fs, ipc_send, open_alloc, open_lookup, reqva,
}

-- if ((r = ...) < 0) { ipc_send(envid, r, 0, 0); return; }
unfoldable pub or_reply {ℓ} :
    {A : Type ℓ} → ℕ → Run Service A → (A → Proc Service (Unit {0})) → Run Service (Unit {0})
unfolding ipc_send
or_reply envid (ok a s) k = k a s
or_reply envid (err e s) k = ipc_send envid (failure e) 0 s
or_reply envid (left s) k = left s
or_reply envid panic k = panic
or_reply envid wild k = wild

-- The page of struct Filefd: the descriptor with its device and mode, the file id, and the file.
abbrev pub dev_id : ℕ
dev_id = b'f'

abbrev pub filefd : ℕ → ℕ → ℕ → ℕ → Server → Server
filefd va f fileid mode t = record t {
  mem = store_word va dev_id (
      store_word (va + 8) mode
        (store_word (va + 12) fileid (copy_bytes (va + 16) by2file (λ j. t.mem (f + j)) t.mem)));
  dirty = update t.dirty (vpn va) true;
}

-- What serve_open does with the entry of the open file.
unfoldable pub fill_open : ℕ → ℕ → ℕ → ℕ → Proc Service (Unit {0})
unfolding ipc_send
fill_open envid i omode f s =
    if s.fs.mapped (vpn (s.ff i)) && s.fs.mapped (vpn f)
    then ipc_send envid success (s.ff i) (record s {
      file = update s.file i f;
      mode = update s.mode i omode;
      fs = filefd (s.ff i) f (s.fileid i) omode s.fs;
    })
    else wild

unfoldable pub open_entry : ℕ → ℕ → ℕ → List ℕ → Proc Service (Unit {0})
unfolding or_reply file_open fill_open
open_entry envid i omode path s =
    or_reply envid (on_fs (file_open path) s) (fill_open envid i omode)

-- An int below zero.
abbrev pub is_negative : ℕ → Bool
is_negative r = leb 0x8000_0000 r

-- serve_open behind open_alloc. There is no return after the answer to its error: the file is looked
-- up all the same, and `o` is a pointer that was never set.
unfoldable pub opened : ℕ → ℕ → List ℕ → Run Service ℕ → Run Service (Unit {0})
unfolding open_entry ipc_send or_reply file_open
opened envid omode path (ok i s) =
    if is_negative (s.fileid i)
    then (do ipc_send envid (negative (s.fileid i)) 0; open_entry envid i omode path) s
    else open_entry envid i omode path s
opened envid omode path (err e s) =
    (do
      ipc_send envid (failure e) 0
      (λ t. or_reply envid (on_fs (file_open path) t) (λ f u. wild)))
      s
opened envid omode path (left s) = left s
opened envid omode path panic = panic
opened envid omode path wild = wild

unfoldable pub serve_open : ℕ → ℕ → List ℕ → Proc Service (Unit {0})
unfolding open_alloc opened
serve_open envid omode path s = opened envid omode path (open_alloc s)

unfoldable pub serve_map : ℕ → ℕ → ℕ → Proc Service (Unit {0})
unfolding or_reply open_lookup file_get_block ipc_send
serve_map envid fileid offset s = or_reply envid (open_lookup fileid s) λ i t.
    or_reply envid (on_fs (file_get_block (t.file i) (offset / by2blk)) t)
      λ blk. ipc_send envid success blk

unfoldable pub serve_set_size : ℕ → ℕ → ℕ → Proc Service (Unit {0})
unfolding or_reply open_lookup file_set_size ipc_send
serve_set_size envid fileid size s =
    or_reply envid (open_lookup fileid s)
      λ i t. or_reply envid (on_fs (file_set_size (t.file i) size) t) λ _. ipc_send envid success 0

unfoldable pub serve_close : ℕ → ℕ → Proc Service (Unit {0})
unfolding or_reply open_lookup file_close ipc_send
serve_close envid fileid s =
    or_reply envid (open_lookup fileid s) λ i t.
      or_reply envid (ignored (on_fs (file_close (t.file i)) t)) λ _. ipc_send envid success 0

-- ipc_send(envid, file_remove(rq->req_path), NULL, 0)
unfoldable pub serve_remove : ℕ → List ℕ → Proc Service (Unit {0})
unfolding or_reply file_remove ipc_send
serve_remove envid path s =
    or_reply envid (on_fs (file_remove path) s) λ _. ipc_send envid success 0

unfoldable pub serve_dirty : ℕ → ℕ → ℕ → Proc Service (Unit {0})
unfolding or_reply open_lookup file_dirty ipc_send
serve_dirty envid fileid offset s =
    or_reply envid (open_lookup fileid s)
      λ i t. or_reply envid (on_fs (file_dirty (t.file i) offset) t) λ _. ipc_send envid success 0

unfoldable pub serve_sync : ℕ → Proc Service (Unit {0})
unfolding fs_sync ipc_send
serve_sync envid = do (λ s. ignored (on_fs fs_sync s)); ipc_send envid success 0

-- The number of a request with what its page holds.
pub data Request : Type 0 where
  open_file : List ℕ → ℕ → Request
  map_block set_size : ℕ → ℕ → Request
  close_file : ℕ → Request
  set_dirty : ℕ → ℕ → Request
  remove_file : List ℕ → Request
  sync_all : Request
  invalid : ℕ → Request

-- The switch of serve.
unfoldable pub handle_request : ℕ → Request → Proc Service (Unit {0})
unfolding serve_open serve_map serve_set_size serve_close serve_remove serve_dirty serve_sync
handle_request whom (open_file path omode) = serve_open whom omode path
handle_request whom (map_block fileid offset) = serve_map whom fileid offset
handle_request whom (set_size fileid size) = serve_set_size whom fileid size
handle_request whom (close_file fileid) = serve_close whom fileid
handle_request whom (set_dirty fileid offset) = serve_dirty whom fileid offset
handle_request whom (remove_file path) = serve_remove whom path
handle_request whom sync_all = serve_sync whom
handle_request whom (invalid req) = pure tt

-- A message to the server; without an argument page it has no request.
pub data Message : Type 0 where
  request : ℕ → Request → Message
  bare : ℕ → Message

-- The page of the request, at reqva.
abbrev pub with_request : Service → Service
with_request s = record s { fs = record s.fs { mapped = update s.fs.mapped (vpn reqva) true } }

-- A round of the loop of serve.
unfoldable pub serve : Message → Proc Service (Unit {0})
unfolding handle_request mem_unmap
serve (bare whom) = pure tt
serve (request whom req) = do
  modify with_request
  handle_request whom req
  (λ s. ignored (on_fs (mem_unmap reqva) s))

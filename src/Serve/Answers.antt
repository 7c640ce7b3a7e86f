-- ===== src/Serve/Answers.antt =====
-- fs/serv.c: how often a request is answered, and what of the table it leaves alone.
use run_mos_on_risc_v.Prelude.{
  ℕ, ◌%◌, ◌/◌, ◌≡◌, refl, ◌∙◌, ap, ◌||◌, not, List, [], ◌∷◌, ◌++◌, ◌==◌, inl, inr, Bool-cases,
}
use run_mos_on_risc_v.Prelude.Proc.{Run, ok, err, left, panic, wild, Proc, embed, ignored, and_then}
use run_mos_on_risc_v.Fs.Cache.{Server, by2blk}
use run_mos_on_risc_v.Fs.File.{file_get_block, file_set_size, file_close, file_dirty, fs_sync}
use run_mos_on_risc_v.Fs.Path.{file_remove}
use run_mos_on_risc_v.Serve.{
  Service, Reply, Answer, success, failure, on_fs, ipc_send, pageref, open_lookup, maxopen,
}
use run_mos_on_risc_v.Serve.Requests.{
  or_reply, serve_map, serve_set_size, serve_close, serve_remove, serve_dirty, serve_sync, Request,
  open_file, map_block, set_size, close_file, set_dirty, remove_file, sync_all, invalid,
  handle_request,
}

-- The table of open files is as it was.
pub record SameTable (s t : Service) : Type 0 where
  pub ids : t.fileid ≡ s.fileid
  pub pages : t.ff ≡ s.ff
  pub files : t.file ≡ s.file
  pub modes : t.mode ≡ s.mode

-- And nothing was sent.
abbrev pub Quiet : Service → Service → Type 0
Quiet s t = SameTable s t × (t.replies ≡ s.replies)

-- One answer was sent, to the client.
abbrev pub Answered : ℕ → Service → Service → Type 0
Answered whom s t =
    SameTable s t × ((r : Reply) × (t.replies ≡ s.replies ++ r ∷ []) × (r.to ≡ whom))

-- What a handler comes to: where it returns there is an answer, and it returns no error.
abbrev pub Answers : ℕ → Service → Run Service (Unit {0}) → Type 0
Answers whom s (ok u t) = Answered whom s t
Answers whom s (err e t) = ⊥
Answers whom s (left t) = Unit {0}
Answers whom s panic = Unit {0}
Answers whom s wild = Unit {0}

abbrev pub Quietly {ℓ} : {A : Type ℓ} → Service → Run Service A → Type 0
Quietly s (ok a t) = Quiet s t
Quietly s (err e t) = Quiet s t
Quietly s (left t) = Unit {0}
Quietly s panic = Unit {0}
Quietly s wild = Unit {0}

pub Quiet-refl : (s : Service) → Quiet s s
Quiet-refl s = (record { ids = refl; pages = refl; files = refl; modes = refl }, refl)

embed-Quietly {ℓ} :
    {A : Type ℓ} (s : Service) (r : Run Server A)
    → Quietly s (embed (λ (u : Service) t. record u { fs = t }) s r)
embed-Quietly s (ok a t) = (record { ids = refl; pages = refl; files = refl; modes = refl }, refl)
embed-Quietly s (err e t) = (record { ids = refl; pages = refl; files = refl; modes = refl }, refl)
embed-Quietly s (left t) = tt
embed-Quietly s panic = tt
embed-Quietly s wild = tt

pub on_fs-Quietly {ℓ} : {A : Type ℓ} (m : Proc Server A) (s : Service) → Quietly s (on_fs m s)
on_fs-Quietly m s = embed-Quietly s (m s.fs)

pub open_lookup-Quietly : (fileid : ℕ) (s : Service) → Quietly s (open_lookup fileid s)
unfolding open_lookup
open_lookup-Quietly fileid s =
    let i = fileid % maxopen in
    elim (Bool-cases (pageref (s.ff i) s == 1 || not (s.fileid i == fileid))) [
      | inl g ↦ rw g (Quiet-refl s)
      | inr g ↦ rw g (Quiet-refl s)
    ]

pub ipc_send-Answers :
    (whom : ℕ) (a : Answer) (srcva : ℕ) (s t : Service)
    → Quiet s t
    → Answers whom s (ipc_send whom a srcva t)
unfolding ipc_send
ipc_send-Answers whom a srcva s t (h, q) = (
  record { ids = h.ids; pages = h.pages; files = h.files; modes = h.modes },
  (sent, ap (λ l. l ++ sent ∷ []) q, refl),
)
  where
    sent : Reply
    sent = record { to = whom; value = a; srcva = srcva }

pub or_reply-Answers {ℓ} :
    {A : Type ℓ} (whom : ℕ) (s : Service) (r : Run Service A) (k : A → Proc Service (Unit {0}))
    → Quietly s r
    → ((a : A) (t : Service) → Quiet s t → Answers whom s (k a t))
    → Answers whom s (or_reply whom r k)
unfolding or_reply
or_reply-Answers whom s (ok a t) k h f = f a t h
or_reply-Answers whom s (err e t) k h f = ipc_send-Answers whom (failure e) 0 s t h
or_reply-Answers whom s (left t) k h f = tt
or_reply-Answers whom s panic k h f = tt
or_reply-Answers whom s wild k h f = tt

Quiet-trans : (s t u : Service) → Quiet s t → Quiet t u → Quiet s u
Quiet-trans s t u (h, q) (g, p) = (
  record {
    ids = g.ids ∙ h.ids;
    pages = g.pages ∙ h.pages;
    files = g.files ∙ h.files;
    modes = g.modes ∙ h.modes;
  },
  p ∙ q,
)

Quietly-trans {ℓ} :
    {A : Type ℓ} (s t : Service) (r : Run Service A) → Quiet s t → Quietly t r → Quietly s r
Quietly-trans s t (ok a u) h g = Quiet-trans s t u h g
Quietly-trans s t (err e u) h g = Quiet-trans s t u h g
Quietly-trans s t (left u) h g = tt
Quietly-trans s t panic h g = tt
Quietly-trans s t wild h g = tt

ignored-Quietly {ℓ} :
    {A : Type ℓ} (s : Service) (r : Run Service A) → Quietly s r → Quietly s (ignored r)
ignored-Quietly s (ok a t) h = h
ignored-Quietly s (err e t) h = h
ignored-Quietly s (left t) h = h
ignored-Quietly s panic h = h
ignored-Quietly s wild h = h

-- A request on an open file: it is looked up, and the file system does its part.
module _ {ℓ} {A : Type ℓ} (whom fileid : ℕ) (run : ℕ → Proc Service A) (page : A → ℕ) where
  abbrev on_open : Proc Service (Unit {0})
  on_open s =
      or_reply whom (open_lookup fileid s)
        λ i t. or_reply whom (run (t.file i) t) λ a. ipc_send whom success (page a)

  on_open-Answers :
      (s : Service) → ((f : ℕ) (t : Service) → Quietly t (run f t)) → Answers whom s (on_open s)
  on_open-Answers s h =
      or_reply-Answers whom s (open_lookup fileid s) _ (open_lookup-Quietly fileid s) λ i t q.
        or_reply-Answers whom s (run (t.file i) t) _
          (Quietly-trans s t (run (t.file i) t) q (h (t.file i) t))
          λ a u p. ipc_send-Answers whom success (page a) s u p

-- The requests that ask for no new entry of the table, and are known to the server.
abbrev pub IsPlain : Request → Type 0
IsPlain (open_file path omode) = ⊥
IsPlain (invalid req) = ⊥
IsPlain other = Unit {0}

serve_map-Answers :
    (whom fileid offset : ℕ) (s : Service) → Answers whom s (serve_map whom fileid offset s)
unfolding serve_map
serve_map-Answers whom fileid offset s =
    on_open-Answers whom fileid (λ f. on_fs (file_get_block f (offset / by2blk))) (λ b. b) s
      (λ f t. on_fs-Quietly (file_get_block f (offset / by2blk)) t)

serve_set_size-Answers :
    (whom fileid size : ℕ) (s : Service) → Answers whom s (serve_set_size whom fileid size s)
unfolding serve_set_size
serve_set_size-Answers whom fileid size s =
    on_open-Answers whom fileid (λ f. on_fs (file_set_size f size)) (λ _. 0) s
      (λ f t. on_fs-Quietly (file_set_size f size) t)

serve_close-Answers : (whom fileid : ℕ) (s : Service) → Answers whom s (serve_close whom fileid s)
unfolding serve_close
serve_close-Answers whom fileid s =
    on_open-Answers whom fileid (λ f t. ignored (on_fs (file_close f) t)) (λ _. 0) s
      (λ f t. ignored-Quietly t (on_fs (file_close f) t) (on_fs-Quietly (file_close f) t))

serve_dirty-Answers :
    (whom fileid offset : ℕ) (s : Service) → Answers whom s (serve_dirty whom fileid offset s)
unfolding serve_dirty
serve_dirty-Answers whom fileid offset s =
    on_open-Answers whom fileid (λ f. on_fs (file_dirty f offset)) (λ _. 0) s
      (λ f t. on_fs-Quietly (file_dirty f offset) t)

serve_remove-Answers :
    (whom : ℕ) (path : List ℕ) (s : Service) → Answers whom s (serve_remove whom path s)
unfolding serve_remove
serve_remove-Answers whom path s =
    or_reply-Answers whom s (on_fs (file_remove path) s) _ (on_fs-Quietly (file_remove path) s)
      (λ a t q. ipc_send-Answers whom success 0 s t q)

and_then-Answers :
    (whom : ℕ) (s : Service) (r : Run Service (Unit {0})) (a : Answer)
    → Quietly s (ignored r)
    → Answers whom s (and_then (ignored r) (λ _. ipc_send whom a 0))
and_then-Answers whom s (ok u t) a h = ipc_send-Answers whom a 0 s t h
and_then-Answers whom s (err e t) a h = ipc_send-Answers whom a 0 s t h
and_then-Answers whom s (left t) a h = tt
and_then-Answers whom s panic a h = tt
and_then-Answers whom s wild a h = tt

serve_sync-Answers : (whom : ℕ) (s : Service) → Answers whom s (serve_sync whom s)
unfolding serve_sync
serve_sync-Answers whom s =
    and_then-Answers whom s (on_fs fs_sync s) success
      (ignored-Quietly s (on_fs fs_sync s) (on_fs-Quietly fs_sync s))

-- A request to map a block, set a size, close, mark dirty, remove or sync returns no error; where
-- it returns, exactly one answer has been sent, to the client, and the file ids, pages, files
-- and modes of the table are as before.
pub handle_request-Answers :
    (whom : ℕ) (req : Request) (s : Service)
    → IsPlain req
    → Answers whom s (handle_request whom req s)
unfolding handle_request
handle_request-Answers whom (open_file path omode) s h = absurd h
handle_request-Answers whom (map_block fileid offset) s h = serve_map-Answers whom fileid offset s
handle_request-Answers whom (set_size fileid size) s h = serve_set_size-Answers whom fileid size s
handle_request-Answers whom (close_file fileid) s h = serve_close-Answers whom fileid s
handle_request-Answers whom (set_dirty fileid offset) s h = serve_dirty-Answers whom fileid offset s
handle_request-Answers whom (remove_file path) s h = serve_remove-Answers whom path s
handle_request-Answers whom sync_all s h = serve_sync-Answers whom s
handle_request-Answers whom (invalid req) s h = absurd h

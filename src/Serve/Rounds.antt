-- ===== src/Serve/Rounds.antt =====
-- fs/serv.c: the loop of the server, with the clients in between.
use run_mos_on_risc_v.Prelude.{
  ℕ, ◌≡◌, refl, ap, ◌&&◌, ◌++◌, List, [], ◌∷◌, arith, if◌then◌else◌, inl, inr, Bool-cases,
}
use run_mos_on_risc_v.Prelude.Proc.{Run, ok, err, left, panic, wild, Proc, and_then, ignored, Error}
use run_mos_on_risc_v.Fs.Cache.{vpn, mem_unmap}
use run_mos_on_risc_v.Fs.Path.{file_open}
use run_mos_on_risc_v.Serve.{
  Service, Answer, negative, failure, on_fs, reqva, serve_init, open_alloc,
}
use run_mos_on_risc_v.Serve.Requests.{
  or_reply, fill_open, open_entry, is_negative, opened, serve_open, Request, open_file, map_block,
  set_size, close_file, set_dirty, remove_file, sync_all, invalid, handle_request, Message, request,
  bare, with_request, serve,
}
use run_mos_on_risc_v.Serve.Answers.{
  Quietly, on_fs-Quietly, Answers, IsPlain, handle_request-Answers,
}
use run_mos_on_risc_v.Serve.Table.{
  IsOpenTable, IsTaken, Allotted, open_alloc-Allotted, init-IsOpenTable,
}

-- Where a procedure returns, the table is well formed.
abbrev Keeps : Run Service (Unit {0}) → Type 0
Keeps (ok u t) = IsOpenTable t
Keeps (err e t) = IsOpenTable t
Keeps (left t) = Unit {0}
Keeps panic = Unit {0}
Keeps wild = Unit {0}

same-IsOpenTable :
    (s t : Service) → t.fileid ≡ s.fileid → t.ff ≡ s.ff → IsOpenTable s → IsOpenTable t
same-IsOpenTable s t e f h = record {
  ids = λ i b. rw e (h.ids i b);
  pages = λ i b. rw f (h.pages i b);
}

taken-IsOpenTable :
    (s : Service) (i : ℕ) (t : Service) → IsOpenTable s → IsTaken s i t → IsOpenTable t
taken-IsOpenTable s i t h k = record {
  ids = λ j b. ground (arith, h.ids j b, h.ids i k.below, ap (λ (f : ℕ → ℕ). f j) k.id);
  pages = λ j b. rw k.pages (h.pages j b);
}

fill_open-Keeps :
    (whom i omode f : ℕ) (s : Service) → IsOpenTable s → Keeps (fill_open whom i omode f s)
unfolding fill_open
fill_open-Keeps whom i omode f s h =
    elim (Bool-cases (s.fs.mapped (vpn (s.ff i)) && s.fs.mapped (vpn f))) [
      | inl g ↦ rw g (same-IsOpenTable s _ refl refl h)
      | inr g ↦ rw g tt
    ]

or_reply-Keeps :
    (whom : ℕ) (s : Service) (r : Run Service ℕ) (k : ℕ → Proc Service (Unit {0}))
    → IsOpenTable s
    → Quietly s r
    → ((f : ℕ) (t : Service) → IsOpenTable t → Keeps (k f t))
    → Keeps (or_reply whom r k)
unfolding or_reply
or_reply-Keeps whom s (ok f t) k h (q, _) g = g f t (same-IsOpenTable s t q.ids q.pages h)
or_reply-Keeps whom s (err e t) k h (q, _) g = same-IsOpenTable s _ q.ids q.pages h
or_reply-Keeps whom s (left t) k h q g = tt
or_reply-Keeps whom s panic k h q g = tt
or_reply-Keeps whom s wild k h q g = tt

open_entry-Keeps :
    (whom i omode : ℕ) (path : List ℕ) (s : Service)
    → IsOpenTable s
    → Keeps (open_entry whom i omode path s)
unfolding open_entry
open_entry-Keeps whom i omode path s h =
    or_reply-Keeps whom s (on_fs (file_open path) s) _ h (on_fs-Quietly (file_open path) s)
      (λ f t g. fill_open-Keeps whom i omode f t g)

answered : ℕ → Answer → Service → Service
answered whom a s = record s {
  replies = s.replies ++ record { to = whom; value = a; srcva = 0 } ∷ [];
}

opened-ok :
    (whom omode : ℕ) (path : List ℕ) (i : ℕ) (t : Service)
    → opened whom omode path (ok i t) ≡ (
        if is_negative (t.fileid i)
        then open_entry whom i omode path (answered whom (negative (t.fileid i)) t)
        else open_entry whom i omode path t)
unfolding opened answered
opened-ok whom omode path i t = refl

opened-err :
    (whom omode : ℕ) (path : List ℕ) (e : Error) (t : Service)
    → opened whom omode path (err e t)
      ≡ or_reply whom (on_fs (file_open path) (answered whom (failure e) t)) (λ (f : ℕ) u. wild)
unfolding opened answered
opened-err whom omode path e t = refl

answered-IsOpenTable :
    (whom : ℕ) (a : Answer) (s : Service) → IsOpenTable s → IsOpenTable (answered whom a s)
unfolding answered
answered-IsOpenTable whom a s h = same-IsOpenTable s _ refl refl h

opened-Keeps :
    (whom omode : ℕ) (path : List ℕ) (s : Service) (r : Run Service ℕ)
    → IsOpenTable s
    → Allotted s r
    → Keeps (opened whom omode path r)
opened-Keeps whom omode path s (ok i t) h a =
    let k = taken-IsOpenTable s i t h a in
    rw (opened-ok whom omode path i t) (elim (Bool-cases (is_negative (t.fileid i))) [
      | inl g ↦ rw g (open_entry-Keeps whom i omode path _ (answered-IsOpenTable whom _ t k))
      | inr g ↦ rw g (open_entry-Keeps whom i omode path t k)
    ])
opened-Keeps whom omode path s (err e t) h (ids, pages, _, _) =
    rw (opened-err whom omode path e t) (
      or_reply-Keeps whom (answered whom (failure e) t) _ _
        (answered-IsOpenTable whom (failure e) t (same-IsOpenTable s t ids pages h))
        (on_fs-Quietly (file_open path) (answered whom (failure e) t)) (λ f u g. tt))
opened-Keeps whom omode path s (left t) h a = absurd a
opened-Keeps whom omode path s panic h a = absurd a
opened-Keeps whom omode path s wild h a = absurd a

serve_open-Keeps :
    (whom omode : ℕ) (path : List ℕ) (s : Service)
    → IsOpenTable s
    → Keeps (serve_open whom omode path s)
unfolding serve_open
serve_open-Keeps whom omode path s h =
    opened-Keeps whom omode path s (open_alloc s) h (open_alloc-Allotted s)

Answers-Keeps :
    (whom : ℕ) (s : Service) (r : Run Service (Unit {0}))
    → IsOpenTable s
    → Answers whom s r
    → Keeps r
Answers-Keeps whom s (ok u t) h (q, _) = same-IsOpenTable s t q.ids q.pages h
Answers-Keeps whom s (err e t) h a = absurd a
Answers-Keeps whom s (left t) h a = tt
Answers-Keeps whom s panic h a = tt
Answers-Keeps whom s wild h a = tt

handle_request-open :
    (whom omode : ℕ) (path : List ℕ) (s : Service)
    → handle_request whom (open_file path omode) s ≡ serve_open whom omode path s
unfolding handle_request
handle_request-open whom omode path s = refl

handle_request-invalid :
    (whom req : ℕ) (s : Service) → handle_request whom (invalid req) s ≡ ok tt s
unfolding handle_request
handle_request-invalid whom req s = refl

plain-Keeps :
    (whom : ℕ) (req : Request) (s : Service)
    → IsPlain req
    → IsOpenTable s
    → Keeps (handle_request whom req s)
plain-Keeps whom req s p h =
    Answers-Keeps whom s (handle_request whom req s) h (handle_request-Answers whom req s p)

handle_request-Keeps :
    (whom : ℕ) (req : Request) (s : Service) → IsOpenTable s → Keeps (handle_request whom req s)
handle_request-Keeps whom (open_file path omode) s h =
    rw (handle_request-open whom omode path s) (serve_open-Keeps whom omode path s h)
handle_request-Keeps whom (invalid req) s h = rw (handle_request-invalid whom req s) h
handle_request-Keeps whom (map_block fileid offset) s h =
    plain-Keeps whom (map_block fileid offset) s tt h
handle_request-Keeps whom (set_size fileid size) s h =
    plain-Keeps whom (set_size fileid size) s tt h
handle_request-Keeps whom (close_file fileid) s h = plain-Keeps whom (close_file fileid) s tt h
handle_request-Keeps whom (set_dirty fileid offset) s h =
    plain-Keeps whom (set_dirty fileid offset) s tt h
handle_request-Keeps whom (remove_file path) s h = plain-Keeps whom (remove_file path) s tt h
handle_request-Keeps whom sync_all s h = plain-Keeps whom sync_all s tt h

unmap-Keeps : (s : Service) → IsOpenTable s → Keeps (ignored (on_fs (mem_unmap reqva) s))
unmap-Keeps s h = quiet (on_fs (mem_unmap reqva) s) (on_fs-Quietly (mem_unmap reqva) s)
  where
    quiet : (r : Run Service (Unit {0})) → Quietly s r → Keeps (ignored r)
    quiet (ok u t) (q, _) = same-IsOpenTable s t q.ids q.pages h
    quiet (err e t) (q, _) = same-IsOpenTable s t q.ids q.pages h
    quiet (left t) q = tt
    quiet panic q = tt
    quiet wild q = tt

then-Keeps :
    (r : Run Service (Unit {0}))
    → Keeps r
    → Keeps (and_then r (λ _ s. ignored (on_fs (mem_unmap reqva) s)))
then-Keeps (ok u t) h = unmap-Keeps t h
then-Keeps (err e t) h = h
then-Keeps (left t) h = tt
then-Keeps panic h = tt
then-Keeps wild h = tt

serve-request :
    (whom : ℕ) (req : Request) (s : Service)
    → serve (request whom req) s
      ≡ and_then
          (handle_request whom req (with_request s))
          (λ _ t. ignored (on_fs (mem_unmap reqva) t))
unfolding serve
serve-request whom req s = refl

serve-bare : (whom : ℕ) (s : Service) → serve (bare whom) s ≡ ok tt s
unfolding serve
serve-bare whom s = refl

serve-Keeps : (m : Message) (s : Service) → IsOpenTable s → Keeps (serve m s)
serve-Keeps (request whom req) s h = rw (serve-request whom req s) (
    then-Keeps (handle_request whom req (with_request s))
      (handle_request-Keeps whom req (with_request s) (same-IsOpenTable s _ refl refl h)))
serve-Keeps (bare whom) s h = rw (serve-bare whom s) h

-- The states between two rounds: the server starts, serves a message, or clients map and unmap the
-- pages that they were sent and write to them: any count of references and any bytes may result.
pub data Serving : Service → Type 0 where
  begins : (s t : Service) → serve_init s ≡ ok tt t → Serving t
  serves : (m : Message) (s t : Service) → Serving s → serve m s ≡ ok tt t → Serving t
  clients :
      (s : Service) (refs mem : ℕ → ℕ)
      → Serving s
      → Serving (record s { refs = refs; fs = record (s.fs) { mem = mem } })

serve_init-Keeps : (s : Service) → Keeps (serve_init s)
unfolding serve_init
serve_init-Keeps s = init-IsOpenTable s

-- However many messages are served and however clients map, unmap and
-- write the pages that they were sent in between, the table of
-- open files stays well formed: each file id leads to its own entry, and each entry has its page.
pub Serving-IsOpenTable : (s : Service) → Serving s → IsOpenTable s
Serving-IsOpenTable t (begins s _ e) = rw e at (serve_init-Keeps s)
Serving-IsOpenTable t (serves m s _ r e) = rw e at (serve-Keeps m s (Serving-IsOpenTable s r))
Serving-IsOpenTable t (clients s refs mem r) =
    same-IsOpenTable s _ refl refl (Serving-IsOpenTable s r)

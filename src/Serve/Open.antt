-- ===== src/Serve/Open.antt =====
-- fs/serv.c: the request to open a file.
use run_mos_on_risc_v.Prelude.{
  ℕ, ◌+◌, ◌<◌, ◌≡◌, ◌⊎◌, ◌^◌, refl, ◌∙◌, false, ◌&&◌, List, [], ◌∷◌, ◌++◌, arith, update, inl, inr,
  Bool-cases,
}
use run_mos_on_risc_v.Prelude.Proc.{Run, Proc, ok, err, left, panic, wild, embed, Error}
use run_mos_on_risc_v.Bytes.{
  load_word, store_word, load_word-store_word_self, load_word-store_word_other,
}
use run_mos_on_risc_v.Fs.Cache.{Server, vpn}
use run_mos_on_risc_v.Fs.Path.{file_open}
use run_mos_on_risc_v.Serve.{Service, Reply, Answer, success, failure, on_fs, open_alloc}
use run_mos_on_risc_v.Serve.Requests.{
  or_reply, dev_id, fill_open, open_entry, is_negative, opened, serve_open,
}

abbrev pub reply : ℕ → Answer → ℕ → Reply
reply whom a srcva = record { to = whom; value = a; srcva = srcva }

-- An open file: the entry has it, the page of its descriptor has the file id, the mode, the device and
-- is sent with the answer.
pub record IsOpened (whom i omode f : ℕ) (t u : Service) : Type 0 where
  pub file : u.file ≡ update t.file i f
  pub modes : u.mode ≡ update t.mode i omode
  pub id : load_word u.fs.mem (u.ff i + 12) ≡ u.fileid i
  pub mode : load_word u.fs.mem (u.ff i + 8) ≡ omode
  pub device : load_word u.fs.mem (u.ff i) ≡ dev_id
  pub answer : u.replies ≡ t.replies ++ reply whom success (u.ff i) ∷ []

-- What serve_open makes of the result of file_open on the entry i of t: its error is the one answer, or
-- the file that it found is the one of the entry. The server stops where file_open does, and follows a
-- pointer into no page where the page of the entry or of the file is not mapped.
abbrev pub Follows : ℕ → ℕ → ℕ → Service → Run Server ℕ → Run Service (Unit {0}) → Type 0
Follows whom i omode t (ok f v) r =
    ((u : Service) × (r ≡ ok tt u)
      × (u.fileid ≡ t.fileid)
      × (u.ff ≡ t.ff)
      × IsOpened whom i omode f t u)
    ⊎ ((r ≡ wild) × ((v.mapped (vpn (t.ff i)) && v.mapped (vpn f)) ≡ false))
Follows whom i omode t (err e v) r =
    r ≡ ok tt (record t { fs = v; replies = t.replies ++ reply whom (failure e) 0 ∷ [] })
Follows whom i omode t (left v) r = r ≡ left (record t { fs = v })
Follows whom i omode t panic r = r ≡ panic
Follows whom i omode t wild r = r ≡ wild

module _ (va omode fileid : ℕ) (m : ℕ → ℕ) where
  abbrev filled : ℕ → ℕ
  filled = store_word va dev_id (store_word (va + 8) omode (store_word (va + 12) fileid m))

  filled_id : fileid < 2 ^ 32 → load_word filled (va + 12) ≡ fileid
  filled_id h =
      load_word-store_word_other (store_word (va + 8) omode (store_word (va + 12) fileid m)) va
        dev_id (va + 12) (inr (omega arith))
      ∙ load_word-store_word_other (store_word (va + 12) fileid m) (va + 8) omode (va + 12)
          (inr (omega arith))
      ∙ load_word-store_word_self m (va + 12) fileid h

  filled_omode : omode < 2 ^ 32 → load_word filled (va + 8) ≡ omode
  filled_omode h =
      load_word-store_word_other (store_word (va + 8) omode (store_word (va + 12) fileid m)) va
        dev_id (va + 8) (inr (omega arith))
      ∙ load_word-store_word_self (store_word (va + 12) fileid m) (va + 8) omode h

  filled_device : load_word filled va ≡ dev_id
  filled_device =
      load_word-store_word_self (store_word (va + 8) omode (store_word (va + 12) fileid m)) va
        dev_id (omega arith)

-- The mode and the file id are words.
abbrev AreWords : ℕ → ℕ → Service → Type 0
AreWords i omode t = (t.fileid i < 2 ^ 32) × (omode < 2 ^ 32)

fill_open-Follows :
    (whom i omode f : ℕ) (t : Service) (v : Server)
    → AreWords i omode t
    → Follows whom i omode t (ok f v) (fill_open whom i omode f (record t { fs = v }))
unfolding fill_open
fill_open-Follows whom i omode f t v (h, k) =
    elim (Bool-cases (v.mapped (vpn (t.ff i)) && v.mapped (vpn f))) [
      | inr g ↦ rw g (inr (refl, refl))
      | inl g ↦ rw g (
          inl (
            _,
            refl,
            refl,
            refl,
            record {
              file = refl;
              modes = refl;
              id = filled_id (t.ff i) omode (t.fileid i) _ h;
              mode = filled_omode (t.ff i) omode (t.fileid i) _ k;
              device = filled_device (t.ff i) omode (t.fileid i) _;
              answer = refl;
            },
          ))
    ]

-- A file system call of the server, with its answer or what follows.
abbrev served : ℕ → Service → Run Server ℕ → (ℕ → Proc Service (Unit {0})) → Run Service (Unit {0})
served whom t r k = or_reply whom (embed (λ (u : Service) v. record u { fs = v }) t r) k

served-Follows :
    (whom i omode : ℕ) (t : Service) (r : Run Server ℕ)
    → AreWords i omode t
    → Follows whom i omode t r (served whom t r (fill_open whom i omode))
unfolding or_reply
served-Follows whom i omode t (ok f v) w = fill_open-Follows whom i omode f t v w
served-Follows whom i omode t (err e v) w = refl
served-Follows whom i omode t (left v) w = refl
served-Follows whom i omode t panic w = refl
served-Follows whom i omode t wild w = refl

open_entry-Follows :
    (whom i omode : ℕ) (path : List ℕ) (t : Service)
    → AreWords i omode t
    → Follows whom i omode t (file_open path t.fs) (open_entry whom i omode path t)
unfolding open_entry
open_entry-Follows whom i omode path t w = served-Follows whom i omode t (file_open path t.fs) w

small-is_negative : (n : ℕ) → n < 0x8000_0000 → is_negative n ≡ false
small-is_negative n h = ground arith

opened-eq :
    (whom omode : ℕ) (path : List ℕ) (i : ℕ) (t : Service)
    → is_negative (t.fileid i) ≡ false
    → opened whom omode path (ok i t) ≡ open_entry whom i omode path t
unfolding opened
opened-eq whom omode path i t h = rw h refl

-- The first answer was the error of open_alloc, in state t. Where file_open fails a second one follows,
-- and where it finds the file the pointer o, which was not set, is followed.
abbrev pub AnswersTwice : ℕ → Error → Service → Run Server ℕ → Run Service (Unit {0}) → Type 0
AnswersTwice whom e t (ok f v) r = r ≡ wild
AnswersTwice whom e t (err e' v) r =
    r
    ≡ ok tt (record t {
      fs = v;
      replies = (t.replies ++ reply whom (failure e) 0 ∷ []) ++ reply whom (failure e') 0 ∷ [];
    })
AnswersTwice whom e t (left v) r =
    r ≡ left (record t { fs = v; replies = t.replies ++ reply whom (failure e) 0 ∷ [] })
AnswersTwice whom e t panic r = r ≡ panic
AnswersTwice whom e t wild r = r ≡ wild

abbrev refused : ℕ → Error → Service → Service
refused whom e t = record t { replies = t.replies ++ reply whom (failure e) 0 ∷ [] }

opened-err :
    (whom omode : ℕ) (path : List ℕ) (e : Error) (t : Service)
    → opened whom omode path (err e t)
      ≡ or_reply whom (on_fs (file_open path) (refused whom e t)) (λ (f : ℕ) u. wild)
unfolding opened
opened-err whom omode path e t = refl

served-AnswersTwice :
    (whom : ℕ) (e : Error) (t : Service) (r : Run Server ℕ)
    → AnswersTwice whom e t r (served whom (refused whom e t) r (λ f u. wild))
unfolding or_reply
served-AnswersTwice whom e t (ok f v) = refl
served-AnswersTwice whom e t (err e' v) = refl
served-AnswersTwice whom e t (left v) = refl
served-AnswersTwice whom e t panic = refl
served-AnswersTwice whom e t wild = refl

-- If open_alloc fails, serve_open sends its error and goes on to file_open: where that fails too, it
-- returns and has sent a second answer, and where that finds the file, it follows a pointer that was not
-- set.
pub serve_open-AnswersTwice :
    (whom omode : ℕ) (path : List ℕ) (s : Service) (e : Error) (t : Service)
    → open_alloc s ≡ err e t
    → AnswersTwice whom e t (file_open path t.fs) (serve_open whom omode path s)
unfolding serve_open
serve_open-AnswersTwice whom omode path s e t h =
    rw (h, opened-err whom omode path e t) (served-AnswersTwice whom e t (file_open path t.fs))

-- If open_alloc takes an entry, the new id is not negative as an int and the mode is a word, then
-- serve_open does with the entry what the result of file_open asks for. Where file_open fails, it returns
-- and has sent that error to the client, once, and only the file system's state has changed. Where it
-- finds a file, and its page and that of the entry are mapped, serve_open returns and has sent success,
-- once, with the page of the descriptor, which holds the file id, the mode and the device; the entry has
-- that file, and the ids and pages of the table stay. In the other cases it stops as file_open does, or
-- follows a pointer into a page that is not mapped.
pub serve_open-Opens :
    (whom omode : ℕ) (path : List ℕ) (s : Service) (i : ℕ) (t : Service)
    → omode < 2 ^ 32
    → open_alloc s ≡ ok i t
    → t.fileid i < 0x8000_0000
    → Follows whom i omode t (file_open path t.fs) (serve_open whom omode path s)
unfolding serve_open
serve_open-Opens whom omode path s i t w e h =
    rw (e, opened-eq whom omode path i t (small-is_negative (t.fileid i) h))
      (open_entry-Follows whom i omode path t (omega arith, w))

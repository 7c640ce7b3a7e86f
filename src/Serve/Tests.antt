-- ===== src/Serve/Tests.antt =====
-- fs/serv.c: the theorems at concrete inputs.
use run_mos_on_risc_v.Prelude.{◌≡◌, refl, true, false, [], ◌∷◌, arith, ◌<◌}
use run_mos_on_risc_v.Prelude.Proc.{Run, ok, err, left, panic, wild, max_open}
use run_mos_on_risc_v.Fs.Cache.{Server}
use run_mos_on_risc_v.Serve.{Service, serve_init, open_alloc}
use run_mos_on_risc_v.Serve.Requests.{sync_all, invalid, request, serve, handle_request, serve_open}
use run_mos_on_risc_v.Fs.Path.{file_open}
use run_mos_on_risc_v.Serve.Answers.{Answers, handle_request-Answers}
use run_mos_on_risc_v.Serve.Table.{IsOpenTable, Allotted, open_alloc-Allotted}
use run_mos_on_risc_v.Serve.Lookup.{LeadsTo, open_alloc-open_lookup}
use run_mos_on_risc_v.Serve.Open.{Follows, AnswersTwice, serve_open-Opens, serve_open-AnswersTwice}
use run_mos_on_risc_v.Serve.Rounds.{begins, serves, clients, Serving-IsOpenTable}

abbrev server : Server
server = record {
  mem = λ a. 0;
  mapped = λ p. false;
  dirty = λ p. false;
  disk = λ a. 0;
  super = 0;
  bitmap = 0;
  answers = true ∷ [];
}

abbrev blank_service : Service
blank_service = record {
  fs = server;
  file = λ i. 0;
  fileid = λ i. 0;
  mode = λ i. 0;
  ff = λ i. 0;
  refs = λ p. 0;
  replies = [];
}

-- The state that a run leaves.
abbrev state_of {ℓ} : {A : Type ℓ} → Run Service A → Service
state_of (ok a s) = s
state_of (err e s) = s
state_of (left s) = s
state_of panic = blank_service
state_of wild = blank_service

abbrev begun : Service
begun = state_of (serve_init blank_service)

begun_lem : serve_init blank_service ≡ ok tt begun
unfolding serve_init
begun_lem = refl

begun-IsOpenTable : IsOpenTable begun
begun-IsOpenTable = Serving-IsOpenTable begun (begins blank_service begun begun_lem)

open_alloc-Allotted_example : Allotted begun (open_alloc begun)
open_alloc-Allotted_example = open_alloc-Allotted begun

abbrev with_open : Service
with_open = state_of (open_alloc begun)

with_open_lem : open_alloc begun ≡ ok 0 with_open
unfolding open_alloc serve_init
with_open_lem = refl

open_alloc-open_lookup_example : LeadsTo begun 0 with_open with_open
open_alloc-open_lookup_example =
    open_alloc-open_lookup begun 0 with_open with_open begun-IsOpenTable with_open_lem refl

small_id : with_open.fileid 0 < 0x8000_0000
unfolding open_alloc serve_init
small_id = omega arith

serve_open-Opens_example :
    Follows 0x800 0 2 with_open
      (file_open (b'a' ∷ []) with_open.fs)
      (serve_open 0x800 2 (b'a' ∷ []) begun)
serve_open-Opens_example =
    serve_open-Opens 0x800 2 (b'a' ∷ []) begun 0 with_open (omega arith) with_open_lem small_id

-- Every entry is in use by a client.
abbrev full : Service
full = record begun { fs = record server { mapped = λ p. true }; refs = λ p. 2 }

full_lem : open_alloc full ≡ err max_open full
unfolding open_alloc serve_init
full_lem = refl

serve_open-AnswersTwice_example :
    AnswersTwice 0x800 max_open full
      (file_open (b'a' ∷ []) full.fs)
      (serve_open 0x800 2 (b'a' ∷ []) full)
serve_open-AnswersTwice_example =
    serve_open-AnswersTwice 0x800 2 (b'a' ∷ []) full max_open full full_lem

handle_request-Answers_example : Answers 0x800 full (handle_request 0x800 sync_all full)
handle_request-Answers_example = handle_request-Answers 0x800 sync_all full tt

abbrev after_round : Service
after_round = state_of (serve (request 0x800 (invalid 9)) begun)

after_round_lem : serve (request 0x800 (invalid 9)) begun ≡ ok tt after_round
unfolding serve serve_init
after_round_lem = refl

Serving-IsOpenTable_example :
    IsOpenTable
      (record after_round { refs = λ p. 1; fs = record (after_round.fs) { mem = λ a. 7 } })
Serving-IsOpenTable_example =
    Serving-IsOpenTable
      (record after_round { refs = λ p. 1; fs = record (after_round.fs) { mem = λ a. 7 } })
      (clients after_round (λ p. 1) (λ a. 7)
        (serves (request 0x800 (invalid 9)) begun after_round (begins blank_service begun begun_lem)
          after_round_lem))

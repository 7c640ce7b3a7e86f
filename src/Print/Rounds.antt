-- ===== src/Print/Rounds.antt =====
-- lib/print.c: one round of the loop of vprintfmt, and the rounds behind it.
use mathlib.Core.Path.{fun_ext}
use run_mos_on_risc_v.Prelude.{ℕ, suc, ◌≡◌, refl, ap, Option, none, some, List}
use run_mos_on_risc_v.Print.{Printer, Print, and_then, pure}
use run_mos_on_risc_v.Print.Format.{one_round, all_rounds}

abbrev pub go_on : ℕ → Option (List ℕ) → Print (Unit {0})
go_on k none = pure tt
go_on k (some left) = all_rounds k left

go_on-elim :
    (k : ℕ) (more : Option (List ℕ))
    → (elim more [ none ↦ pure tt | some left ↦ all_rounds k left ]) ≡ go_on k more
go_on-elim k none = refl
go_on-elim k (some left) = refl

pub all_rounds_step :
    (k : ℕ) (fmt : List ℕ) (s : Printer)
    → all_rounds (suc k) fmt s ≡ and_then (one_round fmt s) (go_on k)
unfolding all_rounds
all_rounds_step k fmt s = ap (and_then (one_round fmt s)) (fun_ext λ more. go_on-elim k more)

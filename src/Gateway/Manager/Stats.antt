-- ===== src/Gateway/Manager/Stats.antt =====
-- `RuntimeStats` of gateway/run_manager.go.
use kkode.Prelude.{ℕ, ◌+◌, [], ◌∷◌, ◌≡◌, refl, ◌∙◌, arith, length}
use kkode.Gateway.Runs.{
  Status, queued, running, cancelling, completed, failed, cancelled, other, is_terminal,
}
use kkode.Gateway.Manager.{Runs, Manager}

-- `RuntimeStats`
pub record RunStats : Type 0 where
  pub tracked : ℕ
  pub active : ℕ
  pub queued_runs : ℕ
  pub running_runs : ℕ
  pub cancelling_runs : ℕ
  pub terminal_runs : ℕ

abbrev no_runs : RunStats
no_runs = record {
  tracked = 0;
  active = 0;
  queued_runs = 0;
  running_runs = 0;
  cancelling_runs = 0;
  terminal_runs = 0;
}

-- One round of the loop over the runs.
unfoldable pub counted : Status → RunStats → RunStats
unfolding is_terminal
counted queued s = record s { queued_runs = s.queued_runs + 1 }
counted running s = record s { running_runs = s.running_runs + 1 }
counted cancelling s = record s { cancelling_runs = s.cancelling_runs + 1 }
counted completed s = record s { terminal_runs = s.terminal_runs + 1 }
counted failed s = record s { terminal_runs = s.terminal_runs + 1 }
counted cancelled s = record s { terminal_runs = s.terminal_runs + 1 }
counted (other t) s = record s { active = s.active + 1 }

unfoldable pub count_all : Runs → RunStats → RunStats
unfolding counted
count_all [] s = s
count_all ((id, r) ∷ rs) s = count_all rs (counted r.run.status s)

-- `RuntimeStats`, less the numbers that it reads off the manager's settings.
unfoldable pub runtime_stats : Manager → RunStats
unfolding count_all
runtime_stats m =
    let s = count_all m.runs (record no_runs { tracked = length m.runs }) in
    record s { active = s.active + (s.queued_runs + s.running_runs + s.cancelling_runs) }

abbrev total : RunStats → ℕ
total s = s.active + s.queued_runs + s.running_runs + s.cancelling_runs + s.terminal_runs

counted-total : (st : Status) (s : RunStats) → total (counted st s) ≡ total s + 1
unfolding counted
counted-total queued s = omega arith
counted-total running s = omega arith
counted-total cancelling s = omega arith
counted-total completed s = omega arith
counted-total failed s = omega arith
counted-total cancelled s = omega arith
counted-total (other t) s = omega arith

count_all-total : (rs : Runs) (s : RunStats) → total (count_all rs s) ≡ total s + length rs
unfolding count_all
count_all-total [] s = omega arith
count_all-total ((id, r) ∷ rs) s =
    omega (arith, count_all-total rs (counted r.run.status s), counted-total r.run.status s)

counted-tracked : (st : Status) (s : RunStats) → (counted st s).tracked ≡ s.tracked
unfolding counted
counted-tracked queued s = refl
counted-tracked running s = refl
counted-tracked cancelling s = refl
counted-tracked completed s = refl
counted-tracked failed s = refl
counted-tracked cancelled s = refl
counted-tracked (other t) s = refl

count_all-tracked : (rs : Runs) (s : RunStats) → (count_all rs s).tracked ≡ s.tracked
unfolding count_all
count_all-tracked [] s = refl
count_all-tracked ((id, r) ∷ rs) s =
    count_all-tracked rs (counted r.run.status s) ∙ counted-tracked r.run.status s

-- Every run that the manager tracks is counted once, as active or as terminal.
pub runtime_stats-total :
    (m : Manager)
    → ((runtime_stats m).tracked ≡ length m.runs)
      × ((runtime_stats m).active + (runtime_stats m).terminal_runs ≡ length m.runs)
unfolding runtime_stats
runtime_stats-total m =
    let s = record no_runs { tracked = length m.runs } in
    (count_all-tracked m.runs s, omega (arith, count_all-total m.runs s))

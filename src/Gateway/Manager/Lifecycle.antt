-- ===== src/Gateway/Manager/Lifecycle.antt =====
-- The life of one run as its clients see it, and the changes of a run in gateway/run_manager.go as
-- steps of it.
pub mod Changes
pub mod Refined
use kkode.Prelude.{
  ℕ, Bool, true, false, List, [], ◌∷◌, ◌≡◌, refl, sym, ap, subst, ◌∙◌, arith, Option, none, some,
  Bool-cases, Option-cases, inl, inr, ◌⊎◌, Result, ok, err,
}
use kkode.Strings.{Text, text_eq}
use kkode.Strings.Prefixes.{text_eq_iff}
use kkode.Gateway.Runs.{
  Status, queued, running, cancelling, completed, failed, cancelled, other, Run, StartRequest,
  StarterError, is_terminal, same_idempotent_run,
}
use kkode.Gateway.Manager.{
  Phase, claiming, waiting, holding, executing, ended, ManagedRun, Runs, Manager, find, modify,
  is_cancellable, cancel_owned, shut_down_owned, shut_down_all, changed, to_holding, to_stopped,
  to_refused, to_executing, to_ended,
}
use kkode.Gateway.Manager.Consistency.{Fits, IsConsistent, is_cancellable-live}
use kkode.Gateway.Manager.Invariant.{Inv, changed_lem, with_runs}
use kkode.Gateway.Manager.Reachable.{IsKnowing, find-All}
use kkode.Gateway.Manager.Steps.{
  Step, acquire, refuse, begin, finish, cancel, shut_down, submit, SeesStop,
}
use kkode.Gateway.Manager.Starting.{Claim, start, claimed}

-- A run that is not known, one that is accepted, one that its starter works on, one that is being
-- cancelled, and one that is over, with the status that it ended in. The Boolean says whether a
-- cancellation or a shutdown has cancelled the run's context by now.
pub data Life : Type 0 where
  absent pending : Life
  active stopping : Bool → Life
  over : Status → Life

abbrev pub life_of : Status → Bool → Life
life_of queued b = pending
life_of running b = active b
life_of cancelling b = stopping b
life_of s b = over s

abbrev pub life : Option ManagedRun → Life
life none = absent
life (some r) = life_of r.run.status r.stopped

-- How a run may end: with a cancelled context it is cancelled, whatever its starter says.
abbrev pub MayEnd : Bool → Status → Type 0
MayEnd b s = (is_terminal s ≡ true) × (b ≡ true → s ≡ cancelled)

-- What can become of a run. A run that is over has no step. One that the store did not take in
-- disappears, also if it was cancelled in the meantime; one that was cancelled while it waited is
-- worked on if it gets a slot before it sees that; one whose context is not yet cancelled may end
-- as if nothing had been asked.
pub data LifeStep : Life → Life → Type 0 where
  appear : LifeStep absent pending
  withdraw : LifeStep pending absent
  withdraw_stopped : (b : Bool) → LifeStep (stopping b) absent
  work : LifeStep pending (active false)
  resume : (b : Bool) → LifeStep (stopping b) (active b)
  stop_accepted : LifeStep pending (stopping false)
  stop_active : (b : Bool) → LifeStep (active b) (stopping b)
  cut_stopping : LifeStep (stopping false) (stopping true)
  cut_active : LifeStep (active false) (active true)
  give_up : (b : Bool) (s : Status) → MayEnd b s → LifeStep (stopping b) (over s)
  end : (b : Bool) (s : Status) → MayEnd b s → LifeStep (active b) (over s)

abbrev pub Moves : Option ManagedRun → Option ManagedRun → Type 0
Moves a b = (life a ≡ life b) ⊎ LifeStep (life a) (life b)

stays : (a b : Option ManagedRun) → b ≡ a → Moves a b
stays a b e = inl (ap life (sym e))

pub some_inj : (a b : ManagedRun) → some a ≡ some b → a ≡ b
some_inj a b e = ground arith

-- A change of the run under one id is a move of each run, if it is one of that run.
pub find-modify-Moves :
    (f : ManagedRun → ManagedRun) (id j : Text) (rs : Runs)
    → ((a : ManagedRun) → find j rs ≡ some a → Moves (some a) (some (f a)))
    → Moves (find id rs) (find id (modify j f rs))
unfolding find modify
find-modify-Moves f id j [] k = inl refl
find-modify-Moves f id j ((i, m) ∷ rs) k = elim (Bool-cases (text_eq i j)) [
  | inl q ↦ elim (Bool-cases (text_eq i id)) [
    | inl p ↦ rw (q, p) (k m (rw q refl))
    | inr p ↦ rw (q, p) (inl refl)
  ]
  | inr q ↦ elim (Bool-cases (text_eq i id)) [
    | inl p ↦ rw (q, p) (inl refl)
    | inr p ↦ rw (q, p) (find-modify-Moves f id j rs (λ a e. k a (rw q e)))
  ]
]

pub changed-Moves :
    (m : Manager) (id j : Text) (f : ManagedRun → ManagedRun)
    → ((a : ManagedRun) → find j m.runs ≡ some a → Moves (some a) (some (f a)))
    → Moves (find id m.runs) (find id (changed m j f).runs)
unfolding changed
changed-Moves m id j f k = elim (Option-cases (find j m.runs)) [
  | inl n ↦ rw (n, changed) (inl refl)
  | inr (a, n) ↦ rw (n, changed) (find-modify-Moves f id j m.runs k)
]

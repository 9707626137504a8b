-- ===== src/Gateway/Manager/Consistency.antt =====
-- What holds of each run of the manager, and that every change of a run keeps it.
use kkode.Prelude.{ℕ, Bool, true, false, ◌≡◌, refl, subst, Option, none, some, Bool-cases, inl, inr}
use kkode.Strings.{Text}
use kkode.Gateway.Runs.{
  Status, queued, running, cancelling, completed, failed, cancelled, other, is_terminal, Run,
  StartRequest, StarterError, finish_run,
}
use kkode.Gateway.Runs.Settling.{
  IsKnown, IsKnownResult, finish_run-is_terminal, finish_run-cancelled,
}
use kkode.Gateway.Manager.{
  Phase, claiming, waiting, holding, executing, ended, ManagedRun, to_waiting, to_holding,
  to_stopped, to_refused, to_executing, to_ended, is_cancellable, cancel_owned, shut_down_owned,
}
use kkode.Gateway.Manager.Steps.{SeesStop}

-- Which statuses go with which place of a run: one that its goroutine has not begun is queued, or
-- cancelling if its cancel function was taken, and an ended one is terminal.
abbrev pub Fits : Phase → Status → Bool → Type 0
Fits claiming queued asked = asked ≡ false
Fits claiming cancelling asked = asked ≡ true
Fits claiming _ asked = ⊥
Fits waiting queued asked = asked ≡ false
Fits waiting cancelling asked = asked ≡ true
Fits waiting _ asked = ⊥
Fits holding queued asked = asked ≡ false
Fits holding cancelling asked = asked ≡ true
Fits holding _ asked = ⊥
Fits executing running asked = Unit {0}
Fits executing cancelling asked = asked ≡ true
Fits executing _ asked = ⊥
Fits ended s asked = is_terminal s ≡ true

-- A context is cancelled only by who has taken its cancel function.
abbrev pub IsConsistent : ManagedRun → Type 0
IsConsistent r = Fits r.phase r.run.status r.asked × (r.stopped ≡ true → r.asked ≡ true)

pub to_waiting-IsConsistent :
    (r : ManagedRun) → r.phase ≡ claiming → IsConsistent r → IsConsistent (to_waiting r)
to_waiting-IsConsistent r e (h, k) =
    (go r.run.status r.asked (subst (λ p. Fits p r.run.status r.asked) e h), k)
  where
    go : (s : Status) (b : Bool) → Fits claiming s b → Fits waiting s b
    go queued b k = k
    go cancelling b k = k
    go _ b k = absurd k

pub to_holding-IsConsistent :
    (r : ManagedRun) → r.phase ≡ waiting → IsConsistent r → IsConsistent (to_holding r)
to_holding-IsConsistent r e (h, k) =
    (go r.run.status r.asked (subst (λ p. Fits p r.run.status r.asked) e h), k)
  where
    go : (s : Status) (b : Bool) → Fits waiting s b → Fits holding s b
    go queued b k = k
    go cancelling b k = k
    go _ b k = absurd k

pub to_stopped-IsConsistent :
    (r : ManagedRun) → r.asked ≡ true → IsConsistent r → IsConsistent (to_stopped r)
to_stopped-IsConsistent r e (h, k) = (h, λ _. e)

pub to_refused-IsConsistent :
    (now : ℕ) (x : Text) (r : ManagedRun) → IsConsistent r → IsConsistent (to_refused now x r)
unfolding is_terminal
to_refused-IsConsistent now x r (h, k) = (refl, k)

-- A run that is not over may be cancelled at any time.
Fits-stop :
    (p : Phase) (s : Status) (b : Bool)
    → Fits p s b
    → is_terminal s ≡ false
    → Fits p cancelling true
unfolding is_terminal
Fits-stop claiming s b h n = refl
Fits-stop waiting s b h n = refl
Fits-stop holding s b h n = refl
Fits-stop executing s b h n = refl
Fits-stop ended s b h n = absurd (both (is_terminal s) h n)
  where
    both : (t : Bool) → t ≡ true → t ≡ false → ⊥
    both t h n = cc

pub is_cancellable-live : (s : Status) → is_cancellable s ≡ true → is_terminal s ≡ false
unfolding is_cancellable is_terminal
is_cancellable-live queued h = refl
is_cancellable-live running h = refl
is_cancellable-live cancelling h = refl
is_cancellable-live completed h = cc
is_cancellable-live failed h = cc
is_cancellable-live cancelled h = cc
is_cancellable-live (other t) h = refl

pub cancel_owned-IsConsistent :
    (now : ℕ) (r : ManagedRun) → IsConsistent r → IsConsistent (cancel_owned now r)
unfolding cancel_owned
cancel_owned-IsConsistent now r h = elim (Bool-cases (is_cancellable r.run.status)) [
  | inl e ↦
      rw e
        (Fits-stop r.phase r.run.status r.asked h.0 (is_cancellable-live r.run.status e), λ _. refl)
  | inr e ↦ rw e h
]

pub shut_down_owned-IsConsistent :
    (now : ℕ) (r : ManagedRun) → IsConsistent r → IsConsistent (shut_down_owned now r)
unfolding shut_down_owned
shut_down_owned-IsConsistent now r h = elim (Bool-cases (is_terminal r.run.status)) [
  | inl e ↦ rw e h
  | inr e ↦ rw e (Fits-stop r.phase r.run.status r.asked h.0 e, λ _. refl)
]

pub to_executing-IsConsistent :
    (now : ℕ) (r : ManagedRun) → IsConsistent r → IsConsistent (to_executing now r)
to_executing-IsConsistent now r (h, k) = (tt, k)

executing-IsKnown : (p : Phase) (s : Status) (b : Bool) → p ≡ executing → Fits p s b → IsKnown s
executing-IsKnown p s b e h = go s (subst (λ q. Fits q s b) e h)
  where
    go : (s : Status) → Fits executing s b → IsKnown s
    go running h = tt
    go cancelling h = tt
    go _ h = absurd h

pub to_ended-IsConsistent :
    (req : StartRequest) (now : ℕ) (result : Option Run) (e : Option StarterError)
    (ctx_err : Option Text) (r : ManagedRun)
    → r.phase ≡ executing
    → IsKnownResult result
    → IsConsistent r
    → IsConsistent (to_ended req now result e ctx_err r)
to_ended-IsConsistent req now result e ctx_err r p k (h, t) = (
  finish_run-is_terminal req now result e ctx_err r.run k
      (executing-IsKnown r.phase r.run.status r.asked p h),
  t,
)

-- A run whose context is cancelled when it makes its last update is cancelled.
pub to_ended-cancelled :
    (req : StartRequest) (now : ℕ) (result : Option Run) (e : Option StarterError)
    (ctx_err : Option Text) (r : ManagedRun)
    → SeesStop r.stopped ctx_err
    → r.stopped ≡ true
    → (to_ended req now result e ctx_err r).run.status ≡ cancelled
to_ended-cancelled req now result e ctx_err r s b =
    sees ctx_err (subst (λ v. SeesStop v ctx_err) b s)
  where
    sees :
        (c : Option Text)
        → SeesStop true c
        → (finish_run req now result e c r.run).status ≡ cancelled
    sees none h = absurd h
    sees (some x) h = finish_run-cancelled req now result e x r.run

-- ===== src/Gateway/Manager/Lifecycle/Changes.antt =====
-- The changes of a run in gateway/run_manager.go as steps of its life.
use kkode.Prelude.{
  ℕ, Bool, true, false, ◌≡◌, refl, sym, subst, none, some, Bool-cases, inl, inr, ◌⊎◌,
}
use kkode.Strings.{Text}
use kkode.Gateway.Runs.{
  Status, queued, running, cancelling, completed, failed, cancelled, other, is_terminal,
}
use kkode.Gateway.Manager.{
  Phase, claiming, waiting, holding, executing, ended, ManagedRun, is_cancellable, cancel_owned,
  shut_down_owned, to_stopped, to_refused, to_executing,
}
use kkode.Gateway.Manager.Consistency.{Fits, IsConsistent, is_cancellable-live}
use kkode.Gateway.Manager.Lifecycle.{
  absent, pending, active, stopping, over, life_of, MayEnd, LifeStep, withdraw, withdraw_stopped,
  work, resume, stop_accepted, stop_active, cut_stopping, cut_active, give_up, end, Moves,
}

-- A context is not cancelled before its cancel function is taken.
not_stopped : (b a : Bool) → (b ≡ true → a ≡ true) → a ≡ false → b ≡ false
not_stopped true a k e = absurd (cc (k refl, e))
not_stopped false a k e = refl

-- From the place and the status that go together.
pub begin-Moves :
    (now : ℕ) (r : ManagedRun)
    → r.phase ≡ holding
    → IsConsistent r
    → Moves (some r) (some (to_executing now r))
begin-Moves now r e (h, k) = go r.run.status (subst (λ q. Fits q r.run.status r.asked) e h)
  where
    go :
        (s : Status)
        → Fits holding s r.asked
        → (life_of s r.stopped ≡ active r.stopped)
          ⊎ LifeStep (life_of s r.stopped) (active r.stopped)
    go queued f =
        inr
          (subst (λ b. LifeStep pending (active b)) (sym (not_stopped r.stopped r.asked k f)) work)
    go cancelling f = inr (resume r.stopped)
    go _ f = absurd f

pub refuse-Moves :
    (now : ℕ) (x : Text) (r : ManagedRun)
    → r.phase ≡ waiting
    → r.stopped ≡ true
    → IsConsistent r
    → Moves (some r) (some (to_refused now x r))
refuse-Moves now x r e t (h, k) = go r.run.status (subst (λ q. Fits q r.run.status r.asked) e h)
  where
    go :
        (s : Status)
        → Fits waiting s r.asked
        → (life_of s r.stopped ≡ over cancelled) ⊎ LifeStep (life_of s r.stopped) (over cancelled)
    go queued f = absurd (cc (f, k t))
    go cancelling f = inr (give_up r.stopped cancelled (unfold is_terminal in refl, λ _. refl))
    go _ f = absurd f

life_of-terminal : (s : Status) (b : Bool) → is_terminal s ≡ true → life_of s b ≡ over s
unfolding is_terminal
life_of-terminal completed b h = refl
life_of-terminal failed b h = refl
life_of-terminal cancelled b h = refl
life_of-terminal queued b h = cc
life_of-terminal running b h = cc
life_of-terminal cancelling b h = cc
life_of-terminal (other t) b h = cc

pub finish-Moves :
    (p : Phase) (s t : Status) (a b : Bool)
    → p ≡ executing
    → Fits p s a
    → MayEnd b t
    → (life_of s b ≡ life_of t b) ⊎ LifeStep (life_of s b) (life_of t b)
finish-Moves p s t a b e h d = go s (subst (λ q. Fits q s a) e h)
  where
    go :
        (s : Status)
        → Fits executing s a
        → (life_of s b ≡ life_of t b) ⊎ LifeStep (life_of s b) (life_of t b)
    go running k = inr (subst (LifeStep (active b)) (sym (life_of-terminal t b d.0)) (end b t d))
    go cancelling k =
        inr (subst (LifeStep (stopping b)) (sym (life_of-terminal t b d.0)) (give_up b t d))
    go _ k = absurd k

-- A consistent run has a status that the code compares with.
other-absurd : (p : Phase) (t : Text) (b : Bool) → Fits p (other t) b → ⊥
unfolding is_terminal
other-absurd claiming t b h = h
other-absurd waiting t b h = h
other-absurd holding t b h = h
other-absurd executing t b h = h
other-absurd ended t b h = cc h

-- What a run that is not over moves to when it is cancelled
stopping-Moves :
    (r : ManagedRun) (s : Status)
    → IsConsistent (record r { run = record (r.run) { status = s } })
    → is_terminal s ≡ false
    → (life_of s r.stopped ≡ stopping r.stopped)
      ⊎ LifeStep (life_of s r.stopped) (stopping r.stopped)
stopping-Moves r queued (h, k) e = inr (
    subst (λ b. LifeStep pending (stopping b))
      (sym (not_stopped r.stopped r.asked k (unasked r.phase h))) stop_accepted)
  where
    unasked : (p : Phase) → Fits p queued r.asked → r.asked ≡ false
    unasked claiming h = h
    unasked waiting h = h
    unasked holding h = h
    unasked executing h = absurd h
    unasked ended h = unfold is_terminal in cc h
stopping-Moves r running (h, k) e = inr (stop_active r.stopped)
stopping-Moves r cancelling (h, k) e = inl refl
stopping-Moves r (other t) (h, k) e = absurd (other-absurd r.phase t r.asked h)
stopping-Moves r completed (h, k) e = unfold is_terminal in cc
stopping-Moves r failed (h, k) e = unfold is_terminal in cc
stopping-Moves r cancelled (h, k) e = unfold is_terminal in cc

pub cancel-Moves :
    (now : ℕ) (r : ManagedRun) → IsConsistent r → Moves (some r) (some (cancel_owned now r))
unfolding cancel_owned
cancel-Moves now r h = elim (Bool-cases (is_cancellable r.run.status)) [
  | inl e ↦ rw e (stopping-Moves r r.run.status h (is_cancellable-live r.run.status e))
  | inr e ↦ rw e (inl refl)
]

pub shut_down-Moves :
    (now : ℕ) (r : ManagedRun) → IsConsistent r → Moves (some r) (some (shut_down_owned now r))
unfolding shut_down_owned
shut_down-Moves now r h = elim (Bool-cases (is_terminal r.run.status)) [
  | inl e ↦ rw e (inl refl)
  | inr e ↦ rw e (stopping-Moves r r.run.status h e)
]

-- The call of a cancel function that was taken
pub stop-Moves :
    (r : ManagedRun) → r.asked ≡ true → IsConsistent r → Moves (some r) (some (to_stopped r))
stop-Moves r a (h, k) = go r.run.status r.stopped h
  where
    go :
        (s : Status) (b : Bool)
        → Fits r.phase s r.asked
        → (life_of s b ≡ life_of s true) ⊎ LifeStep (life_of s b) (life_of s true)
    go running true f = inl refl
    go running false f = inr cut_active
    go cancelling true f = inl refl
    go cancelling false f = inr cut_stopping
    go queued b f = inl refl
    go completed b f = inl refl
    go failed b f = inl refl
    go cancelled b f = inl refl
    go (other t) b f = inl refl

-- A run that is being claimed may disappear.
pub withdraw-Moves : (r : ManagedRun) → r.phase ≡ claiming → IsConsistent r → Moves (some r) none
withdraw-Moves r e (h, k) = go r.run.status (subst (λ q. Fits q r.run.status r.asked) e h)
  where
    go :
        (s : Status)
        → Fits claiming s r.asked
        → (life_of s r.stopped ≡ absent) ⊎ LifeStep (life_of s r.stopped) absent
    go queued f = inr withdraw
    go cancelling f = inr (withdraw_stopped r.stopped)
    go _ f = absurd f

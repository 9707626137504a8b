-- ===== src/Gateway/Manager/Untouched.antt =====
-- What the calls of gateway/run_manager.go do to the entry of a run that has ended: nothing.
use kkode.Prelude.{
  ℕ, Bool, true, false, [], ◌∷◌, ◌≡◌, ◌≢◌, refl, sym, ap, ◌∙◌, arith, Option, none, some,
  Bool-cases, Option-cases, inl, inr, Result, ok, err,
}
use kkode.Strings.{Text, text_eq}
use kkode.Strings.Prefixes.{text_eq_iff}
use kkode.Gateway.Runs.{
  Status, queued, running, cancelling, completed, failed, cancelled, other, Run, StartRequest,
  is_terminal, same_idempotent_run,
}
use kkode.Gateway.Manager.{
  Phase, claiming, ended, ManagedRun, Runs, Manager, find, modify, is_cancellable, cancel_owned,
  shut_down_owned, shut_down_all, changed, drop_run, to_waiting,
}
use kkode.Gateway.Manager.Starting.{look_up, claimed}

-- A change of a run under some id leaves another run, or the same one if the change keeps it.
pub find-modify :
    (f : ManagedRun → ManagedRun) (id j : Text) (r : ManagedRun) (rs : Runs)
    → find id rs ≡ some r
    → (find j rs ≡ some r → f r ≡ r)
    → find id (modify j f rs) ≡ some r
unfolding find modify
find-modify f id j r [] e k = e
find-modify f id j r ((i, m) ∷ rs) e k = elim (Bool-cases (text_eq i id)) [
  | inl p ↦ elim (Bool-cases (text_eq i j)) [
    | inl q ↦ rw (q, p) (ap some (same m (rw p at e) (λ h. k (rw q h))))
    | inr q ↦ rw (q, p) (rw p at e)
  ]
  | inr p ↦ elim (Bool-cases (text_eq i j)) [
    | inl q ↦ rw (q, p) (rw p at e)
    | inr q ↦ rw (q, p) (find-modify f id j r rs (rw p at e) (λ h. k (rw q h)))
  ]
]
  where
    same : (m : ManagedRun) → some m ≡ some r → (some m ≡ some r → f r ≡ r) → f m ≡ r
    same m e k = ap f (inj e) ∙ k e
      where
        inj : some m ≡ some r → m ≡ r
        inj e = ground arith

pub find-shut_down_all :
    (now : ℕ) (id : Text) (r : ManagedRun) (rs : Runs)
    → find id rs ≡ some r
    → is_terminal r.run.status ≡ true
    → find id (shut_down_all now rs) ≡ some r
unfolding find shut_down_all
find-shut_down_all now id r [] e t = e
find-shut_down_all now id r ((i, m) ∷ rs) e t = elim (Bool-cases (text_eq i id)) [
  | inl p ↦ rw p (ap some (same m (rw p at e)))
  | inr p ↦ rw p (find-shut_down_all now id r rs (rw p at e) t)
]
  where
    kept : shut_down_owned now r ≡ r
    kept = unfold shut_down_owned in (rw t refl)

    same : (m : ManagedRun) → some m ≡ some r → shut_down_owned now m ≡ r
    same m e = ap (shut_down_owned now) (inj e) ∙ kept
      where
        inj : some m ≡ some r → m ≡ r
        inj e = ground arith

-- A run in another phase than the end is not the ended one.
pub not_ended :
    (p : Phase) (f : ManagedRun → ManagedRun) (a r : ManagedRun) (o : Option ManagedRun)
    → (p ≡ ended → ⊥)
    → o ≡ some a
    → a.phase ≡ p
    → r.phase ≡ ended
    → o ≡ some r
    → f r ≡ r
not_ended p f a r o n e q h k = absurd (n (sym q ∙ ap ManagedRun.phase (inj (sym e ∙ k)) ∙ h))
  where
    inj : some a ≡ some r → a ≡ r
    inj e = ground arith

pub changed-find :
    (m : Manager) (id j : Text) (f : ManagedRun → ManagedRun) (r : ManagedRun)
    → find id m.runs ≡ some r
    → (find j m.runs ≡ some r → f r ≡ r)
    → find id (changed m j f).runs ≡ some r
unfolding changed find
changed-find m id j f r e k = elim (Option-cases (find j m.runs)) [
  | inl n ↦ rw (n, changed) e
  | inr (a, n) ↦ rw (n, changed) (find-modify f id j r m.runs e k)
]

pub cancel_owned-same :
    (now : ℕ) (r : ManagedRun) → is_terminal r.run.status ≡ true → cancel_owned now r ≡ r
cancel_owned-same now r t = unfold cancel_owned in (rw (dead r.run.status t) refl)
  where
    dead : (s : Status) → is_terminal s ≡ true → is_cancellable s ≡ false
    dead queued h = unfold is_terminal in cc
    dead running h = unfold is_terminal in cc
    dead completed h = unfold is_cancellable in refl
    dead failed h = unfold is_cancellable in refl
    dead cancelled h = unfold is_cancellable in refl
    dead cancelling h = unfold is_cancellable in refl
    dead (other t) h = unfold is_cancellable in refl

pub some_inj : (a b : ManagedRun) → some a ≡ some b → a ≡ b
some_inj a b e = ground arith

pub look_up-find :
    (req : StartRequest) (now : ℕ) (m : Manager) (id : Text) (r : ManagedRun)
    → find id m.runs ≡ some r
    → find id (look_up req now m).1.runs ≡ some r
unfolding look_up find
look_up-find req now m id r h = elim (Option-cases (find req.run_id m.runs)) [
  | inl n ↦ elim (Bool-cases (text_eq req.run_id id)) [
    | inl e ↦ absurd (none_some (sym n ∙ ap (λ x. find x m.runs) ((text_eq_iff _ id).0 e) ∙ h))
    | inr e ↦ rw (n, look_up) (rw e h)
  ]
  | inr (a, e) ↦
      rw (e, look_up)
        (elim (Bool-cases (same_idempotent_run a.run req)) [ inl q ↦ rw q h | inr q ↦ rw q h ])
]
  where
    none_some : {a : ManagedRun} → none ≡ some a → ⊥
    none_some e = cc

-- A run that is not the one being claimed stays when that one is deleted.
pub find-drop_run :
    (id j : Text) (r a : ManagedRun) (rs : Runs)
    → find id rs ≡ some r
    → find j rs ≡ some a
    → r ≢ a
    → find id (drop_run j rs) ≡ some r
unfolding find drop_run
find-drop_run id j r a [] h e n = h
find-drop_run id j r a ((i, m) ∷ rs) h e n = elim (Bool-cases (text_eq i j)) [
  | inl q ↦ elim (Bool-cases (text_eq i id)) [
    | inl p ↦ absurd (n (sym (some_inj m r (rw p at h)) ∙ some_inj m a (rw q at e)))
    | inr p ↦ rw q (rw p at h)
  ]
  | inr q ↦ elim (Bool-cases (text_eq i id)) [
    | inl p ↦ rw (q, p) (rw p at h)
    | inr p ↦ rw (q, p) (find-drop_run id j r a rs (rw p at h) (rw q at e) n)
  ]
]

pub apart : (r a : ManagedRun) → r.phase ≡ ended → a.phase ≡ claiming → r ≢ a
apart r a d p e = ended_claiming (sym d ∙ ap ManagedRun.phase e ∙ p)
  where
    ended_claiming : ended ≡ claiming → ⊥
    ended_claiming e = cc

pub claimed-find :
    (m : Manager) (id j : Text) (req : StartRequest) (said : Result Text (Run × Bool))
    (r a : ManagedRun)
    → find id m.runs ≡ some r
    → r.phase ≡ ended
    → find j m.runs ≡ some a
    → a.phase ≡ claiming
    → find id (claimed m j req said).1.runs ≡ some r
unfolding claimed
claimed-find m id j req (err x) r a h d e p = find-drop_run id j r a m.runs h e (apart r a d p)
claimed-find m id j req (ok (saved, false)) r a h d e p =
    let kept = find-drop_run id j r a m.runs h e (apart r a d p) in
    elim (Bool-cases (same_idempotent_run saved req)) [ inl q ↦ rw q kept | inr q ↦ rw q kept ]
claimed-find m id j req (ok (saved, true)) r a h d e p =
    find-modify to_waiting id j r m.runs h
      (not_ended claiming to_waiting a r (find j m.runs) (λ x. cc) e p d)

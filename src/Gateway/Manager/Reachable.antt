-- ===== src/Gateway/Manager/Reachable.antt =====
-- The run manager's invariant holds in every state that its steps reach.
use kkode.Prelude.{
  ℕ, Bool, true, [], ◌∷◌, ◌≡◌, refl, sym, ap, subst, arith, Option, none, some, All, Bool-cases,
  ◌↔◌, inl, inr,
}
use kkode.Strings.{Text, text_eq}
use kkode.Gateway.Runs.{Run, Status, queued, running, cancelling, is_terminal}
use kkode.Gateway.Manager.{
  Phase, claiming, waiting, holding, executing, ended, ManagedRun, Runs, Manager, find, to_refused,
  to_executing, shut_down_all,
}
use kkode.Gateway.Manager.Consistency.{
  Fits, IsConsistent, to_refused-IsConsistent, to_executing-IsConsistent,
}
use kkode.Gateway.Manager.Invariant.{
  Inv, EntryOk, held, holders, with_runs, with_runs-Inv, change-Inv, SlotsFit, SlotsFit-same,
  holders-shut_down_all,
}
use kkode.Gateway.Runs.Settling.{IsKnownResult}
use kkode.Gateway.Manager.Steps.{
  Step, acquire, refuse, begin, finish, cancel, stop, shut_down, submit, answer, Reach, here, next,
}
use kkode.Gateway.Manager.Preserved.{
  shut_down_all-EntryOk, look_up-Inv, claimed-Inv, stop-Inv, cancel-Inv, acquire-Inv, finish-Inv,
}

-- The starter returns nothing, or a run whose status the code compares with or that has none.
abbrev pub IsKnowing : (Option Run → Type 0) → Type 0
IsKnowing Allowed = (x : Option Run) → Allowed x → IsKnownResult x

pub Step-Inv :
    (Allowed : Option Run → Type 0) {m m' : Manager}
    → IsKnowing Allowed
    → Step Allowed m m'
    → Inv m
    → Inv m'
unfolding with_runs
Step-Inv Allowed {m} known (acquire id r e p room q) v =
    subst Inv (sym q) (acquire-Inv m id r e p room v)
Step-Inv Allowed {m} known (refuse id r now x e p s q) v =
    subst Inv (sym q)
      (change-Inv m id (to_refused now x) r e (to_refused-IsConsistent now x r) (sym (ap held p)) v)
Step-Inv Allowed {m} known (begin id r now e p q) v =
    subst Inv (sym q)
      (change-Inv m id (to_executing now) r e (to_executing-IsConsistent now r) (sym (ap held p)) v)
Step-Inv Allowed {m} known (finish id r req now result x c e p k s q) v =
    subst Inv (sym q) (finish-Inv m id r req now result x c e p (known result k) v)
Step-Inv Allowed {m} known (cancel id now q) v = subst Inv (sym q) (cancel-Inv m id now v)
Step-Inv Allowed {m} known (shut_down now q) v = subst Inv (sym q) (
    with_runs-Inv m (shut_down_all now m.runs) m.occupied _
      (shut_down_all-EntryOk now m.runs v.each)
      (SlotsFit-same m.slots m.occupied (holders m.runs) _ (sym (holders-shut_down_all now m.runs))
        v.slots_fit))
Step-Inv Allowed {m} known (stop id r e p q) v = subst Inv (sym q) (stop-Inv m id r e p v)
Step-Inv Allowed {m} known (submit req now q) v = subst Inv (sym q) (look_up-Inv req now m v)
Step-Inv Allowed {m} known (answer id r req said e p q) v =
    subst Inv (sym q) (claimed-Inv m id r req said e p v)

pub Reach-Inv :
    (Allowed : Option Run → Type 0) {m m' : Manager}
    → IsKnowing Allowed
    → Reach Allowed m m'
    → Inv m
    → Inv m'
Reach-Inv Allowed known here v = v
Reach-Inv Allowed known (next r s) v = Step-Inv Allowed known s (Reach-Inv Allowed known r v)

-- A manager that has no run yet, with the slots that it was made with.
abbrev pub fresh : Option ℕ → Manager
fresh slots = record { runs = []; slots = slots; occupied = 0; snapshots = [] }

pub fresh-Inv : (slots : Option ℕ) → Inv (fresh slots)
unfolding holders
fresh-Inv none = record { each = tt; slots_fit = tt }
fresh-Inv (some c) = record { each = tt; slots_fit = (refl, omega arith) }

pub find-All :
    (id : Text) (r : ManagedRun) (rs : Runs) → find id rs ≡ some r → All EntryOk rs → IsConsistent r
unfolding find
find-All id r [] e h = absurd (none_some e)
  where
    none_some : {a : ManagedRun} → none ≡ some a → ⊥
    none_some e = cc
find-All id r ((j, m) ∷ rs) e h = elim (Bool-cases (text_eq j id)) [
  | inl q ↦ subst IsConsistent (some_inj m r (rw q at e)) h.0
  | inr q ↦ find-All id r rs (rw q at e) h.1
]
  where
    some_inj : (a b : ManagedRun) → some a ≡ some b → a ≡ b
    some_inj a b e = ground arith

-- In every state that a fresh manager reaches, the number of slots taken is the number of runs that
-- hold one, and where there is a limit it is at most that limit. The starter returns nothing, or a
-- run whose status the code compares with or that has none.
pub Reach-slots :
    (Allowed : Option Run → Type 0) (slots : Option ℕ) {m : Manager}
    → IsKnowing Allowed
    → Reach Allowed (fresh slots) m
    → SlotsFit m.slots m.occupied (holders m.runs)
Reach-slots Allowed slots known h = (Reach-Inv Allowed known h (fresh-Inv slots)).slots_fit

settled_iff :
    (p : Phase) (s : Status) (b : Bool) → Fits p s b → (is_terminal s ≡ true) ↔ (p ≡ ended)
unfolding is_terminal
settled_iff ended s b h = (λ _. refl, λ _. h)
settled_iff claiming queued b h = (λ e. cc e, λ e. cc e)
settled_iff claiming cancelling b h = (λ e. cc e, λ e. cc e)
settled_iff claiming _ b h = absurd h
settled_iff waiting queued b h = (λ e. cc e, λ e. cc e)
settled_iff waiting cancelling b h = (λ e. cc e, λ e. cc e)
settled_iff waiting _ b h = absurd h
settled_iff holding queued b h = (λ e. cc e, λ e. cc e)
settled_iff holding cancelling b h = (λ e. cc e, λ e. cc e)
settled_iff holding _ b h = absurd h
settled_iff executing running b h = (λ e. cc e, λ e. cc e)
settled_iff executing cancelling b h = (λ e. cc e, λ e. cc e)
settled_iff executing _ b h = absurd h

-- In every state that a fresh manager reaches, a run has a terminal status exactly if its goroutine
-- has made its last update, and a cancellation or a shutdown has called its cancel function only if
-- it had taken it. The starter returns nothing, or a run whose status the code compares
-- with or that has none.
pub Reach-ended :
    (Allowed : Option Run → Type 0) (slots : Option ℕ) {m : Manager} (id : Text) (r : ManagedRun)
    → IsKnowing Allowed
    → Reach Allowed (fresh slots) m
    → find id m.runs ≡ some r
    → ((is_terminal r.run.status ≡ true) ↔ (r.phase ≡ ended)) × (r.stopped ≡ true → r.asked ≡ true)
Reach-ended Allowed slots {m} id r known h e =
    let (fits, asked) = find-All id r m.runs e (Reach-Inv Allowed known h (fresh-Inv slots)).each in
    (settled_iff r.phase r.run.status r.asked fits, asked)

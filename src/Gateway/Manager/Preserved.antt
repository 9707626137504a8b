-- ===== src/Gateway/Manager/Preserved.antt =====
-- Each call and each step of a goroutine keeps the run manager's invariant.
use kkode.Prelude.{
  ℕ, Bool, true, false, List, [], ◌∷◌, ◌≡◌, refl, sym, ap, subst, arith, Option, none, some, All,
  Bool-cases, Option-cases, inl, inr, Result, ok, err,
}
use kkode.Strings.{Text}
use kkode.Gateway.Runs.{Run, StartRequest, StarterError, same_idempotent_run}
use kkode.Gateway.Manager.{
  claiming, waiting, executing, ManagedRun, Runs, Manager, find, modify, has_room, take_slot,
  release_slot, drop_run, to_waiting, to_stopped, to_holding, to_ended, cancel_owned, shut_down_all,
  changed,
}
use kkode.Gateway.Manager.Consistency.{
  to_waiting-IsConsistent, to_holding-IsConsistent, to_stopped-IsConsistent,
  cancel_owned-IsConsistent, shut_down_owned-IsConsistent, to_ended-IsConsistent,
}
use kkode.Gateway.Manager.Invariant.{
  Inv, EntryOk, held, holders, holders-modify, holders-drop_run, drop_run-EntryOk, modify-EntryOk,
  with_runs, with_runs-Inv, changed_lem, change-Inv, SlotsFit-same, SlotsFit-take, SlotsFit-release,
  cancel_owned-phase,
}
use kkode.Gateway.Runs.Settling.{IsKnownResult}
use kkode.Gateway.Manager.Starting.{look_up, claimed, accepted}

pub shut_down_all-EntryOk :
    (now : ℕ) (rs : Runs) → All EntryOk rs → All EntryOk (shut_down_all now rs)
unfolding shut_down_all
shut_down_all-EntryOk now [] h = tt
shut_down_all-EntryOk now ((id, r) ∷ rs) h =
    (shut_down_owned-IsConsistent now r h.0, shut_down_all-EntryOk now rs h.1)

pub look_up-Inv : (req : StartRequest) (now : ℕ) (m : Manager) → Inv m → Inv (look_up req now m).1
unfolding look_up holders accepted
look_up-Inv req now m v = elim (Option-cases (find req.run_id m.runs)) [
  | inl e ↦
      rw (e, look_up)
        (record {
          each = ((refl, λ h. h), v.each);
          slots_fit = SlotsFit-same m.slots m.occupied (holders m.runs) _ (omega arith) v.slots_fit;
        })
  | inr (r, e) ↦
      rw (e, look_up)
        (elim (Bool-cases (same_idempotent_run r.run req)) [ inl q ↦ rw q v | inr q ↦ rw q v ])
]

pub dropped-Inv :
    (m : Manager) (id : Text) (r : ManagedRun)
    → find id m.runs ≡ some r
    → r.phase ≡ claiming
    → Inv m
    → Inv (record m { runs = drop_run id m.runs })
dropped-Inv m id r e p v = record {
  each = drop_run-EntryOk id m.runs v.each;
  slots_fit =
      SlotsFit-same m.slots m.occupied (holders m.runs) _
        (omega (arith, holders-drop_run id r m.runs e, ap held p)) v.slots_fit;
}

pub claimed-Inv :
    (m : Manager) (id : Text) (r : ManagedRun) (req : StartRequest)
    (said : Result Text (Run × Bool))
    → find id m.runs ≡ some r
    → r.phase ≡ claiming
    → Inv m
    → Inv (claimed m id req said).1
unfolding claimed
claimed-Inv m id r req (err x) e p v = dropped-Inv m id r e p v
claimed-Inv m id r req (ok (saved, false)) e p v =
    elim (Bool-cases (same_idempotent_run saved req)) [
      | inl q ↦ rw q (dropped-Inv m id r e p v)
      | inr q ↦ rw q (dropped-Inv m id r e p v)
    ]
claimed-Inv m id r req (ok (saved, true)) e p v = record {
  each = modify-EntryOk to_waiting id r m.runs e (to_waiting-IsConsistent r p) v.each;
  slots_fit =
      SlotsFit-same m.slots m.occupied (holders m.runs) _
        (omega (arith, holders-modify to_waiting id r m.runs e, ap held p)) v.slots_fit;
}

pub stop-Inv :
    (m : Manager) (id : Text) (r : ManagedRun)
    → find id m.runs ≡ some r
    → r.asked ≡ true
    → Inv m
    → Inv (record m { runs = modify id to_stopped m.runs })
stop-Inv m id r e p v = record {
  each = modify-EntryOk to_stopped id r m.runs e (to_stopped-IsConsistent r p) v.each;
  slots_fit =
      SlotsFit-same m.slots m.occupied (holders m.runs) _
        (omega (arith, holders-modify to_stopped id r m.runs e)) v.slots_fit;
}

pub cancel-Inv : (m : Manager) (id : Text) (now : ℕ) → Inv m → Inv (changed m id (cancel_owned now))
cancel-Inv m id now v = elim (Option-cases (find id m.runs)) [
  | inl e ↦ subst Inv (sym (unchanged e)) v
  | inr (r, e) ↦
      change-Inv m id (cancel_owned now) r e (cancel_owned-IsConsistent now r)
        (ap held (cancel_owned-phase now r)) v
]
  where
    unchanged : find id m.runs ≡ none → changed m id (cancel_owned now) ≡ m
    unchanged e = unfold changed in (rw (e, changed) refl)

pub acquire-Inv :
    (m : Manager) (id : Text) (r : ManagedRun)
    → find id m.runs ≡ some r
    → r.phase ≡ waiting
    → has_room m ≡ true
    → Inv m
    → Inv (with_runs m (modify id to_holding m.runs) (take_slot m.slots m.occupied) m.snapshots)
unfolding has_room
acquire-Inv m id r e p room v =
    with_runs-Inv m _ _ m.snapshots
      (modify-EntryOk to_holding id r m.runs e (to_holding-IsConsistent r p) v.each)
      (SlotsFit-take m.slots m.occupied (holders m.runs) _ room
        (omega (arith, holders-modify to_holding id r m.runs e, ap held p)) v.slots_fit)

pub finish-Inv :
    (m : Manager) (id : Text) (r : ManagedRun) (req : StartRequest) (now : ℕ) (result : Option Run)
    (x : Option StarterError) (c : Option Text)
    → find id m.runs ≡ some r
    → r.phase ≡ executing
    → IsKnownResult result
    → Inv m
    → Inv (record (changed m id (to_ended req now result x c)) {
      occupied = release_slot m.slots m.occupied;
    })
finish-Inv m id r req now result x c e p k v =
    let f = to_ended req now result x c in
    let (ps, q) = changed_lem m id f r e in
    subst (λ y. Inv (record y { occupied = release_slot m.slots m.occupied })) (sym q) (released ps)
  where
    f : ManagedRun → ManagedRun
    f = to_ended req now result x c

    released :
        (ps : List Run)
        → Inv (record (with_runs m (modify id f m.runs) m.occupied ps) {
          occupied = release_slot m.slots m.occupied;
        })
    released ps =
        unfold with_runs in
        (record {
          each =
              modify-EntryOk f id r m.runs e (to_ended-IsConsistent req now result x c r p k)
                v.each;
          slots_fit =
              SlotsFit-release m.slots m.occupied (holders m.runs) _
                (omega (arith, holders-modify f id r m.runs e, ap held p)) v.slots_fit;
        })

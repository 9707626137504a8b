-- ===== src/Gateway/Manager/Draining.antt =====
-- How the goroutines of gateway/run_manager.go bring the runs to their ends.
use kkode.Prelude.{
  ℕ, zero, suc, ◌≤◌, ◌<◌, Bool, true, false, [], ◌≡◌, refl, sym, ap, subst, arith, Option, none,
  some, ok, Bool-cases, inl, inr, ltb, ltb→lt,
}
use kkode.Strings.{Text}
use kkode.Gateway.Runs.{Run, StartRequest}
use kkode.Gateway.Manager.{
  Phase, claiming, waiting, holding, executing, ended, ManagedRun, Manager, find, modify, has_room,
  to_waiting, to_holding, to_executing, to_ended, changed, take_slot, release_slot,
}
use kkode.Gateway.Manager.Invariant.{Inv, held, total, holders, SlotsFit}
use kkode.Gateway.Manager.Reachable.{IsKnowing, Step-Inv, Reach-Inv, fresh, fresh-Inv}
use kkode.Gateway.Manager.Steps.{Step, SeesStop, acquire, begin, finish, answer, Reach}
use kkode.Gateway.Manager.Starting.{claimed}
use kkode.Gateway.Manager.Distinct.{AreDistinct, Step-AreDistinct, Reach-AreDistinct}
use kkode.Gateway.Manager.Work.{
  all_ended, holders-ended, remaining, Pick, pick, HasCapacity, modify-less, changed-slots,
  changed-less,
}

SeesStop-some : (b : Bool) → SeesStop b (some [])
SeesStop-some true = tt
SeesStop-some false = tt

-- The steps of the goroutines that carry runs out, and a store that takes a run in.
abbrev pub IsWork : {Allowed : Option Run → Type 0} {m m' : Manager} → Step Allowed m m' → Type 0
IsWork (acquire id r e p room q) = Unit {0}
IsWork (begin id r now e p q) = Unit {0}
IsWork (finish id r req now result x c e p a s q) = Unit {0}
IsWork (answer id r req (ok (saved, true)) e p q) = Unit {0}
IsWork _ = ⊥

-- The states that such steps alone lead to.
pub data Works (Allowed : Option Run → Type 0) : Manager → Manager → Type 0 where
  done : {m : Manager} → Works Allowed m m
  on : {a b c : Manager} (s : Step Allowed a b) → IsWork s → Works Allowed b c → Works Allowed a c

module _ (Allowed : Option Run → Type 0) (req : StartRequest) where
  -- A step that leaves less to do.
  record Advance (m : Manager) : Type 0 where
    after : Manager
    step : Step Allowed m after
    is_work : IsWork step
    same_slots : after.slots ≡ m.slots
    less : total remaining after.runs < total remaining m.runs

  abbrev finished : ManagedRun → ManagedRun
  finished = to_ended req 0 none none (some [])

  Advance-finish :
      (m : Manager) (id : Text) (r : ManagedRun)
      → Allowed none
      → find id m.runs ≡ some r
      → r.phase ≡ executing
      → Advance m
  Advance-finish m id r a e p = record {
    after = record (changed m id finished) { occupied = release_slot m.slots m.occupied };
    step = finish id r req 0 none none (some []) e p a (SeesStop-some r.stopped) refl;
    is_work = tt;
    same_slots = changed-slots m id finished r e;
    less = changed-less m id finished r e (omega (arith, ap remaining p));
  }

  Advance-begin :
      (m : Manager) (id : Text) (r : ManagedRun)
      → find id m.runs ≡ some r
      → r.phase ≡ holding
      → Advance m
  Advance-begin m id r e p = record {
    after = changed m id (to_executing 0);
    step = begin id r 0 e p refl;
    is_work = tt;
    same_slots = changed-slots m id (to_executing 0) r e;
    less = changed-less m id (to_executing 0) r e (omega (arith, ap remaining p));
  }

  Advance-acquire :
      (m : Manager) (id : Text) (r : ManagedRun)
      → find id m.runs ≡ some r
      → r.phase ≡ waiting
      → has_room m ≡ true
      → Advance m
  Advance-acquire m id r e p room = record {
    after = record m {
      runs = modify id to_holding m.runs;
      occupied = take_slot m.slots m.occupied;
    };
    step = acquire id r e p room refl;
    is_work = tt;
    same_slots = refl;
    less = modify-less to_holding id r m.runs e (omega (arith, ap remaining p));
  }

  Advance-answer :
      (m : Manager) (id : Text) (r : ManagedRun)
      → find id m.runs ≡ some r
      → r.phase ≡ claiming
      → Advance m
  Advance-answer m id r e p = record {
    after = (claimed m id req (ok (r.run, true))).1;
    step = answer id r req (ok (r.run, true)) e p refl;
    is_work = tt;
    same_slots = unfold claimed in refl;
    less = unfold claimed in modify-less to_waiting id r m.runs e (omega (arith, ap remaining p));
  }

  Advance-held :
      (m : Manager) (id : Text) (r : ManagedRun)
      → Allowed none
      → find id m.runs ≡ some r
      → 0 < held r.phase
      → Advance m
  Advance-held m id r a e h = by_phase r.phase refl h
    where
      by_phase : (p : Phase) → r.phase ≡ p → 0 < held p → Advance m
      by_phase executing q h = Advance-finish m id r a e q
      by_phase holding q h = Advance-begin m id r e q
      by_phase waiting q h = absurd (omega (arith, h))
      by_phase claiming q h = absurd (omega (arith, h))
      by_phase ended q h = absurd (omega (arith, h))

  -- Where no slot is free, some run holds one.
  holders-full :
      (slots : Option ℕ) (occupied n : ℕ)
      → HasCapacity slots
      → SlotsFit slots occupied n
      → (elim slots [ none ↦ true | some c ↦ ltb occupied c ]) ≡ false
      → 0 < n
  holders-full none occupied n c f e = absurd (cc e)
  holders-full (some k) occupied n c f e = ground (arith, c, f.0, f.1)

  Advance-waiting :
      (m : Manager) (id : Text) (r : ManagedRun)
      → Allowed none
      → Inv m
      → AreDistinct m.runs
      → HasCapacity m.slots
      → find id m.runs ≡ some r
      → r.phase ≡ waiting
      → Advance m
  Advance-waiting m id r a v d c e p = elim (Bool-cases (has_room m)) [
    | inl room ↦ Advance-acquire m id r e p room
    | inr full ↦
        let k = pick held m.runs d (
          unfold has_room holders in
          holders-full m.slots m.occupied (holders m.runs) c v.slots_fit full) in
        Advance-held m k.id k.run a k.found k.heavy
  ]

  -- Where some run has not ended, there is a step of a goroutine.
  advance :
      (m : Manager)
      → Allowed none
      → Inv m
      → AreDistinct m.runs
      → HasCapacity m.slots
      → 0 < total remaining m.runs
      → Advance m
  advance m a v d c h = by_phase k.run.phase refl k.heavy
    where
      k : Pick remaining m.runs
      k = pick remaining m.runs d h

      by_phase : (p : Phase) → k.run.phase ≡ p → 0 < remaining p → Advance m
      by_phase claiming q h = Advance-answer m k.id k.run k.found q
      by_phase waiting q h = Advance-waiting m k.id k.run a v d c k.found q
      by_phase holding q h = Advance-begin m k.id k.run k.found q
      by_phase executing q h = Advance-finish m k.id k.run a k.found q
      by_phase ended q h = absurd (omega (arith, h))

  drain :
      (n : ℕ) (m : Manager)
      → IsKnowing Allowed
      → Allowed none
      → Inv m
      → AreDistinct m.runs
      → HasCapacity m.slots
      → total remaining m.runs ≤ n
      → (m' : Manager) × Works Allowed m m' × Inv m' × (total remaining m'.runs ≡ 0)
  drain zero m known a v d c h = (m, done, v, omega (arith, h))
  drain (suc n) m known a v d c h = elim (Bool-cases (ltb 0 (total remaining m.runs))) [
    | inl e ↦
        let s = advance m a v d c (ltb→lt 0 (total remaining m.runs) e) in
        let (m', r, w, z) =
          drain n s.after known a (Step-Inv Allowed known s.step v)
            (Step-AreDistinct Allowed s.step d) (subst HasCapacity (sym s.same_slots) c)
            (omega (arith, s.less, h)) in
        (m', on s.step s.is_work r, w, z)
    | inr e ↦ (m, done, v, ground (arith, e))
  ]

-- From every state that a fresh manager reaches, whatever was submitted, cancelled or shut down
-- before, a store that takes the runs in that are being claimed, and then the goroutines alone, with
-- no further cancellation and no run giving up, can carry every run through its slot and its starter
-- to the end; there no slot is taken any more. The manager has at least one slot or no limit, and
-- the starter may return nothing.
pub Reach-drains :
    (Allowed : Option Run → Type 0) (req : StartRequest) (slots : Option ℕ) {m : Manager}
    → IsKnowing Allowed
    → Allowed none
    → HasCapacity m.slots
    → Reach Allowed (fresh slots) m
    → (m' : Manager) × Works Allowed m m'
      × SlotsFit m'.slots m'.occupied 0
      × ((id : Text) (r : ManagedRun) → find id m'.runs ≡ some r → r.phase ≡ ended)
Reach-drains Allowed req slots {m} known a c h =
    let (m', r, v, z) =
      drain Allowed req (total remaining m.runs) m known a
        (Reach-Inv Allowed known h (fresh-Inv slots)) (Reach-AreDistinct Allowed h tt) c
        (omega arith) in
    (
      m',
      r,
      subst (SlotsFit m'.slots m'.occupied) (holders-ended m'.runs z) v.slots_fit,
      λ id run. all_ended m'.runs id run z,
    )

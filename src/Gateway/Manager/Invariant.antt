-- ===== src/Gateway/Manager/Invariant.antt =====
-- What holds of the run manager in every state that it reaches.
use kkode.Prelude.{
  ℕ, ◌+◌, ◌≤◌, true, List, [], ◌∷◌, ◌++◌, ◌≡◌, refl, sym, ap, ap₂, subst, arith, Option, none, some,
  All, Bool-cases, inl, inr, ltb,
}
use kkode.Strings.{Text, text_eq}
use kkode.Gateway.Runs.{Run, clone_run}
use kkode.Gateway.Manager.{
  Phase, claiming, waiting, holding, executing, ended, ManagedRun, Runs, Manager, find, modify,
  drop_run, take_slot, release_slot, cancel_owned, shut_down_owned, shut_down_all, changed,
}
use kkode.Gateway.Manager.Consistency.{IsConsistent}

some-injective : (a b : ManagedRun) → some a ≡ some b → a ≡ b
some-injective a b e = ground arith

modify-All :
    (P : Text × ManagedRun → Type 0) (f : ManagedRun → ManagedRun) (id : Text) (r : ManagedRun)
    (rs : Runs)
    → find id rs ≡ some r
    → ((j : Text) → P (j, r) → P (j, f r))
    → All P rs
    → All P (modify id f rs)
unfolding find modify
modify-All P f id r [] e k h = tt
modify-All P f id r ((j, m) ∷ rs) e k h = elim (Bool-cases (text_eq j id)) [
  | inl q ↦ rw q (
    subst (λ x. P (j, f x)) (sym (some-injective m r (rw q at e)))
        (k j (subst (λ x. P (j, x)) (some-injective m r (rw q at e)) h.0)),
    h.1,
  )
  | inr q ↦ rw q (h.0, modify-All P f id r rs (rw q at e) k h.1)
]

abbrev pub EntryOk : Text × ManagedRun → Type 0
EntryOk (id, r) = IsConsistent r

-- A slot is held from `acquireRunSlot` on until the end.
abbrev pub held : Phase → ℕ
held claiming = 0
held waiting = 0
held holding = 1
held executing = 1
held ended = 0

-- The sum of a weight over the phases of the runs.
unfoldable pub total : (Phase → ℕ) → Runs → ℕ
total w [] = 0
total w ((id, r) ∷ rs) = w r.phase + total w rs

unfoldable pub holders : Runs → ℕ
unfolding total
holders rs = total held rs

pub total-modify :
    (w : Phase → ℕ) (f : ManagedRun → ManagedRun) (id : Text) (r : ManagedRun) (rs : Runs)
    → find id rs ≡ some r
    → total w (modify id f rs) + w r.phase ≡ total w rs + w (f r).phase
unfolding find modify total
total-modify w f id r [] e = absurd (none_some e)
  where
    none_some : {a : ManagedRun} → none ≡ some a → ⊥
    none_some e = cc
total-modify w f id r ((j, m) ∷ rs) e = elim (Bool-cases (text_eq j id)) [
  | inl q ↦ rw q (
      subst (λ x. w (f x).phase + total w rs + w r.phase ≡ w x.phase + total w rs + w (f r).phase)
        (sym (some-injective m r (rw q at e))) (omega arith))
  | inr q ↦ rw q (omega (arith, total-modify w f id r rs (rw q at e)))
]

pub total-drop_run :
    (w : Phase → ℕ) (id : Text) (r : ManagedRun) (rs : Runs)
    → find id rs ≡ some r
    → total w (drop_run id rs) + w r.phase ≡ total w rs
unfolding find drop_run total
total-drop_run w id r [] e = cc e
total-drop_run w id r ((j, m) ∷ rs) e = elim (Bool-cases (text_eq j id)) [
  | inl q ↦ rw q (omega (arith, ap (λ x. w x.phase) (some-injective m r (rw q at e))))
  | inr q ↦ rw q (omega (arith, total-drop_run w id r rs (rw q at e)))
]

pub drop_run-EntryOk : (id : Text) (rs : Runs) → All EntryOk rs → All EntryOk (drop_run id rs)
unfolding drop_run
drop_run-EntryOk id [] h = tt
drop_run-EntryOk id ((j, m) ∷ rs) h = elim (Bool-cases (text_eq j id)) [
  | inl q ↦ rw q h.1
  | inr q ↦ rw q (h.0, drop_run-EntryOk id rs h.1)
]

pub holders-drop_run :
    (id : Text) (r : ManagedRun) (rs : Runs)
    → find id rs ≡ some r
    → holders (drop_run id rs) + held r.phase ≡ holders rs
unfolding holders
holders-drop_run id r rs e = total-drop_run held id r rs e

pub holders-modify :
    (f : ManagedRun → ManagedRun) (id : Text) (r : ManagedRun) (rs : Runs)
    → find id rs ≡ some r
    → holders (modify id f rs) + held r.phase ≡ holders rs + held (f r).phase
unfolding holders
holders-modify f id r rs e = total-modify held f id r rs e

pub shut_down_owned-phase : (now : ℕ) (r : ManagedRun) → (shut_down_owned now r).phase ≡ r.phase
unfolding shut_down_owned
shut_down_owned-phase now r = ground arith

pub cancel_owned-phase : (now : ℕ) (r : ManagedRun) → (cancel_owned now r).phase ≡ r.phase
unfolding cancel_owned
cancel_owned-phase now r = ground arith

pub holders-shut_down_all : (now : ℕ) (rs : Runs) → holders (shut_down_all now rs) ≡ holders rs
unfolding holders shut_down_all
holders-shut_down_all now [] = refl
holders-shut_down_all now ((id, r) ∷ rs) =
    ap₂ ◌+◌ (ap held (shut_down_owned-phase now r)) (holders-shut_down_all now rs)

-- The channel of slots holds one token for each run that has one, and never more than its capacity.
abbrev pub SlotsFit : Option ℕ → ℕ → ℕ → Type 0
SlotsFit none occupied n = Unit {0}
SlotsFit (some c) occupied n = (occupied ≡ n) × (occupied ≤ c)

pub record Inv (m : Manager) : Type 0 where
  pub each : All EntryOk m.runs
  pub slots_fit : SlotsFit m.slots m.occupied (holders m.runs)

pub modify-EntryOk :
    (f : ManagedRun → ManagedRun) (id : Text) (r : ManagedRun) (rs : Runs)
    → find id rs ≡ some r
    → (IsConsistent r → IsConsistent (f r))
    → All EntryOk rs
    → All EntryOk (modify id f rs)
modify-EntryOk f id r rs e k h = modify-All EntryOk f id r rs e (λ j. k) h

pub SlotsFit-same : (c : Option ℕ) (n a b : ℕ) → a ≡ b → SlotsFit c n a → SlotsFit c n b
SlotsFit-same none n a b e h = tt
SlotsFit-same (some c) n a b e h = omega arith

pub SlotsFit-take :
    (c : Option ℕ) (n a b : ℕ)
    → (elim c [ none ↦ true | some k ↦ ltb n k ]) ≡ true
    → b ≡ a + 1
    → SlotsFit c n a
    → SlotsFit c (take_slot c n) b
unfolding take_slot
SlotsFit-take none n a b room e h = tt
SlotsFit-take (some c) n a b room e h = ground arith

pub SlotsFit-release :
    (c : Option ℕ) (n a b : ℕ) → b + 1 ≡ a → SlotsFit c n a → SlotsFit c (release_slot c n) b
unfolding release_slot
SlotsFit-release none n a b e h = tt
SlotsFit-release (some c) n a b e h = omega arith

-- The state after a change of one run, without the event.
unfoldable pub with_runs : Manager → Runs → ℕ → List Run → Manager
with_runs m rs n ps = record m { runs = rs; occupied = n; snapshots = ps }

pub with_runs-Inv :
    (m : Manager) (rs : Runs) (n : ℕ) (ps : List Run)
    → All EntryOk rs
    → SlotsFit m.slots n (holders rs)
    → Inv (with_runs m rs n ps)
unfolding with_runs
with_runs-Inv m rs n ps h k = record { each = h; slots_fit = k }

pub changed_lem :
    (m : Manager) (id : Text) (f : ManagedRun → ManagedRun) (r : ManagedRun)
    → find id m.runs ≡ some r
    → (ps : List Run) × (changed m id f ≡ with_runs m (modify id f m.runs) m.occupied ps)
unfolding changed with_runs
changed_lem m id f r e = (m.snapshots ++ clone_run (f r).run ∷ [], rw (e, changed) refl)

pub change-Inv :
    (m : Manager) (id : Text) (f : ManagedRun → ManagedRun) (r : ManagedRun)
    → find id m.runs ≡ some r
    → (IsConsistent r → IsConsistent (f r))
    → held (f r).phase ≡ held r.phase
    → Inv m
    → Inv (changed m id f)
change-Inv m id f r e k same v =
    let (ps, q) = changed_lem m id f r e in
    subst Inv (sym q) (
      with_runs-Inv m _ _ ps (modify-EntryOk f id r m.runs e k v.each) (
        SlotsFit-same m.slots m.occupied (holders m.runs) _
          (omega (arith, holders-modify f id r m.runs e, same)) v.slots_fit))

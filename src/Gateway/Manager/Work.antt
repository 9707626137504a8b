-- ===== src/Gateway/Manager/Work.antt =====
-- The work that the runs of gateway/run_manager.go have before them, and the change of one of them.
use kkode.Prelude.{
  ℕ, ◌+◌, ◌<◌, false, [], ◌∷◌, ◌≡◌, refl, sym, ap, subst, ◌∙◌, arith, Option, none, some,
  Bool-cases, inl, inr, ltb, ltb→lt,
}
use kkode.Strings.{Text, text_eq}
use kkode.Strings.Prefixes.{text_eq_iff, text_eq_refl}
use kkode.Gateway.Manager.{
  Phase, claiming, waiting, holding, executing, ended, ManagedRun, Runs, Manager, find, modify,
  changed,
}
use kkode.Gateway.Manager.Invariant.{held, holders, total, total-modify, changed_lem, with_runs}
use kkode.Gateway.Manager.Distinct.{AreDistinct}

-- How many steps of its goroutine a run has before it.
abbrev pub remaining : Phase → ℕ
remaining claiming = 4
remaining waiting = 3
remaining holding = 2
remaining executing = 1
remaining ended = 0

-- A run that weighs something, where the runs together do.
pub record Pick (w : Phase → ℕ) (rs : Runs) : Type 0 where
  pub id : Text
  pub run : ManagedRun
  pub found : find id rs ≡ some run
  pub heavy : 0 < w run.phase

Pick-later :
    (w : Phase → ℕ) (i : Text) (m : ManagedRun) (rs : Runs)
    → find i rs ≡ none
    → Pick w rs
    → Pick w ((i, m) ∷ rs)
Pick-later w i m rs n k = record {
  id = k.id;
  run = k.run;
  found = elim (Bool-cases (text_eq i k.id)) [
    | inl e ↦ absurd (none_some (sym n ∙ ap (λ x. find x rs) ((text_eq_iff i k.id).0 e) ∙ k.found))
    | inr e ↦ unfold find in rw e k.found
  ];
  heavy = k.heavy;
}
  where
    none_some : {a : ManagedRun} → none ≡ some a → ⊥
    none_some e = cc

pub pick : (w : Phase → ℕ) (rs : Runs) → AreDistinct rs → 0 < total w rs → Pick w rs
unfolding total
pick w [] d h = absurd (omega (arith, h))
pick w ((i, m) ∷ rs) d h = elim (Bool-cases (ltb 0 (w m.phase))) [
  | inl e ↦ record {
    id = i;
    run = m;
    found = unfold find in rw (text_eq_refl i) refl;
    heavy = ltb→lt 0 (w m.phase) e;
  }
  | inr e ↦ Pick-later w i m rs d.0 (pick w rs d.1 (rest (w m.phase) (total w rs) e h))
]
  where
    rest : (a b : ℕ) → ltb 0 a ≡ false → 0 < a + b → 0 < b
    rest a b e h = ground (arith, h)

-- A limit on the runs at work lets at least one work.
abbrev pub HasCapacity : Option ℕ → Type 0
HasCapacity none = Unit {0}
HasCapacity (some c) = 0 < c

pub modify-less :
    (f : ManagedRun → ManagedRun) (id : Text) (r : ManagedRun) (rs : Runs)
    → find id rs ≡ some r
    → remaining (f r).phase < remaining r.phase
    → total remaining (modify id f rs) < total remaining rs
modify-less f id r rs e h = omega (arith, total-modify remaining f id r rs e, h)

pub changed-runs :
    (m : Manager) (id : Text) (f : ManagedRun → ManagedRun) (r : ManagedRun)
    → find id m.runs ≡ some r
    → (changed m id f).runs ≡ modify id f m.runs
unfolding with_runs
changed-runs m id f r e = ap (λ y. y.runs) (changed_lem m id f r e).1

pub changed-slots :
    (m : Manager) (id : Text) (f : ManagedRun → ManagedRun) (r : ManagedRun)
    → find id m.runs ≡ some r
    → (changed m id f).slots ≡ m.slots
unfolding with_runs
changed-slots m id f r e = ap (λ y. y.slots) (changed_lem m id f r e).1

pub changed-less :
    (m : Manager) (id : Text) (f : ManagedRun → ManagedRun) (r : ManagedRun)
    → find id m.runs ≡ some r
    → remaining (f r).phase < remaining r.phase
    → total remaining (changed m id f).runs < total remaining m.runs
changed-less m id f r e h =
    subst (λ rs. total remaining rs < total remaining m.runs) (sym (changed-runs m id f r e))
      (modify-less f id r m.runs e h)

some_inj : (a b : ManagedRun) → some a ≡ some b → a ≡ b
some_inj a b e = ground arith

ended-of : (p : Phase) → remaining p ≡ 0 → p ≡ ended
ended-of claiming h = absurd (omega (arith, h))
ended-of waiting h = absurd (omega (arith, h))
ended-of holding h = absurd (omega (arith, h))
ended-of executing h = absurd (omega (arith, h))
ended-of ended h = refl

pub all_ended :
    (rs : Runs) (id : Text) (r : ManagedRun)
    → total remaining rs ≡ 0
    → find id rs ≡ some r
    → r.phase ≡ ended
unfolding total find
all_ended [] id r h e = absurd (none_some e)
  where
    none_some : none ≡ some r → ⊥
    none_some e = cc
all_ended ((i, m) ∷ rs) id r h e = elim (Bool-cases (text_eq i id)) [
  | inl p ↦
      subst (λ x. x.phase ≡ ended) (some_inj m r (rw p at e)) (ended-of m.phase (omega (arith, h)))
  | inr p ↦ all_ended rs id r (omega (arith, h)) (rw p at e)
]

-- Runs with nothing before them hold no slot.
pub holders-ended : (rs : Runs) → total remaining rs ≡ 0 → holders rs ≡ 0
unfolding holders total
holders-ended [] h = refl
holders-ended ((i, m) ∷ rs) h =
    omega (arith, idle m.phase (omega (arith, h)), holders-ended rs (omega (arith, h)))
  where
    idle : (p : Phase) → remaining p ≡ 0 → held p ≡ 0
    idle claiming h = refl
    idle waiting h = refl
    idle holding h = absurd (omega (arith, h))
    idle executing h = absurd (omega (arith, h))
    idle ended h = refl

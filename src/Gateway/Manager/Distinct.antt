-- ===== src/Gateway/Manager/Distinct.antt =====
-- The ids under which the run manager of gateway/run_manager.go keeps its runs.
use kkode.Prelude.{
  ℕ, Bool, true, false, [], ◌∷◌, ◌≡◌, refl, sym, subst, Option, none, Bool-cases, Option-cases, inl,
  inr, Result, ok, err,
}
use kkode.Strings.{Text, text_eq}
use kkode.Gateway.Runs.{Run, StartRequest, same_idempotent_run}
use kkode.Gateway.Manager.{
  ManagedRun, Runs, Manager, find, modify, drop_run, shut_down_all, to_waiting, to_stopped,
  to_holding, to_ended, changed,
}
use kkode.Gateway.Manager.Steps.{
  Step, acquire, refuse, begin, finish, cancel, stop, shut_down, submit, answer, Reach, here, next,
}
use kkode.Gateway.Manager.Starting.{look_up, claimed}

-- No id stands twice.
abbrev pub AreDistinct : Runs → Type 0
AreDistinct [] = Unit {0}
AreDistinct ((id, r) ∷ rs) = (find id rs ≡ none) × AreDistinct rs

find-modify-none :
    (id j : Text) (f : ManagedRun → ManagedRun) (rs : Runs)
    → find id rs ≡ none
    → find id (modify j f rs) ≡ none
unfolding find modify
find-modify-none id j f [] h = refl
find-modify-none id j f ((i, m) ∷ rs) h = elim (Bool-cases (text_eq i id)) [
  | inl p ↦ absurd (cc (rw p at h))
  | inr p ↦ elim (Bool-cases (text_eq i j)) [
    | inl q ↦ rw (q, p) (rw p at h)
    | inr q ↦ rw (q, p) (find-modify-none id j f rs (rw p at h))
  ]
]

modify-AreDistinct :
    (j : Text) (f : ManagedRun → ManagedRun) (rs : Runs)
    → AreDistinct rs
    → AreDistinct (modify j f rs)
unfolding modify
modify-AreDistinct j f [] h = tt
modify-AreDistinct j f ((i, m) ∷ rs) h = elim (Bool-cases (text_eq i j)) [
  | inl q ↦ rw q h
  | inr q ↦ rw q (find-modify-none i j f rs h.0, modify-AreDistinct j f rs h.1)
]

changed-AreDistinct :
    (m : Manager) (j : Text) (f : ManagedRun → ManagedRun)
    → AreDistinct m.runs
    → AreDistinct (changed m j f).runs
unfolding changed
changed-AreDistinct m j f h = elim (Option-cases (find j m.runs)) [
  | inl n ↦ rw (n, changed) h
  | inr (a, n) ↦ rw (n, changed) (modify-AreDistinct j f m.runs h)
]

find-shut_down_all-none :
    (now : ℕ) (id : Text) (rs : Runs) → find id rs ≡ none → find id (shut_down_all now rs) ≡ none
unfolding find shut_down_all
find-shut_down_all-none now id [] h = refl
find-shut_down_all-none now id ((i, m) ∷ rs) h = elim (Bool-cases (text_eq i id)) [
  | inl p ↦ absurd (cc (rw p at h))
  | inr p ↦ rw p (find-shut_down_all-none now id rs (rw p at h))
]

shut_down_all-AreDistinct :
    (now : ℕ) (rs : Runs) → AreDistinct rs → AreDistinct (shut_down_all now rs)
unfolding shut_down_all
shut_down_all-AreDistinct now [] h = tt
shut_down_all-AreDistinct now ((i, m) ∷ rs) h =
    (find-shut_down_all-none now i rs h.0, shut_down_all-AreDistinct now rs h.1)

find-drop_run-none : (id j : Text) (rs : Runs) → find id rs ≡ none → find id (drop_run j rs) ≡ none
unfolding find drop_run
find-drop_run-none id j [] h = refl
find-drop_run-none id j ((i, m) ∷ rs) h = elim (Bool-cases (text_eq i id)) [
  | inl p ↦ absurd (cc (rw p at h))
  | inr p ↦ elim (Bool-cases (text_eq i j)) [
    | inl q ↦ rw q (rw p at h)
    | inr q ↦ rw (q, p) (find-drop_run-none id j rs (rw p at h))
  ]
]

drop_run-AreDistinct : (j : Text) (rs : Runs) → AreDistinct rs → AreDistinct (drop_run j rs)
unfolding drop_run
drop_run-AreDistinct j [] h = tt
drop_run-AreDistinct j ((i, m) ∷ rs) h = elim (Bool-cases (text_eq i j)) [
  | inl q ↦ rw q h.1
  | inr q ↦ rw q (find-drop_run-none i j rs h.0, drop_run-AreDistinct j rs h.1)
]

claimed-AreDistinct :
    (m : Manager) (j : Text) (req : StartRequest) (said : Result Text (Run × Bool))
    → AreDistinct m.runs
    → AreDistinct (claimed m j req said).1.runs
unfolding claimed
claimed-AreDistinct m j req (err e) h = drop_run-AreDistinct j m.runs h
claimed-AreDistinct m j req (ok (saved, false)) h =
    elim (Bool-cases (same_idempotent_run saved req)) [
      | inl e ↦ rw e (drop_run-AreDistinct j m.runs h)
      | inr e ↦ rw e (drop_run-AreDistinct j m.runs h)
    ]
claimed-AreDistinct m j req (ok (saved, true)) h = modify-AreDistinct j to_waiting m.runs h

look_up-AreDistinct :
    (req : StartRequest) (now : ℕ) (m : Manager)
    → AreDistinct m.runs
    → AreDistinct (look_up req now m).1.runs
unfolding look_up
look_up-AreDistinct req now m h = elim (Option-cases (find req.run_id m.runs)) [
  | inl e ↦ rw (e, look_up) (e, h)
  | inr (a, e) ↦
      rw (e, look_up)
        (elim (Bool-cases (same_idempotent_run a.run req)) [ inl q ↦ rw q h | inr q ↦ rw q h ])
]

pub Step-AreDistinct :
    (Allowed : Option Run → Type 0) {m m' : Manager}
    → Step Allowed m m'
    → AreDistinct m.runs
    → AreDistinct m'.runs
Step-AreDistinct Allowed {m} (acquire j r e p room q) h =
    subst (λ y. AreDistinct y.runs) (sym q) (modify-AreDistinct j to_holding m.runs h)
Step-AreDistinct Allowed {m} (refuse j r now x e p s q) h =
    subst (λ y. AreDistinct y.runs) (sym q) (changed-AreDistinct m j _ h)
Step-AreDistinct Allowed {m} (begin j r now e p q) h =
    subst (λ y. AreDistinct y.runs) (sym q) (changed-AreDistinct m j _ h)
Step-AreDistinct Allowed {m} (finish j r req now result x c e p k s q) h =
    subst (λ y. AreDistinct y.runs) (sym q)
      (changed-AreDistinct m j (to_ended req now result x c) h)
Step-AreDistinct Allowed {m} (cancel j now q) h =
    subst (λ y. AreDistinct y.runs) (sym q) (changed-AreDistinct m j _ h)
Step-AreDistinct Allowed {m} (shut_down now q) h =
    subst (λ y. AreDistinct y.runs) (sym q) (shut_down_all-AreDistinct now m.runs h)
Step-AreDistinct Allowed {m} (stop j r e p q) h =
    subst (λ y. AreDistinct y.runs) (sym q) (modify-AreDistinct j to_stopped m.runs h)
Step-AreDistinct Allowed {m} (submit req now q) h =
    subst (λ y. AreDistinct y.runs) (sym q) (look_up-AreDistinct req now m h)
Step-AreDistinct Allowed {m} (answer j r req said e p q) h =
    subst (λ y. AreDistinct y.runs) (sym q) (claimed-AreDistinct m j req said h)

pub Reach-AreDistinct :
    (Allowed : Option Run → Type 0) {m m' : Manager}
    → Reach Allowed m m'
    → AreDistinct m.runs
    → AreDistinct m'.runs
Reach-AreDistinct Allowed here h = h
Reach-AreDistinct Allowed (next r s) h = Step-AreDistinct Allowed s (Reach-AreDistinct Allowed r h)

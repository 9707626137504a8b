-- ===== src/Prelude/Results.antt =====
-- Results of fallible code: a value, or one of the program's errors.
use mathlib.Core.Path.{◌≡◌, refl}
use mathlib.Core.Logic.{◌⊎◌, inl, inr}
use mathlib.Core.Bool.{Bool, true, false}

pub data Result {ℓ} (E : Type 0) (A : Type ℓ) : Type ℓ where
  ok : A → Result E A
  err : E → Result E A

infixl 5 ◌>>=◌ ◌>>◌
abbrev pub ◌>>=◌ {ℓ κ} :
    {E : Type 0} {A : Type ℓ} {B : Type κ} → Result E A → (A → Result E B) → Result E B
err fault >>= next = err fault
ok x >>= next = next x

abbrev pub ◌>>◌ {ℓ} : {E : Type 0} {B : Type ℓ} → Result E (Unit {0}) → Result E B → Result E B
first >> rest = first >>= λ _. rest

-- `if bad { return err }`
abbrev pub reject_if : {E : Type 0} → Bool → E → Result E (Unit {0})
reject_if true e = err e
reject_if false e = ok tt

pub Result-cases {ℓ} :
    {E : Type 0} {A : Type ℓ} (r : Result E A) → ((a : A) × (r ≡ ok a)) ⊎ ((e : E) × (r ≡ err e))
Result-cases (ok a) = inl (a, refl)
Result-cases (err e) = inr (e, refl)

-- A chain that succeeds has a first part that succeeds.
pub >>=-eq-ok {ℓ κ} :
    {E : Type 0} {X : Type ℓ} {Y : Type κ} (first : Result E X) (next : X → Result E Y) {y : Y}
    → (first >>= next) ≡ ok y
    → (x : X) × (first ≡ ok x) × (next x ≡ ok y)
>>=-eq-ok (err fault) next done = cc
>>=-eq-ok (ok x) next done = (x, refl, done)

-- A chain of tests passes exactly where each of them does.
pub reject_if-pass :
    {E : Type 0} (bad : Bool) (e : E) (rest : Result E (Unit {0}))
    → (reject_if bad e >> rest) ≡ ok tt
    → (bad ≡ false) × (rest ≡ ok tt)
reject_if-pass true e rest h = cc
reject_if-pass false e rest h = (refl, h)

pub pass-reject_if :
    {E : Type 0} (bad : Bool) (e : E) (rest : Result E (Unit {0}))
    → bad ≡ false
    → rest ≡ ok tt
    → (reject_if bad e >> rest) ≡ ok tt
pass-reject_if true e rest b h = cc
pass-reject_if false e rest b h = h

pub reject_if-ok : {E : Type 0} (bad : Bool) (e : E) → reject_if bad e ≡ ok tt → bad ≡ false
reject_if-ok true e h = cc
reject_if-ok false e h = refl

pub ok-reject_if : {E : Type 0} (bad : Bool) (e : E) → bad ≡ false → reject_if bad e ≡ ok tt
ok-reject_if true e h = cc
ok-reject_if false e h = refl

pub >>-pass :
    {E : Type 0} (first rest : Result E (Unit {0}))
    → (first >> rest) ≡ ok tt
    → (first ≡ ok tt) × (rest ≡ ok tt)
>>-pass (err e) rest h = cc
>>-pass (ok tt) rest h = (refl, h)

pub pass->> :
    {E : Type 0} (first rest : Result E (Unit {0}))
    → first ≡ ok tt
    → rest ≡ ok tt
    → (first >> rest) ≡ ok tt
pass->> (err e) rest f h = cc
pass->> (ok tt) rest f h = h

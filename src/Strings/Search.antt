-- ===== src/Strings/Search.antt =====
-- A text inside a text: what `Contains`, `Count` and `Replace` say of one another.
use kkode.Prelude.{
  ℕ, ◌-◌, Bool, true, false, List, [], ◌∷◌, ◌++◌, ◌≡◌, ◌≢◌, refl, sym, ap, ◌∙◌, arith, length,
  Bool-cases, inl, inr, ◌||◌, ◌↔◌,
}
use kkode.Strings.{
  Text, has_prefix, contains, split_from, split, join, join_some, replace, count, cons_head,
}
use kkode.Strings.Pieces.{IsCons, join-split, split_from-IsCons}

-- At least two pieces.
pub record IsCut (ts : List Text) : Type 0 where
  pub first : Text
  pub second : Text
  pub others : List Text
  pub cut : ts ≡ first ∷ second ∷ others

IsCut-cons : (t : Text) (ts : List Text) → IsCons ts → IsCut (t ∷ ts)
IsCut-cons t [] h = absurd h
IsCut-cons t (u ∷ ts) h = record { first = t; second = u; others = ts; cut = refl }

IsCut-cons_head : (c : ℕ) (ts : List Text) → IsCut ts → IsCut (cons_head c ts)
IsCut-cons_head c ts k = record {
  first = c ∷ k.first;
  second = k.second;
  others = k.others;
  cut = ap (cons_head c) k.cut;
}

contains-IsCut :
    (s sub : Text) → 0 ≢ length sub → contains s sub ≡ true → IsCut (split_from sub 0 s)
unfolding split_from contains
contains-IsCut [] [] n h = absurd (n refl)
contains-IsCut [] (c ∷ sub) n h = unfold has_prefix in cc h
contains-IsCut (c ∷ s) sub n h = elim (Bool-cases (has_prefix (c ∷ s) sub)) [
  | inl e ↦ rw e (IsCut-cons [] _ (split_from-IsCons sub (length sub - 1) s))
  | inr e ↦ rw e (IsCut-cons_head c _ (contains-IsCut s sub n (rw e at h)))
]

join_some-one :
    (t u : Text) (ts : List Text) (old new : Text)
    → join_some 1 old new (t ∷ u ∷ ts) ≡ t ++ (new ++ join (u ∷ ts) old)
unfolding join_some
join_some-one t u ts old new = refl

join-two :
    (t u : Text) (ts : List Text) (sep : Text)
    → join (t ∷ u ∷ ts) sep ≡ t ++ (sep ++ join (u ∷ ts) sep)
unfolding join
join-two t u ts sep = refl

-- Replacing one occurrence exchanges it and keeps what stands before and after it.
pub record IsExchange (old new s t : Text) : Type 0 where
  pub front : Text
  pub back : Text
  pub source : s ≡ front ++ (old ++ back)
  pub result : t ≡ front ++ (new ++ back)

pub replace-IsExchange :
    (s old new : Text)
    → 0 ≢ length old
    → contains s old ≡ true
    → IsExchange old new s (replace s old new 1)
unfolding replace split
replace-IsExchange s old new n h =
    let k = contains-IsCut s old n h in
    record {
      front = k.first;
      back = join (k.second ∷ k.others) old;
      source =
          sym (join-split s old n)
          ∙ ap (λ ts. join ts old) k.cut
          ∙ join-two k.first k.second k.others old;
      result = ap (join_some 1 old new) k.cut ∙ join_some-one k.first k.second k.others old new;
    }

length-cons_head : (c : ℕ) (ts : List Text) → length ts ≡ 1 → length (cons_head c ts) ≡ 1
length-cons_head c [] h = refl
length-cons_head c (t ∷ ts) h = h

contains-miss : (s sub : Text) → contains s sub ≡ false → length (split_from sub 0 s) ≡ 1
unfolding split_from contains
contains-miss [] sub h = refl
contains-miss (c ∷ s) sub h = elim (Bool-cases (has_prefix (c ∷ s) sub)) [
  | inl e ↦ absurd (true_or (has_prefix (c ∷ s) sub) (contains s sub) e h)
  | inr e ↦ rw e (length-cons_head c _ (contains-miss s sub (rw e at h)))
]
  where
    true_or : (a b : Bool) → a ≡ true → (a || b) ≡ false → ⊥
    true_or a b e f = ground arith

-- `Count` is zero exactly where `Contains` finds nothing.
pub count-zero_iff : (s sub : Text) → 0 ≢ length sub → (count s sub ≡ 0) ↔ (contains s sub ≡ false)
unfolding count split
count-zero_iff s sub n = (found, λ h. omega (arith, contains-miss s sub h))
  where
    found : length (split_from sub 0 s) - 1 ≡ 0 → contains s sub ≡ false
    found e = elim (Bool-cases (contains s sub)) [
      | inl c ↦ let k = contains-IsCut s sub n c in absurd (omega (arith, ap length k.cut))
      | inr c ↦ c
    ]

-- ===== src/Llm/Router/Longest.antt =====
-- The choice of an alias in llm/router.go does not depend on the order of the map.
use kkode.Prelude.{
  ℕ, ◌<◌, ◌≤◌, Bool, true, false, ◌&&◌, List, [], ◌∷◌, ltb, length, ◌≡◌, ◌⊎◌, ◌↔◌, inl, inr, refl,
  sym, ap, ap₂, subst, ◌∙◌, arith, Bool-cases, Result, none, some, ok,
}
use kkode.Strings.{Text, has_prefix}
use kkode.Llm.Router.{Router, best_alias, by_alias, cut_slash, at_key, provider_for, RouteError}

-- `IsAmong x xs`: the item is one of the list.
abbrev pub IsAmong : {A : Type 0} → A → List A → Type 0
IsAmong x [] = ⊥
IsAmong x (y ∷ ys) = (x ≡ y) ⊎ IsAmong x ys

same_prefix :
    (s p q : Text) → has_prefix s p ≡ true → has_prefix s q ≡ true → length p ≡ length q → p ≡ q
unfolding has_prefix
same_prefix s [] [] h k e = refl
same_prefix s [] (d ∷ q) h k e = absurd (omega arith)
same_prefix s (c ∷ p) [] h k e = absurd (omega arith)
same_prefix [] (c ∷ p) (d ∷ q) h k e = cc
same_prefix (b ∷ s) (c ∷ p) (d ∷ q) h k e = ground (arith, same_prefix s p q)

chosen : (b : Bool) (m n : ℕ) → (b && ltb m n) ≡ true → (b ≡ true) × (m < n)
chosen b m n h = ground arith

kept : (b : Bool) (m n : ℕ) → (b && ltb m n) ≡ false → b ≡ true → n ≤ m
kept b m n h k = ground arith

-- What the loop over the aliases ends with, from some best one on.
record IsBest (model : Text) (start : Text × Text) (aliases : List (Text × Text)) (r : Text × Text)
    : Type 0 where
  origin :
      (r ≡ start)
      ⊎ (IsAmong r aliases × (has_prefix model r.0 ≡ true) × (length start.0 < length r.0))
  grown : length start.0 ≤ length r.0
  longest :
      (a : Text × Text) → IsAmong a aliases → has_prefix model a.0 ≡ true → length a.0 ≤ length r.0

best_alias-IsBest :
    (model : Text) (start : Text × Text) (aliases : List (Text × Text))
    → IsBest model start aliases (best_alias model start aliases)
unfolding best_alias
best_alias-IsBest model start [] = record {
  origin = inl refl;
  grown = omega arith;
  longest = λ a h k. absurd h;
}
best_alias-IsBest model start (a ∷ more) =
    elim (Bool-cases (has_prefix model a.0 && ltb (length start.0) (length a.0))) [
      | inl e ↦ rw e (taken e (best_alias-IsBest model a more))
      | inr e ↦ rw e (left e (best_alias-IsBest model start more))
    ]
  where
    better :
        (has_prefix model a.0 && ltb (length start.0) (length a.0)) ≡ true
        → (has_prefix model a.0 ≡ true) × (length start.0 < length a.0)
    better e = chosen (has_prefix model a.0) (length start.0) (length a.0) e

    worse :
        (has_prefix model a.0 && ltb (length start.0) (length a.0)) ≡ false
        → has_prefix model a.0 ≡ true
        → length a.0 ≤ length start.0
    worse e = kept (has_prefix model a.0) (length start.0) (length a.0) e

    taken :
        {r : Text × Text}
        → (has_prefix model a.0 && ltb (length start.0) (length a.0)) ≡ true
        → IsBest model a more r
        → IsBest model start (a ∷ more) r
    taken {r} e b = record {
      origin = inr (elim b.origin [
        | inl q ↦ (
          inl q,
          subst (λ x. has_prefix model x.0 ≡ true) (sym q) (better e).0,
          omega (arith, (better e).1, b.grown),
        )
        | inr (h, p, l) ↦ (inr h, p, omega (arith, (better e).1))
      ]);
      grown = omega (arith, (better e).1, b.grown);
      longest = λ x h k. elim h [
        | inl q ↦ subst (λ y. length y.0 ≤ length r.0) (sym q) b.grown
        | inr h ↦ b.longest x h k
      ];
    }

    left :
        {r : Text × Text}
        → (has_prefix model a.0 && ltb (length start.0) (length a.0)) ≡ false
        → IsBest model start more r
        → IsBest model start (a ∷ more) r
    left {r} e b = record {
      origin = elim b.origin [ inl q ↦ inl q | inr (h, p, l) ↦ inr (inr h, p, l) ];
      grown = b.grown;
      longest = λ x h k. elim h [
        | inl q ↦
            subst (λ y. length y.0 ≤ length r.0) (sym q)
              (omega (arith, worse e (subst (λ y. has_prefix model y.0 ≡ true) q k), b.grown))
        | inr h ↦ b.longest x h k
      ];
    }

-- The alias map in some order: the same entries, and one value for a key.
abbrev pub IsReordering : List (Text × Text) → List (Text × Text) → Type 0
IsReordering xs ys = (a : Text × Text) → IsAmong a xs ↔ IsAmong a ys

abbrev pub IsKeyed : List (Text × Text) → Type 0
IsKeyed xs = (k u v : Text) → IsAmong (k, u) xs → IsAmong (k, v) xs → u ≡ v

IsBest-unique :
    (model : Text) (xs ys : List (Text × Text)) (r s : Text × Text)
    → IsKeyed xs
    → IsReordering xs ys
    → IsBest model ([], []) xs r
    → IsBest model ([], []) ys s
    → r ≡ s
IsBest-unique model xs ys r s keyed same b c = elim b.origin [
  | inl e ↦ elim c.origin [
    | inl q ↦ e ∙ sym q
    | inr (h, p, l) ↦
        absurd
          (too_long _ (subst (λ x. length s.0 ≤ length x.0) e (b.longest s ((same s).1 h) p)) l)
  ]
  | inr (h, p, l) ↦ elim c.origin [
    | inl q ↦
        absurd
          (too_long _ (subst (λ x. length r.0 ≤ length x.0) q (c.longest r ((same r).0 h) p)) l)
    | inr (k, q, m) ↦
        let e =
          same_prefix model r.0 s.0 p q
            (omega (arith, b.longest s ((same s).1 k) q, c.longest r ((same r).0 h) p)) in
        ap₂ (λ x y. (x, y)) e
          (keyed s.0 r.1 s.1 (subst (λ x. IsAmong (x, r.1) xs) e h) ((same s).1 k))
  ]
]
  where
    too_long : (t : Text) → length t ≤ 0 → 0 < length t → ⊥
    too_long t h k = omega arith

-- `ProviderFor` gives the same provider and the same name of the model in whatever order the alias
-- map is read. The map has one value for each key.
pub provider_for-IsReordering :
    {Provider : Type 0} (r : Router Provider) (aliases : List (Text × Text)) (model : Text)
    → IsKeyed r.aliases
    → IsReordering r.aliases aliases
    → provider_for r model ≡ provider_for (record r { aliases = aliases }) model
unfolding provider_for
provider_for-IsReordering {Provider} r aliases model keyed same =
    ap (λ best. route best)
      (IsBest-unique model r.aliases aliases _ _ keyed same
        (best_alias-IsBest model ([], []) r.aliases) (best_alias-IsBest model ([], []) aliases))
  where
    route : Text × Text → Result RouteError (Provider × Text)
    route best = elim (cut_slash model) [
      | none ↦ by_alias r model best
      | some (name, rest) ↦ elim (at_key name r.providers) [
        | none ↦ by_alias r model best
        | some p ↦ ok (p, rest)
      ]
    ]

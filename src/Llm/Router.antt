-- ===== src/Llm/Router.antt =====
-- llm/router.go: which provider answers for a model, and under which name it knows the model.
pub mod Longest
use kkode.Prelude.{
  ℕ, suc, Bool, true, false, ◌&&◌, List, [], ◌∷◌, ◌==◌, ltb, if◌then◌else◌, length, Option, none,
  some, Result, ok, err,
}
use kkode.Strings.{Text, codes, is_empty, text_eq, has_prefix, trim_prefix}

-- The maps of `Router`. A nil provider is left out: it is never found.
pub record Router (Provider : Type 0) : Type 0 where
  pub providers : List (Text × Provider)
  pub aliases : List (Text × Text)

unfoldable pub put_key {ℓ} : {A : Type ℓ} → Text → A → List (Text × A) → List (Text × A)
unfolding text_eq
put_key k v [] = (k, v) ∷ []
put_key k v ((j, u) ∷ m) = if text_eq j k then (k, v) ∷ m else (j, u) ∷ put_key k v m

unfoldable pub at_key {ℓ} : {A : Type ℓ} → Text → List (Text × A) → Option A
unfolding text_eq
at_key k [] = none
at_key k ((j, v) ∷ m) = if text_eq j k then some v else at_key k m

-- `strings.Cut(s, "/")`
unfoldable pub cut_slash : Text → Option (Text × Text)
cut_slash [] = none
cut_slash (c ∷ s) =
    let rest = cut_slash s in
    if c == 47 then some ([], s) else elim rest [ none ↦ none | some (a, b) ↦ some (c ∷ a, b) ]

-- The loop over the aliases, in the order in which the map gives them. Of two prefixes of one text
-- the one with more bytes has more code points.
unfoldable pub best_alias : Text → Text × Text → List (Text × Text) → Text × Text
unfolding has_prefix
best_alias model best [] = best
best_alias model best (a ∷ more) =
    best_alias model (if has_prefix model a.0 && ltb (length best.0) (length a.0) then a else best)
      more

pub data RouteError : Type 0 where
  no_provider : Text → RouteError

module _ {Provider : Type 0} where
  -- `Register`
  unfoldable pub register : Text → Provider → Router Provider → Router Provider
  unfolding put_key
  register name p r = record r { providers = put_key name p r.providers }

  -- `Alias`
  unfoldable pub add_alias : Text → Text → Router Provider → Router Provider
  unfolding put_key
  add_alias prefix provider r = record r { aliases = put_key prefix provider r.aliases }

  -- The last resort of `ProviderFor`.
  unfoldable pub by_default : Router Provider → Text → Result RouteError (Provider × Text)
  unfolding at_key
  by_default r model = elim (at_key (codes "default") r.providers) [
    | none ↦ err (no_provider model)
    | some p ↦ ok (p, model)
  ]

  unfoldable pub by_alias :
      Router Provider → Text → Text × Text → Result RouteError (Provider × Text)
  unfolding at_key is_empty trim_prefix by_default
  by_alias r model best =
      if is_empty best.0 then by_default r model else elim (at_key best.1 r.providers) [
        | none ↦ by_default r model
        | some p ↦ ok (p, trim_prefix model best.0)
      ]

  -- `ProviderFor`
  unfoldable pub provider_for : Router Provider → Text → Result RouteError (Provider × Text)
  unfolding at_key cut_slash best_alias by_alias
  provider_for r model =
      let otherwise = by_alias r model (best_alias model ([], []) r.aliases) in
      elim (cut_slash model) [
        | none ↦ otherwise
        | some (name, rest) ↦ elim (at_key name r.providers) [
          | none ↦ otherwise
          | some p ↦ ok (p, rest)
        ]
      ]

-- ===== src/Gateway/Requests/Selections.antt =====
-- The lists of servers, skills, subagents and tools: what `sanitizeUniqueStrings` keeps of them.
use kkode.Prelude.{
  true, false, ◌||◌, ◌&&◌, not, List, [], ◌∷◌, ◌≡◌, refl, ap, arith, map, Bool-cases, inl, inr,
}
use kkode.Strings.{Text, is_empty, text_eq, trim_space}
use kkode.Strings.Trimming.{trim_space_idem}
use kkode.Strings.Prefixes.{text_eq_iff, text_eq_refl}
use kkode.Gateway.Requests.{has_name, unique_from, sanitize_unique_strings}

-- No text occurs twice.
abbrev pub AreDistinct : List Text → Type 0
AreDistinct [] = Unit {0}
AreDistinct (t ∷ ts) = (has_name ts t ≡ false) × AreDistinct ts

has_name_cong : (ts : List Text) (t u : Text) → text_eq t u ≡ true → has_name ts t ≡ has_name ts u
has_name_cong ts t u e = ap (has_name ts) ((text_eq_iff t u).0 e)

-- What was seen is not given again.
unique_from-seen :
    (seen names : List Text) (t : Text)
    → has_name seen t ≡ true
    → has_name (unique_from seen names) t ≡ false
unfolding unique_from has_name
unique_from-seen seen [] t h = refl
unique_from-seen seen (name ∷ names) t h =
    elim (Bool-cases (is_empty (trim_space name) || has_name seen (trim_space name))) [
      | inl e ↦ rw e (unique_from-seen seen names t h)
      | inr e ↦ rw e (
          ground (
            arith,
            h,
            e,
            has_name_cong seen (trim_space name) t,
            unique_from-seen (trim_space name ∷ seen) names t,
          ))
    ]

has_name-head : (t : Text) (ts : List Text) → has_name (t ∷ ts) t ≡ true
unfolding has_name
has_name-head t ts = rw (text_eq_refl t)

unique_from-AreDistinct : (seen names : List Text) → AreDistinct (unique_from seen names)
unfolding unique_from
unique_from-AreDistinct seen [] = tt
unique_from-AreDistinct seen (name ∷ names) =
    elim (Bool-cases (is_empty (trim_space name) || has_name seen (trim_space name))) [
      | inl e ↦ rw e (unique_from-AreDistinct seen names)
      | inr e ↦
          let t = trim_space name in
          rw e (
            unique_from-seen (t ∷ seen) names t (has_name-head t seen),
            unique_from-AreDistinct (t ∷ seen) names,
          )
    ]

is_empty_cong : (t u : Text) → text_eq t u ≡ true → is_empty t ≡ is_empty u
is_empty_cong t u e = ap is_empty ((text_eq_iff t u).0 e)

unique_from-has_name :
    (seen names : List Text) (t : Text)
    → is_empty t ≡ false
    → has_name seen t ≡ false
    → has_name (unique_from seen names) t ≡ has_name (map trim_space names) t
unfolding unique_from has_name
unique_from-has_name seen [] t n h = refl
unique_from-has_name seen (name ∷ names) t n h = ground (
  arith,
  n,
  h,
  unique_from-has_name seen names t,
  unique_from-has_name (trim_space name ∷ seen) names t,
  has_name_cong seen (trim_space name) t,
  is_empty_cong (trim_space name) t,
)

text_eq-nil : (t : Text) → text_eq t [] ≡ is_empty t
unfolding text_eq is_empty
text_eq-nil [] = refl
text_eq-nil (c ∷ t) = refl

-- Every text is kept as it is: none is empty and none was seen before.
AreKept : List Text → List Text → Type 0
AreKept seen [] = Unit {0}
AreKept seen (t ∷ ts) =
    (is_empty t ≡ false) × (has_name seen t ≡ false) × (trim_space t ≡ t) × AreKept (t ∷ seen) ts

unique_from-AreKept : (seen names : List Text) → AreKept seen (unique_from seen names)
unfolding unique_from AreKept
unique_from-AreKept seen [] = tt
unique_from-AreKept seen (name ∷ names) =
    elim (Bool-cases (is_empty (trim_space name) || has_name seen (trim_space name))) [
      | inl e ↦ rw e (unique_from-AreKept seen names)
      | inr e ↦
          let t = trim_space name in
          rw e (
            ground (arith, e),
            ground (arith, e),
            trim_space_idem name,
            unique_from-AreKept (t ∷ seen) names,
          )
    ]

unique_from_kept : (seen ts : List Text) → AreKept seen ts → unique_from seen ts ≡ ts
unfolding unique_from AreKept
unique_from_kept seen [] h = refl
unique_from_kept seen (t ∷ ts) (n, f, q, h) =
    rw (q, n, f) (ap (◌∷◌ t) (unique_from_kept (t ∷ seen) ts h))

unique_from-empty : (seen names : List Text) → has_name (unique_from seen names) [] ≡ false
unfolding unique_from has_name
unique_from-empty seen [] = refl
unique_from-empty seen (name ∷ names) =
    elim (Bool-cases (is_empty (trim_space name) || has_name seen (trim_space name))) [
      | inl e ↦ rw e (unique_from-empty seen names)
      | inr e ↦ rw e (
          ground (
            arith,
            e,
            text_eq-nil (trim_space name),
            unique_from-empty (trim_space name ∷ seen) names,
          ))
    ]

is_empty-eq : (t : Text) → is_empty t ≡ true → t ≡ []
unfolding is_empty
is_empty-eq [] h = refl
is_empty-eq (c ∷ t) h = cc

-- What `sanitizeUniqueStrings` keeps has no text twice, a text stands in it exactly where it is not
-- empty and the trimmed names have it, and to sanitise it again changes nothing.
pub sanitize_unique_strings_lem :
    (names : List Text)
    → AreDistinct (sanitize_unique_strings names)
      × ((t : Text)
          → has_name (sanitize_unique_strings names) t
            ≡ not (is_empty t) && has_name (map trim_space names) t)
      × (sanitize_unique_strings (sanitize_unique_strings names) ≡ sanitize_unique_strings names)
unfolding sanitize_unique_strings
sanitize_unique_strings_lem names = (
  unique_from-AreDistinct [] names,
  λ t. elim (Bool-cases (is_empty t)) [
    | inl e ↦ rw (e, is_empty-eq t e) (unique_from-empty [] names)
    | inr e ↦ rw e (unique_from-has_name [] names t e refl)
  ],
  unique_from_kept [] _ (unique_from-AreKept [] names),
)

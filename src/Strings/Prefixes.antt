-- ===== src/Strings/Prefixes.antt =====
-- Equality, prefixes and trimming.
use mathlib.Core.List.{reverse, reverse-append}
use kkode.Prelude.{
  ◌-◌, ◌≤◌, true, false, [], ◌∷◌, ◌++◌, ◌≡◌, ◌↔◌, ◌≢◌, refl, ap, arith, length, length-append, take,
  drop, Bool-cases, inl, inr, drop-length-append,
}
use kkode.Strings.{Text, text_eq, has_prefix, trim_prefix, has_suffix, trim_suffix}

text_eq→eq : (s t : Text) → text_eq s t ≡ true → s ≡ t
unfolding text_eq
text_eq→eq [] [] h = refl
text_eq→eq [] (d ∷ t) h = cc
text_eq→eq (c ∷ s) [] h = cc
text_eq→eq (c ∷ s) (d ∷ t) h = ground (arith, text_eq→eq s t)

pub text_eq_refl : (s : Text) → text_eq s s ≡ true
unfolding text_eq
text_eq_refl [] = refl
text_eq_refl (c ∷ s) = ground (arith, text_eq_refl s)

pub text_eq_iff : (s t : Text) → (text_eq s t ≡ true) ↔ (s ≡ t)
text_eq_iff s t = (text_eq→eq s t, λ e. rw e (text_eq_refl t))

pub text_eq_ne : (s t : Text) → s ≢ t → text_eq s t ≡ false
text_eq_ne s t h = elim (Bool-cases (text_eq s t)) [
  | inl e ↦ absurd (h (text_eq→eq s t e))
  | inr e ↦ e
]

-- A text with a prefix is that prefix and what follows it.
pub has_prefix-drop : (s p : Text) → has_prefix s p ≡ true → s ≡ p ++ drop (length p) s
unfolding has_prefix
has_prefix-drop s [] h = refl
has_prefix-drop [] (p ∷ ps) h = cc
has_prefix-drop (c ∷ s) (p ∷ ps) h = ground (arith, has_prefix-drop s ps)

pub length-le_of_has_prefix : (s p : Text) → has_prefix s p ≡ true → length p ≤ length s
unfolding has_prefix
length-le_of_has_prefix s [] h = omega arith
length-le_of_has_prefix [] (p ∷ ps) h = cc
length-le_of_has_prefix (c ∷ s) (p ∷ ps) h = ground (arith, length-le_of_has_prefix s ps)

pub has_prefix-append : (p s : Text) → has_prefix (p ++ s) p ≡ true
unfolding has_prefix
has_prefix-append [] s = refl
has_prefix-append (c ∷ p) s = ground (arith, has_prefix-append p s)

pub trim_prefix-append : (p s : Text) → trim_prefix (p ++ s) p ≡ s
unfolding trim_prefix
trim_prefix-append p s = rw (has_prefix-append p s) (drop-length-append p s)

has_suffix-append : (s p : Text) → has_suffix (s ++ p) p ≡ true
unfolding has_suffix
has_suffix-append s p = rw (reverse-append s p) (has_prefix-append (reverse p) (reverse s))

take-length : (s t : Text) → take (length s) (s ++ t) ≡ s
take-length [] t = refl
take-length (c ∷ s) t = ap (◌∷◌ c) (take-length s t)

take-length-append : (s t : Text) → take (length (s ++ t) - length t) (s ++ t) ≡ s
take-length-append s t = rw (size s t) (take-length s t)
  where
    size : (s t : Text) → length (s ++ t) - length t ≡ length s
    size s t = omega (arith, length-append s t)

pub trim_suffix-append : (s p : Text) → trim_suffix (s ++ p) p ≡ s
unfolding trim_suffix
trim_suffix-append s p = rw (has_suffix-append s p) (take-length-append s p)

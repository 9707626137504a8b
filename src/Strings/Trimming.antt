-- ===== src/Strings/Trimming.antt =====
-- Trimming of a text, trimmed before or not.
use mathlib.Core.List.{reverse, reverse-append, reverse-reverse}
use kkode.Prelude.{
  ℕ, Bool, false, [], ◌∷◌, ◌++◌, ◌≡◌, refl, sym, ap, Bool-cases, inl, inr, ◌∙◌, subst,
}
use kkode.Strings.{Text, trim_left, trim, is_space, trim_space}

module _ (cut : ℕ → Bool) where
  -- The first code point, if there is one, is not cut.
  abbrev pub StartsKept : Text → Type 0
  StartsKept [] = Unit {0}
  StartsKept (c ∷ s) = cut c ≡ false

  trim_left-StartsKept : (s : Text) → StartsKept (trim_left cut s)
  unfolding trim_left
  trim_left-StartsKept [] = tt
  trim_left-StartsKept (c ∷ s) = elim (Bool-cases (cut c)) [
    | inl e ↦ rw e (trim_left-StartsKept s)
    | inr e ↦ rw e e
  ]

  trim_left_kept : (s : Text) → StartsKept s → trim_left cut s ≡ s
  unfolding trim_left
  trim_left_kept [] h = refl
  trim_left_kept (c ∷ s) h = rw h

  pub trim_left-back : (s : Text) → (w : Text) × (s ≡ w ++ trim_left cut s)
  unfolding trim_left
  trim_left-back [] = ([], refl)
  trim_left-back (c ∷ s) = elim (Bool-cases (cut c)) [
    | inl e ↦ let (w, q) = trim_left-back s in rw e (c ∷ w, ap (◌∷◌ c) q)
    | inr e ↦ rw e ([], refl)
  ]

  StartsKept-prefix : (s t : Text) → StartsKept (s ++ t) → StartsKept s
  StartsKept-prefix [] t h = tt
  StartsKept-prefix (c ∷ s) t h = h

  -- What is left stands in the text after what the left end loses.
  pub trim-front : (s : Text) → (w : Text) × (trim_left cut s ≡ trim cut s ++ w)
  unfolding trim
  trim-front s =
      let u = trim_left cut s in
      let (w, q) = trim_left-back (reverse u) in
      (
        reverse w,
        sym (reverse-reverse u) ∙ ap reverse q ∙ reverse-append w (trim_left cut (reverse u)),
      )

  pub trim-StartsKept : (s : Text) → StartsKept (trim cut s)
  trim-StartsKept s =
      let (w, q) = trim-front s in
      StartsKept-prefix _ w (subst StartsKept q (trim_left-StartsKept s))

  trim_idem : (s : Text) → trim cut (trim cut s) ≡ trim cut s
  trim_idem s =
      unfold trim in
      ap (λ t. reverse (trim_left cut (reverse t)))
        (trim_left_kept (trim cut s) (trim-StartsKept s))
      ∙ ap (λ v. reverse (trim_left cut v)) (reverse-reverse _)
      ∙ ap reverse (trim_left_kept _ (trim_left-StartsKept (reverse (trim_left cut s))))

pub trim_space_idem : (s : Text) → trim_space (trim_space s) ≡ trim_space s
unfolding trim_space
trim_space_idem s = trim_idem is_space s

-- ===== src/Strings/Pieces.antt =====
-- Splitting and joining.
use kkode.Prelude.{
  ℕ, zero, suc, ◌+◌, ◌-◌, false, List, [], ◌∷◌, ◌++◌, ◌≡◌, refl, sym, ap, arith, ◌≤◌, length, drop,
  Bool-cases, inl, inr, All, ◌≢◌, ◌==◌, ◌∙◌,
}
use kkode.Strings.{
  Text, has_prefix, cons_head, split_from, split, join, join_some, replace, replace_all, count,
}
use kkode.Strings.Prefixes.{has_prefix-drop}

-- A list of pieces is never empty.
abbrev pub IsCons : List Text → Type 0
IsCons [] = ⊥
IsCons (t ∷ ts) = Unit {0}

cons_head-IsCons : (c : ℕ) (ts : List Text) → IsCons (cons_head c ts)
cons_head-IsCons c [] = tt
cons_head-IsCons c (t ∷ ts) = tt

pub split_from-IsCons : (sep : Text) (k : ℕ) (s : Text) → IsCons (split_from sep k s)
unfolding split_from
split_from-IsCons sep k [] = tt
split_from-IsCons sep (suc k) (c ∷ s) = split_from-IsCons sep k s
split_from-IsCons sep zero (c ∷ s) = elim (Bool-cases (has_prefix (c ∷ s) sep)) [
  | inl e ↦ rw e tt
  | inr e ↦ rw e (cons_head-IsCons c (split_from sep 0 s))
]

join-cons_head : (c : ℕ) (ts : List Text) (sep : Text) → join (cons_head c ts) sep ≡ c ∷ join ts sep
unfolding join
join-cons_head c [] sep = refl
join-cons_head c (t ∷ []) sep = refl
join-cons_head c (t ∷ u ∷ ts) sep = refl

join-nil_cons : (ts : List Text) (sep : Text) → IsCons ts → join ([] ∷ ts) sep ≡ sep ++ join ts sep
unfolding join
join-nil_cons [] sep h = absurd h
join-nil_cons (t ∷ ts) sep h = refl

drop-cons-pred : (n : ℕ) (c : ℕ) (s : Text) → 0 ≢ n → drop n (c ∷ s) ≡ drop (n - 1) s
drop-cons-pred zero c s h = absurd (h refl)
drop-cons-pred (suc n) c s h = rw (pred_lem n)
  where
    pred_lem : (n : ℕ) → suc n - 1 ≡ n
    pred_lem n = omega arith

join-split_from :
    (sep : Text) (k : ℕ) (s : Text) → 0 ≢ length sep → join (split_from sep k s) sep ≡ drop k s
unfolding split_from join
join-split_from sep zero [] h = refl
join-split_from sep (suc k) [] h = refl
join-split_from sep (suc k) (c ∷ s) h = join-split_from sep k s h
join-split_from sep zero (c ∷ s) h = elim (Bool-cases (has_prefix (c ∷ s) sep)) [
  | inl e ↦ rw e (
      join-nil_cons (split_from sep (length sep - 1) s) sep
        (split_from-IsCons sep (length sep - 1) s)
      ∙ ap (◌++◌ sep) (join-split_from sep (length sep - 1) s h)
      ∙ sym (has_prefix-drop (c ∷ s) sep e ∙ ap (◌++◌ sep) (drop-cons-pred (length sep) c s h)))
  | inr e ↦
      rw e (join-cons_head c (split_from sep 0 s) sep ∙ ap (◌∷◌ c) (join-split_from sep 0 s h))
]

-- Joining the pieces of a text at the separator gives the text back.
pub join-split : (s sep : Text) → 0 ≢ length sep → join (split s sep) sep ≡ s
unfolding split
join-split s sep h = join-split_from sep 0 s h

-- A text of which no suffix starts with the separator is its only piece.
abbrev pub Avoids : Text → Text → Type 0
Avoids sep [] = Unit {0}
Avoids sep (c ∷ s) = (has_prefix (c ∷ s) sep ≡ false) × Avoids sep s

split_from-Avoids : (sep s : Text) → Avoids sep s → split_from sep 0 s ≡ s ∷ []
unfolding split_from
split_from-Avoids sep [] h = refl
split_from-Avoids sep (c ∷ s) h = rw (h.0, split_from-Avoids sep s h.1) refl

pub split-Avoids : (s sep : Text) → Avoids sep s → split s sep ≡ s ∷ []
unfolding split
split-Avoids s sep h = split_from-Avoids sep s h

pub replace_all-Avoids : (s old new : Text) → Avoids old s → replace_all s old new ≡ s
unfolding replace_all
replace_all-Avoids s old new h = rw (split-Avoids s old h) (unfold join in refl)

-- The code point `d` does not occur.
abbrev pub Lacks : ℕ → Text → Type 0
Lacks d s = All (λ c. (c == d) ≡ false) s

-- `s ++ d ∷ t` splits at the one code point `d` into `s` and the pieces of `t`.
split_from-line :
    (d : ℕ) (s t : Text)
    → Lacks d s
    → split_from (d ∷ []) 0 (s ++ d ∷ t) ≡ s ∷ split_from (d ∷ []) 0 t
unfolding split_from has_prefix
split_from-line d [] t h = ground arith
split_from-line d (c ∷ s) t h = rw (h.0, split_from-line d s t h.1) refl

split_from-last : (d : ℕ) (s : Text) → Lacks d s → split_from (d ∷ []) 0 s ≡ s ∷ []
unfolding split_from has_prefix
split_from-last d [] h = refl
split_from-last d (c ∷ s) h = rw (h.0, split_from-last d s h.1) refl

-- Splitting at one code point undoes joining by it.
pub split-join :
    (d : ℕ) (t : Text) (ts : List Text)
    → All (Lacks d) (t ∷ ts)
    → split (join (t ∷ ts) (d ∷ [])) (d ∷ []) ≡ t ∷ ts
unfolding split join
split-join d t [] h = split_from-last d t h.0
split-join d t (u ∷ ts) h =
    split_from-line d t (join (u ∷ ts) (d ∷ [])) h.0 ∙ ap (◌∷◌ t) (split-join d u ts h.1)

-- Writing at most `n` of the separators anew, with enough `n`, writes all of them.
join_some-all :
    (n : ℕ) (old new : Text) (ts : List Text)
    → length ts ≤ n + 1
    → join_some n old new ts ≡ join ts new
unfolding join_some join
join_some-all zero old new [] h = refl
join_some-all zero old new (t ∷ []) h = refl
join_some-all zero old new (t ∷ u ∷ ts) h = absurd (omega arith)
join_some-all (suc n) old new [] h = refl
join_some-all (suc n) old new (t ∷ []) h = refl
join_some-all (suc n) old new (t ∷ u ∷ ts) h =
    ap (λ r. t ++ (new ++ r)) (join_some-all n old new (u ∷ ts) (omega arith))

pub replace-count : (s old new : Text) → replace s old new (count s old) ≡ join (split s old) new
unfolding replace count
replace-count s old new = join_some-all _ old new (split s old) (omega arith)

join_some_same : (n : ℕ) (old : Text) (ts : List Text) → join_some n old old ts ≡ join ts old
unfolding join_some join
join_some_same zero old ts = refl
join_some_same (suc n) old [] = refl
join_some_same (suc n) old (t ∷ []) = refl
join_some_same (suc n) old (t ∷ u ∷ ts) = ap (λ r. t ++ (old ++ r)) (join_some_same n old (u ∷ ts))

pub replace_same : (s old : Text) (n : ℕ) → 0 ≢ length old → replace s old old n ≡ s
unfolding replace
replace_same s old n h = join_some_same n old (split s old) ∙ join-split s old h

cons_head-append :
    (c : ℕ) (ts us : List Text) → IsCons ts → cons_head c (ts ++ us) ≡ cons_head c ts ++ us
cons_head-append c [] us h = absurd h
cons_head-append c (t ∷ ts) us h = refl

-- The pieces of `s ++ d ∷ t` are those of `s` and then those of `t`.
pub split_from-append :
    (d : ℕ) (s t : Text)
    → split_from (d ∷ []) 0 (s ++ d ∷ t) ≡ split_from (d ∷ []) 0 s ++ split_from (d ∷ []) 0 t
unfolding split_from has_prefix
split_from-append d [] t = ground arith
split_from-append d (c ∷ s) t = elim (Bool-cases (c == d)) [
  | inl e ↦ rw e (ap (◌∷◌ []) (split_from-append d s t))
  | inr e ↦ rw e (
      ap (cons_head c) (split_from-append d s t)
      ∙ cons_head-append c _ _ (split_from-IsCons (d ∷ []) 0 s))
]

pub split-append :
    (d : ℕ) (s t : Text) → split (s ++ d ∷ t) (d ∷ []) ≡ split s (d ∷ []) ++ split t (d ∷ [])
unfolding split
split-append d s t = split_from-append d s t

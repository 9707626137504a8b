-- ===== src/Filepath/Clean.antt =====
-- What a cleaned rooted path looks like.
use mathlib.Core.List.{reverse, reverse-cons, reverse-reverse}
use kkode.Prelude.{
  ℕ, true, false, List, [], ◌∷◌, ◌++◌, ◌≡◌, ◌==◌, refl, sym, subst, arith, All, All-append,
  Bool-cases, inl, inr, ap, ◌∙◌, append_assoc, append-nil,
}
use kkode.Strings.{Text, text_eq, is_empty, has_prefix, split, split_from, join, cons_head}
use kkode.Strings.Pieces.{Lacks, split-join}
use kkode.Filepath.{slash, dot, dotdot, is_abs, clean_dotdot, clean_step, clean_elements, clean}

-- A name of a file or a directory: not empty, not `.`, not `..`, and without a slash.
pub record IsName (t : Text) : Type 0 where
  pub has_text : is_empty t ≡ false
  pub not_dot : text_eq t dot ≡ false
  pub not_dotdot : text_eq t dotdot ≡ false
  pub no_slash : Lacks slash t

-- The text of the absolute path with these elements.
unfoldable pub render : List Text → Text
render ns = slash ∷ join ns (slash ∷ [])

cons_head-Lacks :
    (c : ℕ) (ts : List Text)
    → (c == slash) ≡ false
    → All (Lacks slash) ts
    → All (Lacks slash) (cons_head c ts)
cons_head-Lacks c [] e h = ground arith
cons_head-Lacks c (t ∷ ts) e h = ground arith

pub split_from-Lacks : (s : Text) → All (Lacks slash) (split_from (slash ∷ []) 0 s)
unfolding split_from has_prefix
split_from-Lacks [] = ground arith
split_from-Lacks (c ∷ s) = elim (Bool-cases (c == slash)) [
  | inl e ↦ rw e (tt, split_from-Lacks s)
  | inr e ↦ rw e (cons_head-Lacks c (split_from (slash ∷ []) 0 s) e (split_from-Lacks s))
]

clean_step-IsName :
    (kept : List Text) (e : Text)
    → Lacks slash e
    → All IsName kept
    → All IsName (clean_step true kept e)
unfolding clean_step clean_dotdot
clean_step-IsName [] e h k = ground arith
clean_step-IsName (t ∷ kept) e h k = ground arith

clean_elements-IsName :
    (kept es : List Text)
    → All (Lacks slash) es
    → All IsName kept
    → All IsName (clean_elements true kept es)
unfolding clean_elements
clean_elements-IsName kept [] h k = k
clean_elements-IsName kept (e ∷ es) h k =
    clean_elements-IsName (clean_step true kept e) es h.1 (clean_step-IsName kept e h.0 k)

pub All-reverse : (P : Text → Type 0) (ts : List Text) → All P ts → All P (reverse ts)
All-reverse P [] h = tt
All-reverse P (t ∷ ts) h =
    subst (All P) (sym (reverse-cons t ts))
      (All-append P (reverse ts) (t ∷ []) (All-reverse P ts h.1) (h.0, tt))

-- Cleaning an absolute path gives a slash and names between slashes: no `.`, no `..` is left.
pub clean-IsName :
    (p : Text) → is_abs p ≡ true → (ns : List Text) × (clean p ≡ render ns) × All IsName ns
unfolding clean split render
clean-IsName p h = (
  reverse (clean_elements true [] (split_from (slash ∷ []) 0 p)),
  rw h refl,
  All-reverse IsName _ (clean_elements-IsName [] _ (split_from-Lacks p) tt),
)

names-Lacks : (ns : List Text) → All IsName ns → All (Lacks slash) ns
names-Lacks [] h = tt
names-Lacks (n ∷ ns) h = (h.0.no_slash, names-Lacks ns h.1)

-- The pieces of a rendered path: an empty one in front of the first slash, then the names.
pub split-render :
    (n : Text) (ns : List Text)
    → All IsName (n ∷ ns)
    → split (render (n ∷ ns)) (slash ∷ []) ≡ [] ∷ n ∷ ns
unfolding render
split-render n ns h = rw (← render_join) (split-join slash [] (n ∷ ns) (tt, names-Lacks (n ∷ ns) h))
  where
    render_join : join ([] ∷ n ∷ ns) (slash ∷ []) ≡ slash ∷ join (n ∷ ns) (slash ∷ [])
    render_join = unfold join in refl

pub clean_elements-names :
    (kept ns : List Text) → All IsName ns → clean_elements true kept ns ≡ reverse ns ++ kept
unfolding clean_elements clean_step
clean_elements-names kept [] h = refl
clean_elements-names kept (n ∷ ns) h =
    rw (h.0.has_text, h.0.not_dot, h.0.not_dotdot)
      (clean_elements-names (n ∷ kept) ns h.1
        ∙ sym (rw (reverse-cons n ns) (append_assoc (reverse ns) (n ∷ []) kept)))

pub clean_lem :
    (p : Text)
    → is_abs p ≡ true
    → clean p ≡ render (reverse (clean_elements true [] (split p (slash ∷ []))))
unfolding clean render
clean_lem p h = rw h refl

clean_elements-render :
    (n : Text) (ns : List Text)
    → All IsName (n ∷ ns)
    → reverse (clean_elements true [] ([] ∷ n ∷ ns)) ≡ n ∷ ns
unfolding clean_elements clean_step
clean_elements-render n ns h =
    ap reverse (clean_elements-names [] (n ∷ ns) h)
    ∙ ap reverse (append-nil (reverse (n ∷ ns)))
    ∙ reverse-reverse (n ∷ ns)

-- A path of names is clean.
pub clean-render : (ns : List Text) → All IsName ns → clean (render ns) ≡ render ns
clean-render [] h = unfold clean render in refl
clean-render (n ∷ ns) h =
    clean_lem (render (n ∷ ns)) (unfold is_abs render in refl)
    ∙ ap (λ es. render (reverse (clean_elements true [] es))) (split-render n ns h)
    ∙ ap render (clean_elements-render n ns h)

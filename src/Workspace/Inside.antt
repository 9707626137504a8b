-- ===== src/Workspace/Inside.antt =====
-- `Resolve` of workspace/workspace.go lets no path out of the workspace.
pub mod Names
use kkode.Prelude.{
  ℕ, Bool, true, false, ◌&&◌, not, List, [], ◌∷◌, ◌++◌, ◌≡◌, refl, sym, ap, ◌∙◌, arith, All,
  All-append, ok, err, if◌then◌else◌, Bool-cases, inl, inr, drop, length, append_assoc, subst,
  length-append, append-nil, ◌≤◌, ◌⊎◌, ◌+◌,
}
use kkode.Strings.{Text, text_eq, is_empty, has_prefix, split, join}
use kkode.Strings.Prefixes.{
  text_eq_iff, has_prefix-drop, has_prefix-append, length-le_of_has_prefix,
}
use kkode.Strings.Pieces.{split-append}
use kkode.Filepath.{slash, is_abs, clean, join_path}
use kkode.Filepath.Clean.{IsName, render, clean-IsName, clean-render, split-render}
use kkode.Workspace.{Workspace, path_escapes, target, resolve}

-- The workspace's root is the absolute path with these names, as `filepath.Abs` returns it.
pub record IsRoot (w : Workspace) (rs : List Text) : Type 0 where
  pub root_names : All IsName rs
  pub is_root : w.root ≡ render rs

-- The path lies in the directory `rs`: it goes on from there by names only.
pub record IsInside (rs : List Text) (p : Text) : Type 0 where
  pub below : List Text
  pub below_names : All IsName below
  pub is_path : p ≡ render (rs ++ below)

pub is_abs-render : (ns : List Text) → is_abs (render ns) ≡ true
unfolding is_abs render has_prefix
is_abs-render ns = refl

is_abs-clean : (p : Text) → is_abs p ≡ true → is_abs (clean p) ≡ true
is_abs-clean p h = let (ns, e, _) = clean-IsName p h in ap is_abs e ∙ is_abs-render ns

is_abs-join_path : (ns : List Text) (rel : Text) → is_abs (join_path (render ns) rel) ≡ true
unfolding join_path is_empty render
is_abs-join_path ns [] =
    is_abs-clean (slash ∷ join ns (slash ∷ [])) (unfold is_abs has_prefix in refl)
is_abs-join_path ns (c ∷ rel) =
    is_abs-clean ((slash ∷ join ns (slash ∷ [])) ++ slash ∷ c ∷ rel)
      (unfold is_abs has_prefix in refl)

-- What `Resolve` computes is a path of names, whatever it was given.
target-IsName :
    (w : Workspace) (rs : List Text) (rel : Text)
    → IsRoot w rs
    → (ns : List Text) × (target w rel ≡ render ns) × All IsName ns
unfolding target
target-IsName w rs rel r = elim (Bool-cases (is_abs rel)) [
  | inl e ↦ rw e (clean-IsName (clean rel) (is_abs-clean rel e))
  | inr e ↦ rw (e, r.is_root) (clean-IsName (join_path (render rs) rel) (is_abs-join_path rs rel))
]

-- A path text that goes on after a directory's text and a slash has the directory's names first.
extends :
    (rs ns : List Text)
    → All IsName rs
    → All IsName ns
    → has_prefix (render ns) (render rs ++ slash ∷ []) ≡ true
    → (bs : List Text) × (ns ≡ rs ++ bs)
extends [] [] hr hn e = ([], refl)
extends (r ∷ rs) [] hr hn e = absurd (omega (arith, too_long, size, one))
  where
    too_long : length (render (r ∷ rs) ++ slash ∷ []) ≤ length (render [])
    too_long = length-le_of_has_prefix _ _ e

    one : length (render []) ≡ 1
    one = unfold render join in refl

    size : length (render (r ∷ rs) ++ slash ∷ []) ≡ length (join (r ∷ rs) (slash ∷ [])) + 2
    size =
        unfold render in
        omega (arith, length-append (slash ∷ join (r ∷ rs) (slash ∷ [])) (slash ∷ []))
extends [] (n ∷ ns) hr hn e = (n ∷ ns, refl)
extends (r ∷ rs) (n ∷ ns) hr hn e = (split rest (slash ∷ []), cc pieces)
  where
    rest : Text
    rest = drop (length (render (r ∷ rs) ++ slash ∷ [])) (render (n ∷ ns))

    parts : render (n ∷ ns) ≡ render (r ∷ rs) ++ slash ∷ rest
    parts = has_prefix-drop _ _ e ∙ append_assoc (render (r ∷ rs)) (slash ∷ []) rest

    pieces : [] ∷ n ∷ ns ≡ [] ∷ ((r ∷ rs) ++ split rest (slash ∷ []))
    pieces =
        sym (split-render n ns hn)
        ∙ ap (λ t. split t (slash ∷ [])) parts
        ∙ split-append slash (render (r ∷ rs)) rest
        ∙ ap (λ ts. ts ++ split rest (slash ∷ [])) (split-render r rs hr)

All-append_right : (rs bs : List Text) → All IsName (rs ++ bs) → All IsName bs
All-append_right [] bs h = h
All-append_right (r ∷ rs) bs h = All-append_right rs bs h.1

IsInside-of_prefix :
    (rs ns : List Text)
    → All IsName rs
    → All IsName ns
    → has_prefix (render ns) (render rs ++ slash ∷ []) ≡ true
    → IsInside rs (render ns)
IsInside-of_prefix rs ns hr hn e =
    let (bs, q) = extends rs ns hr hn e in
    record {
      below = bs;
      below_names = All-append_right rs bs (subst (All IsName) q hn);
      is_path = ap render q;
    }

IsInside-of_root : (rs : List Text) → IsInside rs (render rs)
IsInside-of_root rs = record {
  below = [];
  below_names = tt;
  is_path = ap render (sym (append-nil rs));
}

clean-root : (w : Workspace) (rs : List Text) → IsRoot w rs → clean w.root ≡ render rs
clean-root w rs r = ap clean r.is_root ∙ clean-render rs r.root_names

pub resolve-accepts :
    (w : Workspace) (rel p : Text)
    → resolve w rel ≡ ok p
    → (p ≡ target w rel)
      × ((text_eq (target w rel) (clean w.root) ≡ true)
          ⊎ (has_prefix (target w rel) (clean w.root ++ slash ∷ []) ≡ true))
unfolding resolve is_empty
resolve-accepts w [] p h = cc
resolve-accepts w (c ∷ rel) p h = ground arith

-- In a workspace whose root is an absolute path of names, every path that `Resolve` returns is the
-- root or goes on from it by names, none of which is empty, `.` or `..`: no argument, relative or
-- absolute, leads outside.
pub resolve-IsInside :
    (w : Workspace) (rs : List Text) (rel p : Text)
    → IsRoot w rs
    → resolve w rel ≡ ok p
    → IsInside rs p
resolve-IsInside w rs rel p r h =
    let (ns, e, hn) = target-IsName w rs rel r in
    let (q, side) = resolve-accepts w rel p h in
    elim side [
      | inl same ↦
          subst (IsInside rs) (sym (q ∙ (text_eq_iff _ _).0 same ∙ clean-root w rs r))
            (IsInside-of_root rs)
      | inr under ↦ subst (IsInside rs) (sym (q ∙ e)) (
          IsInside-of_prefix rs ns r.root_names hn (
            subst (λ t. has_prefix t (render rs ++ slash ∷ []) ≡ true) e
              (subst (λ t. has_prefix (target w rel) (t ++ slash ∷ []) ≡ true) (clean-root w rs r)
                under)))
    ]

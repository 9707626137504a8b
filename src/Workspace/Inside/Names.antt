-- ===== src/Workspace/Inside/Names.antt =====
-- Which paths `Resolve` of workspace/workspace.go accepts: paths of names, but none under `/`.
use kkode.Prelude.{
  ℕ, Bool, true, false, ◌&&◌, not, List, [], ◌∷◌, ◌++◌, ◌≡◌, refl, sym, ap, ◌∙◌, arith, All,
  All-append, ok, err, if◌then◌else◌, inl, inr, append_assoc, subst,
}
use kkode.Strings.{Text, text_eq, is_empty, has_prefix, join}
use kkode.Strings.Prefixes.{text_eq_iff, has_prefix-append}
use kkode.Filepath.{slash, is_abs, clean, join_path}
use kkode.Filepath.Clean.{IsName, render, clean-render}
use kkode.Workspace.{Workspace, path_escapes, target, resolve}
use kkode.Workspace.Inside.{IsRoot, target-IsName, clean-root, resolve-accepts}

join-append :
    (t : Text) (ts us : List Text) (u : Text) (sep : Text)
    → join ((t ∷ ts) ++ u ∷ us) sep ≡ join (t ∷ ts) sep ++ (sep ++ join (u ∷ us) sep)
unfolding join
join-append t [] us u sep = refl
join-append t (v ∷ ts) us u sep =
    ap (λ r. t ++ (sep ++ r)) (join-append v ts us u sep)
    ∙ ap (◌++◌ t) (sym (append_assoc sep (join (v ∷ ts) sep) (sep ++ join (u ∷ us) sep)))
    ∙ sym (append_assoc t (sep ++ join (v ∷ ts) sep) (sep ++ join (u ∷ us) sep))

render-append :
    (r : Text) (rs bs : List Text) (b : Text)
    → render ((r ∷ rs) ++ b ∷ bs) ≡ render (r ∷ rs) ++ slash ∷ join (b ∷ bs) (slash ∷ [])
unfolding render
render-append r rs bs b = ap (◌∷◌ slash) (join-append r rs bs b (slash ∷ []))

-- A target under the root passes the test of `Resolve`.
resolve_under :
    (w : Workspace) (rel p s : Text)
    → is_empty rel ≡ false
    → target w rel ≡ p
    → p ≡ (clean w.root ++ slash ∷ []) ++ s
    → resolve w rel ≡ ok p
unfolding resolve
resolve_under w rel p s n e q = rw (n, e) (rw (under) (pass (text_eq p (clean w.root))))
  where
    under : has_prefix p (clean w.root ++ slash ∷ []) ≡ true
    under = rw q (has_prefix-append (clean w.root ++ slash ∷ []) s)

    pass : (b : Bool) → (if not b && false then err path_escapes else ok p) ≡ ok p
    pass b = ground arith

join-cons :
    (c : ℕ) (t : Text) (ts : List Text) (sep : Text)
    → join ((c ∷ t) ∷ ts) sep ≡ c ∷ join (t ∷ ts) sep
unfolding join
join-cons c t [] sep = refl
join-cons c t (u ∷ ts) sep = refl

join_path-render :
    (rs : List Text) (c : ℕ) (rel : Text)
    → join_path (render rs) (c ∷ rel) ≡ clean (render rs ++ slash ∷ c ∷ rel)
unfolding join_path is_empty render
join_path-render rs c rel = refl

-- A relative path of names, each neither empty nor `.` nor `..`, is accepted in a workspace whose
-- root is not `/`, and leads to the root's names followed by its own.
pub resolve-names :
    (w : Workspace) (r : Text) (rs : List Text) (b : Text) (bs : List Text)
    → IsRoot w (r ∷ rs)
    → All IsName (b ∷ bs)
    → resolve w (join (b ∷ bs) (slash ∷ [])) ≡ ok (render ((r ∷ rs) ++ b ∷ bs))
resolve-names w r rs [] bs root h = absurd (empty_name h.0.has_text)
  where
    empty_name : is_empty [] ≡ false → ⊥
    empty_name e = unfold is_empty in cc e
resolve-names w r rs (c ∷ b) bs root h =
    resolve_under w rel (render ((r ∷ rs) ++ (c ∷ b) ∷ bs)) rel
      (ap is_empty (join-cons c b bs (slash ∷ [])) ∙ (unfold is_empty in refl)) reached
      (render-append r rs bs (c ∷ b)
        ∙ ap (λ t. t ++ slash ∷ rel) (sym (clean-root w (r ∷ rs) root))
        ∙ sym (append_assoc (clean w.root) (slash ∷ []) rel))
  where
    rel : Text
    rel = join ((c ∷ b) ∷ bs) (slash ∷ [])

    names : All IsName ((r ∷ rs) ++ (c ∷ b) ∷ bs)
    names = All-append IsName (r ∷ rs) ((c ∷ b) ∷ bs) root.root_names h

    relative : is_abs rel ≡ false
    relative =
        ap is_abs (join-cons c b bs (slash ∷ []))
        ∙ (unfold is_abs has_prefix in ground (arith, h.0.no_slash.0))

    joined : join_path w.root rel ≡ clean (render ((r ∷ rs) ++ (c ∷ b) ∷ bs))
    joined =
        ap (λ t. join_path t rel) root.is_root
        ∙ ap (join_path (render (r ∷ rs))) (join-cons c b bs (slash ∷ []))
        ∙ join_path-render (r ∷ rs) c (join (b ∷ bs) (slash ∷ []))
        ∙ ap (λ t. clean (render (r ∷ rs) ++ slash ∷ t)) (sym (join-cons c b bs (slash ∷ [])))
        ∙ ap clean (sym (render-append r rs bs (c ∷ b)))

    reached : target w rel ≡ render ((r ∷ rs) ++ (c ∷ b) ∷ bs)
    reached =
        unfold target in
        (rw relative (ap clean (joined ∙ clean-render _ names) ∙ clean-render _ names))

no_name_after_slash :
    (ns : List Text) → All IsName ns → has_prefix (join ns (slash ∷ [])) (slash ∷ []) ≡ false
unfolding join has_prefix
no_name_after_slash [] h = refl
no_name_after_slash ([] ∷ ns) h = unfold is_empty in cc h.0.has_text
no_name_after_slash ((c ∷ n) ∷ []) h = ground (arith, h.0.no_slash.0)
no_name_after_slash ((c ∷ n) ∷ m ∷ ns) h = ground (arith, h.0.no_slash.0)

no_double_slash :
    (ns : List Text) → All IsName ns → has_prefix (render ns) (slash ∷ slash ∷ []) ≡ true → ⊥
unfolding render has_prefix
no_double_slash ns h e = cc (no_name_after_slash ns h)

render-nil : render [] ≡ slash ∷ []
unfolding render join
render-nil = refl

-- In a workspace whose root is `/` itself, `Resolve` accepts nothing but the root: the prefix that
-- it tests for is then `//`, which no clean path has.
pub resolve-slash_root :
    (w : Workspace) (rel p : Text) → IsRoot w [] → resolve w rel ≡ ok p → p ≡ slash ∷ []
resolve-slash_root w rel p r h =
    let (ns, e, hn) = target-IsName w [] rel r in
    let (q, side) = resolve-accepts w rel p h in
    elim side [
      | inl same ↦ q ∙ (text_eq_iff _ _).0 same ∙ clean-root w [] r ∙ render-nil
      | inr under ↦ absurd (
          no_double_slash ns hn (
            subst (λ t. has_prefix t (slash ∷ slash ∷ []) ≡ true) e
              (subst (λ t. has_prefix (target w rel) (t ++ slash ∷ []) ≡ true)
                (clean-root w [] r ∙ render-nil) under)))
    ]

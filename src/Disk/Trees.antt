-- ===== src/Disk/Trees.antt =====
-- The calls on a directory with all that is below it.
use kkode.Prelude.{
  true, false, [], ◌∷◌, ◌++◌, ◌≡◌, ◌≢◌, refl, sym, ap, ◌∙◌, subst, arith, length, drop, Option,
  append-nil, length-append, ok, append_assoc, drop-length-append, none, some, Bool-cases,
  Option-cases, inl, inr,
}
use kkode.Strings.{Text, text_eq, has_prefix}
use kkode.Strings.Prefixes.{
  text_eq_iff, text_eq_refl, text_eq_ne, has_prefix-append, has_prefix-drop,
}
use kkode.Filepath.{slash}
use kkode.Disk.{
  Node, file, directory, Disk, lookup, erase, erase_tree, is_in_tree, move_tree, rename_over,
  rename, dir_of,
}
use kkode.Disk.Entries.{entry_cases, lookup-erase_ne, lookup-erase_self}

pub lookup-erase_tree :
    (p q : Text) (d : Disk) → is_in_tree p q ≡ false → lookup (erase_tree p d) q ≡ lookup d q
unfolding lookup erase_tree
lookup-erase_tree p q [] h = refl
lookup-erase_tree p q ((r, n) ∷ d) h = elim (Bool-cases (text_eq r q)) [
  | inl e ↦
      let kept : is_in_tree p r ≡ false = ap (is_in_tree p) ((text_eq_iff r q).0 e) ∙ h in
      rw kept (rw e refl)
  | inr e ↦ elim (Bool-cases (is_in_tree p r)) [
    | inl f ↦ rw (f, e) (lookup-erase_tree p q d h)
    | inr f ↦ rw f (rw e (lookup-erase_tree p q d h))
  ]
]

pub outside_ne : (p q : Text) → is_in_tree p q ≡ false → p ≢ q
unfolding is_in_tree
outside_ne p q h e = ground (arith, h, text_eq_iff q p, e)

outside_eq : (p r : Text) → is_in_tree p r ≡ false → text_eq r p ≡ false
outside_eq p r h = text_eq_ne r p (λ e. outside_ne p r h (sym e))

in_tree_self : (p : Text) → is_in_tree p p ≡ true
unfolding is_in_tree
in_tree_self p = rw (text_eq_refl p) refl

in_tree_below : (p s : Text) → is_in_tree p (p ++ slash ∷ s) ≡ true
unfolding is_in_tree
in_tree_below p s = elim (Bool-cases (text_eq (p ++ slash ∷ s) p)) [
  | inl e ↦ rw e refl
  | inr e ↦ rw e (
      subst (λ t. has_prefix t (p ++ slash ∷ []) ≡ true) (append_assoc p (slash ∷ []) s)
        (has_prefix-append (p ++ slash ∷ []) s))
]

drop-length_self : (p : Text) → drop (length p) p ≡ []
drop-length_self p = ap (drop (length p)) (sym (append-nil p)) ∙ drop-length-append p []

goes_on :
    (p r : Text)
    → is_in_tree p r ≡ true
    → text_eq r p ≡ false
    → (rest : Text) × (r ≡ p ++ slash ∷ rest)
unfolding is_in_tree
goes_on p r h e =
    let below : has_prefix r (p ++ slash ∷ []) ≡ true = ground (arith, h, e) in
    (
      drop (length (p ++ slash ∷ [])) r,
      has_prefix-drop r (p ++ slash ∷ []) below ∙ append_assoc p (slash ∷ []) _,
    )

-- Of two paths, one is in the tree and one is not.
differ : (p r s : Text) → is_in_tree p r ≡ true → is_in_tree p s ≡ false → text_eq r s ≡ false
differ p r s h k = text_eq_ne r s (λ e. cc (h, k, ap (is_in_tree p) e))

-- What stood at or below `p` comes to stand at or below `q`.
in_tree-moved :
    (p q r : Text) → is_in_tree p r ≡ true → is_in_tree q (q ++ drop (length p) r) ≡ true
in_tree-moved p q r h = elim (Bool-cases (text_eq r p)) [
  | inl e ↦
      subst (λ t. is_in_tree q (q ++ t) ≡ true)
        (sym (ap (drop (length p)) ((text_eq_iff r p).0 e) ∙ drop-length_self p))
        (subst (λ t. is_in_tree q t ≡ true) (sym (append-nil q)) (in_tree_self q))
  | inr e ↦
      let (rest, parts) = goes_on p r h e in
      subst (λ t. is_in_tree q (q ++ t) ≡ true)
        (sym (ap (drop (length p)) parts ∙ drop-length-append p (slash ∷ rest)))
        (in_tree_below q rest)
]

pub lookup-move_tree :
    (p q s : Text) (d : Disk)
    → is_in_tree p s ≡ false
    → is_in_tree q s ≡ false
    → lookup (move_tree p q d) s ≡ lookup d s
unfolding lookup move_tree
lookup-move_tree p q s [] h k = refl
lookup-move_tree p q s ((r, n) ∷ d) h k = elim (Bool-cases (is_in_tree p r)) [
  | inl e ↦
      rw (e, differ q (q ++ drop (length p) r) s (in_tree-moved p q r e) k, differ p r s e h)
        (lookup-move_tree p q s d h k)
  | inr e ↦ rw (e, lookup-move_tree p q s d h k) refl
]

lookup-rename_over :
    (p q s : Text) (d : Disk) (n : Node) (o : Option Node)
    → is_in_tree p s ≡ false
    → is_in_tree q s ≡ false
    → lookup (rename_over p q d n o).1 s ≡ lookup d s
unfolding rename_over
lookup-rename_over p q s d n (some directory) h k = refl
lookup-rename_over p q s d directory (some (file t)) h k = refl
lookup-rename_over p q s d (file u) (some (file t)) h k =
    lookup-move_tree p q s (erase d q) h k ∙ lookup-erase_ne d q s (outside_ne q s k)
lookup-rename_over p q s d n none h k = lookup-move_tree p q s d h k

pub lookup-rename :
    (p q s : Text) (d : Disk)
    → is_in_tree p s ≡ false
    → is_in_tree q s ≡ false
    → lookup (rename p q d).1 s ≡ lookup d s
unfolding rename
lookup-rename p q s d h k = elim (Option-cases (lookup d p)) [
  | inl e ↦ rw (e, rename) refl
  | inr (n, e) ↦ elim (entry_cases d (dir_of q)) [
    | inl f ↦ rw (e, f, rename) refl
    | inr (inl f) ↦ rw (e, f, rename) (lookup-rename_over p q s d n (lookup d q) h k)
    | inr (inr (t, f)) ↦ rw (e, f, rename) refl
  ]
]

longer : (q rest : Text) → q ++ slash ∷ rest ≢ q
longer q rest i = absurd (omega (arith, length-append q (slash ∷ rest), ap length i))

-- Of what is moved, only the entry at `p` itself comes to stand at `q`.
moved_onto :
    (p q r : Text) → is_in_tree p r ≡ true → text_eq (q ++ drop (length p) r) q ≡ text_eq r p
moved_onto p q r h = elim (Bool-cases (text_eq r p)) [
  | inl e ↦
      rw
        (
          e,
          ap (drop (length p)) ((text_eq_iff r p).0 e) ∙ drop-length_self p,
          append-nil q,
          text_eq_refl q,
        )
        refl
  | inr e ↦
      let (rest, parts) = goes_on p r h e in
      rw (e, ap (drop (length p)) parts ∙ drop-length-append p (slash ∷ rest))
        (text_eq_ne (q ++ slash ∷ rest) q (λ i. longer q rest i))
]

absent_tail :
    (q r : Text) (n : Node) (d : Disk)
    → lookup ((r, n) ∷ d) q ≡ none
    → (text_eq r q ≡ false) × (lookup d q ≡ none)
unfolding lookup
absent_tail q r n d h = ground (arith, h)

lookup-move_tree_at :
    (p q : Text) (d : Disk) → lookup d q ≡ none → lookup (move_tree p q d) q ≡ lookup d p
unfolding lookup move_tree
lookup-move_tree_at p q [] h = refl
lookup-move_tree_at p q ((r, n) ∷ d) h =
    let (e, none_after) = absent_tail q r n d h in
    let rest : lookup (move_tree p q d) q ≡ lookup d p = lookup-move_tree_at p q d none_after in
    elim (Bool-cases (is_in_tree p r)) [
      | inl f ↦ rw (f, moved_onto p q r f, rest) refl
      | inr f ↦ rw (f, e, outside_eq p r f) rest
    ]

lookup-rename_over_at :
    (p q : Text) (d : Disk) (n : Node) (o : Option Node)
    → p ≢ q
    → lookup d q ≡ o
    → (rename_over p q d n o).0 ≡ ok tt
    → lookup (rename_over p q d n o).1 q ≡ lookup d p
unfolding rename_over
lookup-rename_over_at p q d n (some directory) ne h k = cc k
lookup-rename_over_at p q d directory (some (file t)) ne h k = cc k
lookup-rename_over_at p q d (file u) (some (file t)) ne h k =
    lookup-move_tree_at p q (erase d q) (lookup-erase_self d q)
    ∙ lookup-erase_ne d q p (λ e. ne (sym e))
lookup-rename_over_at p q d n none ne h k = lookup-move_tree_at p q d h

-- A rename that succeeds brings what stood at the one path to the other.
pub rename_lem :
    (p q : Text) (d : Disk) (n : Node)
    → p ≢ q
    → lookup d p ≡ some n
    → (rename p q d).0 ≡ ok tt
    → lookup (rename p q d).1 q ≡ some n
unfolding rename
rename_lem p q d n ne e = elim (entry_cases d (dir_of q)) [
  | inl f ↦ rw (e, f, rename) (λ k. cc k)
  | inr (inl f) ↦ rw (e, f, rename) (λ k. lookup-rename_over_at p q d n (lookup d q) ne refl k ∙ e)
  | inr (inr (t, f)) ↦ rw (e, f, rename) (λ k. cc k)
]

-- ===== src/Workspace/Deleting.antt =====
-- `DeletePath` of workspace/workspace.go.
use kkode.Prelude.{
  Bool, true, false, [], ◌∷◌, ◌++◌, ◌≡◌, ◌≢◌, refl, ap, ◌∙◌, arith, if◌then◌else◌, ◌⊎◌,
  length-append, Result, ok, err, Result-cases, Bool-cases, inl, inr,
}
use kkode.Strings.{Text, text_eq, has_prefix}
use kkode.Strings.Prefixes.{text_eq_iff, text_eq_refl, length-le_of_has_prefix}
use kkode.Filepath.{slash, clean}
use kkode.Disk.{
  Node, file, directory, OsError, Disk, Call, lookup, stat, remove, remove_all, is_in_tree,
}
use kkode.Disk.Entries.{lookup-remove_ne}
use kkode.Disk.Trees.{lookup-erase_tree, outside_ne}
use kkode.Workspace.{Workspace, PathError, resolve, target}
use kkode.Workspace.Inside.{resolve-accepts}

pub data DeleteError : Type 0 where
  bad_path : PathError → DeleteError
  is_root needs_recursive : DeleteError
  os_failed : OsError → DeleteError

abbrev pub Deletion : Type 0
Deletion = Result DeleteError (Unit {0}) × Disk

abbrev pub done_by : Call → Deletion
done_by (ok u, d) = (ok tt, d)
done_by (err e, d) = (err (os_failed e), d)

-- The end of `DeletePath`, from the entry at the path on
unfoldable pub delete_entry : Text → Bool → Disk → Result OsError Node → Deletion
unfolding remove remove_all
delete_entry path recursive d (err e) = (err (os_failed e), d)
delete_entry path true d (ok node) = done_by (remove_all path d)
delete_entry path false d (ok directory) = (err needs_recursive, d)
delete_entry path false d (ok (file t)) = done_by (remove path d)

abbrev pub delete_resolved : Workspace → Bool → Disk → Result PathError Text → Deletion
delete_resolved w recursive d (err e) = (err (bad_path e), d)
delete_resolved w recursive d (ok path) =
    if text_eq path (clean w.root)
    then (err is_root, d)
    else delete_entry path recursive d (stat d path)

-- `DeletePath`
unfoldable pub delete_path : Workspace → Text → Bool → Disk → Deletion
unfolding resolve delete_entry stat text_eq
delete_path w rel recursive d = delete_resolved w recursive d (resolve w rel)

refutes : (w : Workspace) (path : Text) → text_eq path (clean w.root) ≡ false → clean w.root ≢ path
refutes w path ne e = cc (ne, ap (λ t. text_eq t (clean w.root)) e, text_eq_refl (clean w.root))

-- The workspace's root lies in the tree of no other path that `Resolve` accepts.
root_outside :
    (w : Workspace) (rel path : Text)
    → resolve w rel ≡ ok path
    → text_eq path (clean w.root) ≡ false
    → is_in_tree path (clean w.root) ≡ false
unfolding is_in_tree
root_outside w rel path h ne =
    let (e, side) = resolve-accepts w rel path h in
    let under : has_prefix path (clean w.root ++ slash ∷ []) ≡ true = elim side [
      | inl same ↦ absurd (cc (same, ne, ap (λ t. text_eq t (clean w.root)) e))
      | inr below ↦ ap (λ t. has_prefix t (clean w.root ++ slash ∷ [])) e ∙ below
    ] in
    let longer = length-le_of_has_prefix path (clean w.root ++ slash ∷ []) under in
    elim (Bool-cases (text_eq (clean w.root) path)) [
      | inl same ↦ absurd (refutes w path ne ((text_eq_iff (clean w.root) path).0 same))
      | inr other ↦ elim (Bool-cases (has_prefix (clean w.root) (path ++ slash ∷ []))) [
        | inl above ↦ absurd (
            omega (
              arith,
              longer,
              length-le_of_has_prefix (clean w.root) (path ++ slash ∷ []) above,
              length-append path (slash ∷ []),
              length-append (clean w.root) (slash ∷ []),
            ))
        | inr f ↦ rw (other, f) refl
      ]
    ]

done_by_disk : (c : Call) → (done_by c).1 ≡ c.1
done_by_disk (ok u, d) = refl
done_by_disk (err e, d) = refl

delete_entry-keeps :
    (path q : Text) (recursive : Bool) (d : Disk) (found : Result OsError Node)
    → is_in_tree path q ≡ false
    → lookup (delete_entry path recursive d found).1 q ≡ lookup d q
unfolding delete_entry
delete_entry-keeps path q recursive d (err e) h = refl
delete_entry-keeps path q true d (ok node) h = lookup-erase_tree path q d h
delete_entry-keeps path q false d (ok directory) h = refl
delete_entry-keeps path q false d (ok (file t)) h =
    ap (λ o. lookup o q) (done_by_disk (remove path d))
    ∙ lookup-remove_ne path d q (outside_ne path q h)

-- Whatever `DeletePath` is asked, and whether it succeeds or fails, it leaves the workspace's root as it
-- was, and every entry that is neither the path that the argument names nor below that path.
pub delete_path-keeps :
    (w : Workspace) (rel q : Text) (recursive : Bool) (d : Disk)
    → (text_eq q (clean w.root) ≡ true) ⊎ (is_in_tree (target w rel) q ≡ false)
    → lookup (delete_path w rel recursive d).1 q ≡ lookup d q
unfolding delete_path
delete_path-keeps w rel q recursive d h = elim (Result-cases (resolve w rel)) [
  | inr (e, f) ↦ rw f refl
  | inl (path, f) ↦ elim (Bool-cases (text_eq path (clean w.root))) [
    | inl same ↦ rw (f, same) refl
    | inr other ↦
        let apart : is_in_tree path q ≡ false = elim h [
          | inl root ↦
              ap (is_in_tree path) ((text_eq_iff _ _).0 root) ∙ root_outside w rel path f other
          | inr out ↦ ap (λ t. is_in_tree t q) ((resolve-accepts w rel path f).0) ∙ out
        ] in
        rw (f, other) (delete_entry-keeps path q recursive d (stat d path) apart)
  ]
]

-- ===== src/Workspace/Moving/Moved.antt =====
-- What `MovePath` has done when it succeeds.
use kkode.Prelude.{
  Bool, true, false, [], ◌∷◌, ◌||◌, ◌&&◌, ◌++◌, ◌≡◌, ◌≢◌, refl, sym, ap, ◌∙◌, some, Result, ok, err,
  Bool-cases, inl, inr,
}
use kkode.Strings.{Text, text_eq, is_empty, has_prefix, trim_space}
use kkode.Strings.Prefixes.{text_eq_ne}
use kkode.Filepath.{slash, clean}
use kkode.Disk.{
  Node, OsError, not_exist, is_directory, not_directory, not_empty, Disk, Call, lookup, dir_of,
  stat, remove_all, mkdir_all, rename, erase_tree, and_then, is_in_tree,
}
use kkode.Disk.Entries.{mkdir_all-Keeps, and_then-ok}
use kkode.Disk.Trees.{lookup-erase_tree, outside_ne, rename_lem}
use kkode.Workspace.{Workspace, resolve}
use kkode.Workspace.Moving.{
  Move, moved_by, is_dir, move_there, move_onto, move_entry, move_resolved, move_path,
}

-- If the move succeeds, the entry is at the destination.
abbrev Brings : Text → Node → Move → Type 0
Brings p n m = m.0 ≡ ok tt → lookup m.1 p ≡ some n

Brings-moved_by :
    (p : Text) (n : Node) (c : Call)
    → (c.0 ≡ ok tt → lookup c.1 p ≡ some n)
    → Brings p n (moved_by c)
Brings-moved_by p n (ok tt, d) h k = h refl
Brings-moved_by p n (err e, d) h k = cc k

module _ (source destination : Text) (n : Node)
    (apart : is_in_tree destination source ≡ false) where
  source_ne : source ≢ destination
  source_ne e = outside_ne destination source apart (sym e)

  there-Brings :
      (d : Disk)
      → lookup d source ≡ some n
      → (move_there source destination d).0 ≡ ok tt
      → lookup (move_there source destination d).1 destination ≡ some n
  unfolding move_there
  there-Brings d h k =
      let (made, e) =
        and_then-ok (mkdir_all (dir_of destination) d) (rename source destination) k in
      ap (λ c. lookup c.1 destination) e
      ∙ rename_lem source destination (mkdir_all (dir_of destination) d).1 n source_ne
          (mkdir_all-Keeps (dir_of destination) d source n h) (sym (ap (λ c. c.0) e) ∙ k)

  onto-Brings :
      (overwrite : Bool) (d : Disk) (found : Result OsError Node)
      → lookup d source ≡ some n
      → Brings destination n (move_onto source destination overwrite d found)
  unfolding move_onto
  onto-Brings true d (ok m) h k =
      Brings-moved_by destination n
        (and_then (remove_all destination d) (move_there source destination))
        (unfold and_then remove_all in
          there-Brings (erase_tree destination d)
            (lookup-erase_tree destination source d apart ∙ h))
        k
  onto-Brings false d (ok m) h k = cc k
  onto-Brings overwrite d (err not_exist) h k =
      Brings-moved_by destination n (move_there source destination d) (there-Brings d h) k
  onto-Brings overwrite d (err is_directory) h k = cc k
  onto-Brings overwrite d (err not_directory) h k = cc k
  onto-Brings overwrite d (err not_empty) h k = cc k

  entry-Brings :
      (overwrite : Bool) (d : Disk) (found : Result OsError Node)
      → lookup d source ≡ some n
      → Brings destination n (move_entry source destination overwrite d found)
  unfolding move_entry
  entry-Brings overwrite d (err e) h = λ k. cc k
  entry-Brings overwrite d (ok node) h =
      elim (Bool-cases (is_dir node && has_prefix destination (source ++ slash ∷ []))) [
        | inl e ↦ rw e (λ k. cc k)
        | inr e ↦ rw e (onto-Brings overwrite d (stat d destination) h)
      ]

  resolved-Brings :
      (root : Text) (overwrite : Bool) (d : Disk)
      → lookup d source ≡ some n
      → Brings destination n (move_resolved root source destination overwrite d)
  unfolding move_resolved
  resolved-Brings root overwrite d h =
      elim (Bool-cases (text_eq source root || text_eq destination root)) [
        | inl e ↦ rw e (λ k. cc k)
        | inr e ↦
            rw (e, text_eq_ne source destination source_ne)
              (entry-Brings overwrite d (stat d source) h)
      ]

-- When `MovePath` succeeds and the source is neither the destination nor below it, then what stood at
-- the source, a file with its text or a directory, stands at the destination.
pub move_path-moves :
    (w : Workspace) (source destination from to : Text) (overwrite : Bool) (d : Disk) (n : Node)
    → resolve w (trim_space source) ≡ ok from
    → resolve w (trim_space destination) ≡ ok to
    → is_in_tree to from ≡ false
    → lookup d from ≡ some n
    → (move_path w source destination overwrite d).0 ≡ ok tt
    → lookup (move_path w source destination overwrite d).1 to ≡ some n
unfolding move_path
move_path-moves w source destination from to overwrite d n f g apart h =
    elim (Bool-cases (is_empty (trim_space destination))) [
      | inl e ↦ rw e (λ k. cc k)
      | inr e ↦ rw (e, f, g) (resolved-Brings from to n apart (clean w.root) overwrite d h)
    ]

-- ===== src/Workspace/Moving/Kept.antt =====
-- What `MovePath` leaves alone.
use kkode.Prelude.{
  Bool, true, false, [], ◌∷◌, ◌||◌, ◌&&◌, ◌++◌, ◌≡◌, refl, ap, ◌∙◌, Result, ok, err, Result-cases,
  Bool-cases, inl, inr,
}
use kkode.Strings.{Text, text_eq, is_empty, has_prefix, trim_space}
use kkode.Filepath.{slash, clean}
use kkode.Disk.{
  Node, OsError, not_exist, is_directory, not_directory, not_empty, Disk, Call, lookup, dir_of,
  stat, remove_all, mkdir_all, rename, and_then, is_in_tree,
}
use kkode.Disk.Entries.{Keeps, mkdir_all-Keeps}
use kkode.Disk.Trees.{lookup-erase_tree, lookup-rename}
use kkode.Workspace.{Workspace, resolve, target}
use kkode.Workspace.Inside.{resolve-accepts}
use kkode.Workspace.Moving.{
  moved_by, is_dir, move_there, move_onto, move_entry, move_resolved, move_path,
}

and_then-Keeps :
    (c : Call) (f : Disk → Call) (q : Text) (d : Disk)
    → Keeps q d c.1
    → ((e : Disk) → Keeps q e (f e).1)
    → Keeps q d (and_then c f).1
unfolding and_then
and_then-Keeps (ok u, e) f q d h k n i = k e n (h n i)
and_then-Keeps (err x, e) f q d h k n i = h n i

moved_by_disk : (c : Call) → (moved_by c).1 ≡ c.1
moved_by_disk (ok u, d) = refl
moved_by_disk (err e, d) = refl

remove_all-Keeps : (p q : Text) (d : Disk) → is_in_tree p q ≡ false → Keeps q d (remove_all p d).1
unfolding remove_all
remove_all-Keeps p q d h n e = lookup-erase_tree p q d h ∙ e

module _ (source destination q : Text) (from : is_in_tree source q ≡ false)
    (to : is_in_tree destination q ≡ false) where
  there-Keeps : (d : Disk) → Keeps q d (move_there source destination d).1
  unfolding move_there
  there-Keeps d =
      and_then-Keeps (mkdir_all (dir_of destination) d) (rename source destination) q d
        (mkdir_all-Keeps (dir_of destination) d q)
        (λ e n h. lookup-rename source destination q e from to ∙ h)

  onto-Keeps :
      (overwrite : Bool) (d : Disk) (found : Result OsError Node)
      → Keeps q d (move_onto source destination overwrite d found).1
  unfolding move_onto
  onto-Keeps true d (ok m) n h =
      ap (λ e. lookup e q) (moved_by_disk _)
      ∙ and_then-Keeps (remove_all destination d) (move_there source destination) q d
          (remove_all-Keeps destination q d to) there-Keeps n h
  onto-Keeps false d (ok m) n h = h
  onto-Keeps overwrite d (err not_exist) n h =
      ap (λ e. lookup e q) (moved_by_disk _) ∙ there-Keeps d n h
  onto-Keeps overwrite d (err is_directory) n h = h
  onto-Keeps overwrite d (err not_directory) n h = h
  onto-Keeps overwrite d (err not_empty) n h = h

  entry-Keeps :
      (overwrite : Bool) (d : Disk) (found : Result OsError Node)
      → Keeps q d (move_entry source destination overwrite d found).1
  unfolding move_entry
  entry-Keeps overwrite d (err e) n h = h
  entry-Keeps overwrite d (ok node) n h =
      elim (Bool-cases (is_dir node && has_prefix destination (source ++ slash ∷ []))) [
        | inl e ↦ rw e h
        | inr e ↦ rw e (onto-Keeps overwrite d (stat d destination) n h)
      ]

  resolved-Keeps :
      (root : Text) (overwrite : Bool) (d : Disk)
      → Keeps q d (move_resolved root source destination overwrite d).1
  unfolding move_resolved
  resolved-Keeps root overwrite d n h =
      elim (Bool-cases (text_eq source root || text_eq destination root)) [
        | inl e ↦ rw e h
        | inr e ↦ elim (Bool-cases (text_eq source destination)) [
          | inl f ↦ rw (e, f) h
          | inr f ↦ rw (e, f) (entry-Keeps overwrite d (stat d source) n h)
        ]
      ]

-- Whatever `MovePath` is asked, and whether it succeeds or fails, every entry that stands neither at
-- or below the path that the source names nor at or below the one that the destination names stands
-- afterwards as it did.
pub move_path-Keeps :
    (w : Workspace) (source destination q : Text) (overwrite : Bool) (d : Disk)
    → is_in_tree (target w (trim_space source)) q ≡ false
    → is_in_tree (target w (trim_space destination)) q ≡ false
    → Keeps q d (move_path w source destination overwrite d).1
unfolding move_path
move_path-Keeps w source destination q overwrite d h k n i =
    elim (Bool-cases (is_empty (trim_space destination))) [
      | inl e ↦ rw e i
      | inr e ↦ elim (Result-cases (resolve w (trim_space source))) [
        | inr (x, f) ↦ rw (e, f) i
        | inl (from, f) ↦ elim (Result-cases (resolve w (trim_space destination))) [
          | inr (x, g) ↦ rw (e, f, g) i
          | inl (to, g) ↦
              rw (e, f, g)
                (resolved-Keeps from to q
                  (ap (λ t. is_in_tree t q) (resolve-accepts w _ from f).0 ∙ h)
                  (ap (λ t. is_in_tree t q) (resolve-accepts w _ to g).0 ∙ k) (clean w.root)
                  overwrite d n i)
        ]
      ]
    ]

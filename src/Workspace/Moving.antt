-- ===== src/Workspace/Moving.antt =====
-- `MovePath` of workspace/workspace.go.
pub mod Kept
pub mod Moved
use kkode.Prelude.{
  Bool, true, false, ◌&&◌, ◌||◌, List, [], ◌∷◌, ◌++◌, if◌then◌else◌, Result, ok, err,
}
use kkode.Strings.{Text, text_eq, is_empty, has_prefix, trim_space}
use kkode.Filepath.{slash, clean}
use kkode.Disk.{
  Node, file, directory, OsError, not_exist, is_directory, not_directory, not_empty, Disk, Call,
  dir_of, stat, remove_all, mkdir_all, rename, and_then,
}
use kkode.Workspace.{Workspace, PathError, resolve}

pub data MoveError : Type 0 where
  needs_destination is_root into_itself already_exists : MoveError
  bad_path : PathError → MoveError
  os_failed : OsError → MoveError

abbrev pub Move : Type 0
Move = Result MoveError (Unit {0}) × Disk

abbrev pub moved_by : Call → Move
moved_by (ok u, d) = (ok tt, d)
moved_by (err e, d) = (err (os_failed e), d)

unfoldable pub is_dir : Node → Bool
is_dir directory = true
is_dir (file t) = false

-- The end of `MovePath`, once nothing is in the way
unfoldable pub move_there : Text → Text → Disk → Call
unfolding and_then mkdir_all rename
move_there source destination d =
    and_then (mkdir_all (dir_of destination) d) (rename source destination)

-- What `MovePath` does about an entry that may stand at the destination
unfoldable pub move_onto : Text → Text → Bool → Disk → Result OsError Node → Move
unfolding move_there and_then remove_all
move_onto source destination true d (ok n) =
    moved_by (and_then (remove_all destination d) (move_there source destination))
move_onto source destination false d (ok n) = (err already_exists, d)
move_onto source destination overwrite d (err not_exist) =
    moved_by (move_there source destination d)
move_onto source destination overwrite d (err is_directory) = (err (os_failed is_directory), d)
move_onto source destination overwrite d (err not_directory) = (err (os_failed not_directory), d)
move_onto source destination overwrite d (err not_empty) = (err (os_failed not_empty), d)

unfoldable pub move_entry : Text → Text → Bool → Disk → Result OsError Node → Move
unfolding move_onto stat has_prefix is_dir
move_entry source destination overwrite d (err e) = (err (os_failed e), d)
move_entry source destination overwrite d (ok node) =
    if is_dir node && has_prefix destination (source ++ slash ∷ [])
    then (err into_itself, d)
    else move_onto source destination overwrite d (stat d destination)

unfoldable pub move_resolved : Text → Text → Text → Bool → Disk → Move
unfolding move_entry stat text_eq
move_resolved root source destination overwrite d =
    if text_eq source root || text_eq destination root
    then (err is_root, d)
    else if text_eq source destination
    then (ok tt, d)
    else move_entry source destination overwrite d (stat d source)

-- `MovePath`
unfoldable pub move_path : Workspace → Text → Text → Bool → Disk → Move
unfolding resolve move_resolved is_empty trim_space
move_path w source destination overwrite d =
    if is_empty (trim_space destination)
    then (err needs_destination, d)
    else elim (resolve w (trim_space source)) [
      | err e ↦ (err (bad_path e), d)
      | ok from ↦ elim (resolve w (trim_space destination)) [
        | err e ↦ (err (bad_path e), d)
        | ok to ↦ move_resolved (clean w.root) from to overwrite d
      ]
    ]

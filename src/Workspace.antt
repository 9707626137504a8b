-- ===== src/Workspace.antt =====
-- workspace/workspace.go: the directory that an agent may work in.
pub mod Inside
pub mod Patch
pub mod Editing
pub mod Deleting
pub mod Moving
pub mod Reading
pub mod Output
use kkode.Prelude.{ℕ, Bool, ◌&&◌, not, ◌∷◌, [], ◌++◌, if◌then◌else◌, Result, ok, err}
use kkode.Strings.{Text, text_eq, is_empty, has_prefix}
use kkode.Filepath.{slash, is_abs, clean, join_path}

-- The root, which `New` makes absolute.
pub record Workspace : Type 0 where
  pub root : Text

-- Why `Resolve` refuses a path.
pub data PathError : Type 0 where
  path_required path_escapes : PathError

-- The path that the argument names, before the test that it lies in the workspace.
unfoldable pub target : Workspace → Text → Text
target w rel = clean (if is_abs rel then clean rel else join_path w.root rel)

unfoldable pub resolve : Workspace → Text → Result PathError Text
unfolding is_empty
resolve w rel =
    if is_empty rel
    then err path_required
    else if not (text_eq (target w rel) (clean w.root))
        && not (has_prefix (target w rel) (clean w.root ++ slash ∷ []))
    then err path_escapes
    else ok (target w rel)

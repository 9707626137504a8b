-- ===== src/Workspace/Editing.antt =====
-- `ReadFile`, `WriteFile` and `EditFile` of workspace/workspace.go.
pub mod Replaced
use kkode.Prelude.{
  ℕ, Bool, if◌then◌else◌, ◌==◌, ◌&&◌, ltb, not, Result, ok, err, ◌>>=◌, ◌>>◌, reject_if,
}
use kkode.Prelude.Int.{ℤ, pos, negsuc, is_negative, magnitude}
use kkode.Strings.{Text, is_empty, count, replace}
use kkode.Disk.{Disk, Call, OsError, read_file, mkdir_all, write_file, dir_of, and_then}
use kkode.Workspace.{Workspace, PathError, resolve}

pub data EditError : Type 0 where
  old_required negative_expected not_found : EditError
  wrong_count : ℕ → EditError
  bad_path : PathError → EditError
  os_failed : OsError → EditError

abbrev pub lift_path : Result PathError Text → Result EditError Text
lift_path (ok p) = ok p
lift_path (err e) = err (bad_path e)

abbrev pub lift_os {ℓ} : {A : Type ℓ} → Result OsError A → Result EditError A
lift_os (ok a) = ok a
lift_os (err e) = err (os_failed e)

-- `ReadFile`: a range with no bounds is the whole file.
unfoldable pub read_whole : Workspace → Text → Disk → Result EditError Text
read_whole w rel d = do path ← lift_path (resolve w rel); lift_os (read_file d path)

abbrev pub finish : Call → Result EditError (Unit {0}) × Disk
finish (r, d) = (lift_os r, d)

-- `WriteFile`
unfoldable pub write_whole : Workspace → Text → Text → Disk → Result EditError (Unit {0}) × Disk
write_whole w rel content d = elim (resolve w rel) [
  | err e ↦ (err (bad_path e), d)
  | ok path ↦ finish (and_then (mkdir_all (dir_of path) d) (write_file path content))
]

-- The replacement in the content that was read; `expected` is 0 or the number of occurrences.
unfoldable pub replaced : Text → Text → ℕ → Text → Result EditError Text
replaced old new expected content =
    if count content old == 0
    then err not_found
    else if ltb 0 expected && not (count content old == expected)
    then err (wrong_count (count content old))
    else ok (replace content old new (if ltb 0 expected then expected else count content old))

-- What `EditFile` decides before it writes: the new content.
unfoldable pub edited : Workspace → Text → Text → Text → ℤ → Disk → Result EditError Text
unfolding replaced
edited w rel old new expected d = do
  reject_if (is_empty old) old_required
  reject_if (is_negative expected) negative_expected
  content ← read_whole w rel d
  replaced old new (magnitude expected) content

-- `EditFile`
unfoldable pub edit_file :
    Workspace → Text → Text → Text → ℤ → Disk → Result EditError (Unit {0}) × Disk
unfolding edited write_whole
edit_file w rel old new expected d = elim (edited w rel old new expected d) [
  | err e ↦ (err e, d)
  | ok content ↦ write_whole w rel content d
]

-- ===== src/Examples/Paths.antt =====
-- The theorems on paths, files and output at concrete inputs.
use kkode.Prelude.{
  ◌<◌, true, false, [], none, inr, ◌∷◌, ◌++◌, ◌≡◌, refl, arith, take, length, some, ok, err,
}
use kkode.Prelude.Int.{pos}
use kkode.Strings.{Text, codes, is_empty, text_eq, join, split, count, trim_space}
use kkode.Filepath.{clean, join_path}
use kkode.Filepath.Clean.{IsName, render}
use kkode.Disk.{Node, file, directory, not_exist, Disk, lookup}
use kkode.Workspace.{Workspace, resolve, target}
use kkode.Workspace.Inside.{IsRoot, IsInside, resolve-IsInside}
use kkode.Workspace.Moving.{into_itself, os_failed, move_path}
use kkode.Workspace.Moving.Kept.{move_path-Keeps}
use kkode.Workspace.Moving.Moved.{move_path-moves}
use kkode.Workspace.Deleting.{is_root, needs_recursive, delete_path, delete_path-keeps}
use kkode.Workspace.Editing.{edit_file}
use kkode.Workspace.Editing.Replaced.{IsEdited, edit_file-IsEdited}
use kkode.Workspace.Reading.{newline, read_file_range}
use kkode.Workspace.Reading.Ranges.{read_file_range-pages}
use kkode.Workspace.Output.{write_each, empty_buffer, all_bytes, write_each-first}

abbrev home : Workspace
home = record { root = codes "/r" }

r-IsName : IsName (codes "r")
unfolding is_empty text_eq
r-IsName = record { has_text = refl; not_dot = refl; not_dotdot = refl; no_slash = (refl, tt) }

home-IsRoot : IsRoot home (codes "r" ∷ [])
unfolding render join
home-IsRoot = record { root_names = (r-IsName, tt); is_root = refl }

abbrev top : Workspace
top = record { root = codes "/" }

top-IsRoot : IsRoot top []
unfolding render join
top-IsRoot = record { root_names = tt; is_root = refl }

climbing : resolve home (codes "a/../b") ≡ ok (codes "/r/b")
unfolding resolve text_eq target clean join_path
climbing = refl

resolve-IsInside_example : IsInside (codes "r" ∷ []) (codes "/r/b")
resolve-IsInside_example =
    resolve-IsInside home (codes "r" ∷ []) (codes "a/../b") (codes "/r/b") home-IsRoot climbing

top_itself : resolve top (codes "/") ≡ ok (codes "/")
unfolding resolve text_eq target clean
top_itself = refl

abbrev disk : Disk
disk = (codes "/r/b", file (codes "x\ny")) ∷ []

edited_b : (edit_file home (codes "b") (codes "x") (codes "z") (pos 1) disk).0 ≡ ok tt
unfolding edit_file is_empty kkode.Workspace.Editing.read_whole resolve text_eq target clean
    join_path kkode.Disk.read_file count kkode.Disk.and_then kkode.Disk.mkdir_all kkode.Disk.dir_of
    kkode.Disk.write_file
edited_b = refl

edit_file-IsEdited_example :
    (path content result : Text) × (resolve home (codes "b") ≡ ok path)
    × (lookup disk path ≡ some (file content))
    × IsEdited (codes "x") (codes "z") 1 content result
    × (lookup (edit_file home (codes "b") (codes "x") (codes "z") (pos 1) disk).1 path
        ≡ some (file result))
edit_file-IsEdited_example =
    edit_file-IsEdited home (codes "b") (codes "x") (codes "z") (pos 1) disk edited_b

all_of_b :
    read_file_range home (codes "b") (record { offset_line = pos 0; limit_lines = pos 0 }) disk
    ≡ ok (codes "x\ny")
unfolding read_file_range resolve text_eq target clean join_path kkode.Disk.read_file
all_of_b = refl

one_line : 1 < length (split (codes "x\ny") newline)
unfolding split
one_line = omega arith

read_file_range-pages_example :
    (first rest : Text) × (read_file_range home
        (codes "b")
        (record { offset_line = pos 1; limit_lines = pos 1 })
        disk
      ≡ ok first)
    × (read_file_range home (codes "b") (record { offset_line = pos 2; limit_lines = pos 0 }) disk
        ≡ ok rest)
    × (first ++ (newline ++ rest) ≡ codes "x\ny")
read_file_range-pages_example =
    read_file_range-pages home (codes "b") disk (codes "x\ny") 1 all_of_b (omega arith) one_line
      (omega arith)

write_each-first_example :
    ((write_each (codes "ab" ∷ codes "cd" ∷ []) (empty_buffer (pos 3))).buf
      ≡ take 3 (all_bytes (codes "ab" ∷ codes "cd" ∷ [])))
    × ((write_each (codes "ab" ∷ codes "cd" ∷ []) (empty_buffer (pos 3))).truncated ≡ false
        → (write_each (codes "ab" ∷ codes "cd" ∷ []) (empty_buffer (pos 3))).buf
          ≡ all_bytes (codes "ab" ∷ codes "cd" ∷ []))
write_each-first_example = write_each-first (pos 3) (codes "ab" ∷ codes "cd" ∷ [])

abbrev tree : Disk
tree =
    (codes "/r", directory)
    ∷ (codes "/r/d", directory)
    ∷ (codes "/r/d/x", file (codes "1"))
    ∷ (codes "/r/dx", file (codes "2"))
    ∷ []

needs_flag : (delete_path home (codes "d") false tree).0 ≡ err needs_recursive
unfolding delete_path resolve text_eq target clean join_path kkode.Disk.stat
needs_flag = refl

root_refused : (delete_path home (codes "./d/..") true tree).0 ≡ err is_root
unfolding delete_path resolve text_eq target clean join_path kkode.Disk.stat
root_refused = refl

all_below_gone : lookup (delete_path home (codes "d") true tree).1 (codes "/r/d/x") ≡ none
unfolding delete_path resolve text_eq target clean join_path kkode.Disk.stat kkode.Disk.remove_all
all_below_gone = refl

beside_d : kkode.Disk.is_in_tree (target home (codes "d")) (codes "/r/dx") ≡ false
unfolding kkode.Disk.is_in_tree text_eq target clean join_path
beside_d = refl

delete_path-keeps_example :
    lookup (delete_path home (codes "d") true tree).1 (codes "/r/dx") ≡ lookup tree (codes "/r/dx")
delete_path-keeps_example =
    delete_path-keeps home (codes "d") (codes "/r/dx") true tree (inr beside_d)

renamed :
    lookup (move_path home (codes "d") (codes " e ") false tree).1 (codes "/r/e/x")
    ≡ some (file (codes "1"))
unfolding move_path resolve text_eq target clean join_path trim_space kkode.Disk.stat
    kkode.Disk.mkdir_all kkode.Disk.dir_of kkode.Disk.rename kkode.Disk.and_then
renamed = refl

into_itself_refused : (move_path home (codes "d") (codes "d/e") true tree).0 ≡ err into_itself
unfolding move_path resolve text_eq target clean join_path trim_space kkode.Disk.stat
into_itself_refused = refl

source_lost :
    ((move_path home (codes "d/x") (codes "d") true tree).0 ≡ err (os_failed not_exist))
    × (lookup (move_path home (codes "d/x") (codes "d") true tree).1 (codes "/r/d/x") ≡ none)
    × (lookup (move_path home (codes "d/x") (codes "d") true tree).1 (codes "/r/d") ≡ none)
unfolding move_path resolve text_eq target clean join_path trim_space kkode.Disk.stat
    kkode.Disk.mkdir_all kkode.Disk.dir_of kkode.Disk.rename kkode.Disk.and_then
source_lost = (refl, refl, refl)

dx_stands : lookup tree (codes "/r/dx") ≡ some (file (codes "2"))
unfolding lookup text_eq
dx_stands = refl

beside_e : kkode.Disk.is_in_tree (target home (trim_space (codes "e"))) (codes "/r/dx") ≡ false
unfolding kkode.Disk.is_in_tree text_eq target clean join_path trim_space
beside_e = refl

beside_source : kkode.Disk.is_in_tree (target home (trim_space (codes "d"))) (codes "/r/dx") ≡ false
unfolding kkode.Disk.is_in_tree text_eq target clean join_path trim_space
beside_source = refl

move_path-Keeps_example :
    lookup (move_path home (codes "d") (codes "e") true tree).1 (codes "/r/dx")
    ≡ some (file (codes "2"))
move_path-Keeps_example =
    move_path-Keeps home (codes "d") (codes "e") (codes "/r/dx") true tree beside_source beside_e
      (file (codes "2")) dx_stands

names_d : resolve home (trim_space (codes "d")) ≡ ok (codes "/r/d")
unfolding resolve text_eq target clean join_path trim_space
names_d = refl

names_dx : resolve home (trim_space (codes "dx")) ≡ ok (codes "/r/dx")
unfolding resolve text_eq target clean join_path trim_space
names_dx = refl

d_apart : kkode.Disk.is_in_tree (codes "/r/dx") (codes "/r/d") ≡ false
unfolding kkode.Disk.is_in_tree text_eq
d_apart = refl

d_stands : lookup tree (codes "/r/d") ≡ some directory
unfolding lookup text_eq
d_stands = refl

moved_over : (move_path home (codes "d") (codes "dx") true tree).0 ≡ ok tt
unfolding move_path resolve text_eq target clean join_path trim_space kkode.Disk.stat
    kkode.Disk.mkdir_all kkode.Disk.dir_of kkode.Disk.rename kkode.Disk.and_then
moved_over = refl

move_path-moves_example :
    lookup (move_path home (codes "d") (codes "dx") true tree).1 (codes "/r/dx") ≡ some directory
move_path-moves_example =
    move_path-moves home (codes "d") (codes "dx") (codes "/r/d") (codes "/r/dx") true tree directory
      names_d names_dx d_apart d_stands moved_over

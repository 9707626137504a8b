-- ===== src/Examples/Patches.antt =====
-- The theorems on patches at concrete inputs.
use kkode.Strings.Bytes
use kkode.Prelude.{List, [], ◌∷◌, All, map, ◌≡◌, ◌≢◌, refl, arith, length, some, ok}
use kkode.Strings.{Text, codes, is_empty, text_eq, join, split, trim_space}
use kkode.Strings.Search.{IsExchange}
use kkode.Disk.{Node, file, Disk, lookup}
use kkode.Disk.Entries.{Keeps}
use kkode.Filepath.{clean, join_path}
use kkode.Workspace.{Workspace, resolve, target}
use kkode.Workspace.Patch.{
  PatchOp, add, delete, update, op_path, parse_patch, patch_paths, has_text,
}
use kkode.Workspace.Patch.Parsing.{Ends, HasOperations, parse_patch-Ends}
use kkode.Workspace.Patch.Printing.{
  remove, insert, Edit, updated, op_of, print_edits, print_patch, IsEdit, IsOneLine,
  parse-print_patch,
}
use kkode.Workspace.Patch.Applying.{PatchPlan, write, plan_op, plan_patch, apply_patch}
use kkode.Workspace.Patch.Applying.Outcome.{apply_patch-Keeps}
use kkode.Workspace.Patch.Applying.Writes.{plan_op-IsExchange}

abbrev home : Workspace
home = record { root = codes "/r" }

abbrev disk : Disk
disk = (codes "/r/b", file (codes "x y")) ∷ (codes "/r/c", file (codes "c")) ∷ []

abbrev edits : List Edit
edits = updated (codes "b") (remove (codes "x y") ∷ insert (codes "z") ∷ []) ∷ []

abbrev patch : Text
patch = codes "*** Begin Patch\n*** Update File: b\n@@\n-x\n+z\n*** End Patch"

patch-parse : parse_patch patch ≡ ok (update (codes "b") (codes "x") (codes "z") ∷ [])
unfolding parse_patch
patch-parse = refl

patch-paths : patch_paths patch ≡ ok (codes "b" ∷ [])
unfolding patch_paths
patch-paths = refl

parse_patch-Ends_example : Ends HasOperations (parse_patch patch)
parse_patch-Ends_example = parse_patch-Ends patch

edits-IsEdit : All IsEdit edits
unfolding is_empty trim_space join
edits-IsEdit = ((refl, refl), tt)

edits-IsOneLine : All IsOneLine (print_edits edits)
edits-IsOneLine = (
  (
    (
      refl,
      (
        refl,
        (
          refl,
          (
            refl,
            (
              refl,
              (
                refl,
                (
                  refl,
                  (
                    refl,
                    (
                      refl,
                      (refl, (refl, (refl, (refl, (refl, (refl, (refl, (refl, (refl, tt))))))))),
                    ),
                  ),
                ),
              ),
            ),
          ),
        ),
      ),
    ),
    (
      refl,
      (
        refl,
        (
          refl,
          (
            refl,
            (
              refl,
              (
                refl,
                (
                  refl,
                  (
                    refl,
                    (
                      refl,
                      (refl, (refl, (refl, (refl, (refl, (refl, (refl, (refl, (refl, tt))))))))),
                    ),
                  ),
                ),
              ),
            ),
          ),
        ),
      ),
    ),
  ),
  (
    ((refl, (refl, (refl, (refl, tt)))), (refl, (refl, (refl, (refl, tt))))),
    (((refl, (refl, tt)), (refl, (refl, tt))), tt),
  ),
)

parse-print_patch_example : parse_patch (print_patch edits) ≡ ok (map op_of edits)
parse-print_patch_example =
    parse-print_patch (updated (codes "b") (remove (codes "x y") ∷ insert (codes "z") ∷ [])) []
      edits-IsEdit edits-IsOneLine

other_path : All (λ p. resolve home p ≢ ok (codes "/r/c")) (codes "b" ∷ [])
unfolding resolve text_eq target clean join_path
other_path = (λ e. ground arith, tt)

apply_patch-Keeps_example : Keeps (codes "/r/c") disk (apply_patch home patch disk).1
apply_patch-Keeps_example =
    apply_patch-Keeps home patch disk (codes "/r/c") (codes "b" ∷ []) patch-paths other_path

planned :
    plan_op home disk (update (codes "b") (codes "x") (codes "z"))
    ≡ ok (write (codes "/r/b") (codes "z y"))
unfolding plan_op resolve text_eq kkode.Workspace.target kkode.Filepath.clean
    kkode.Filepath.join_path kkode.Disk.read_file kkode.Strings.contains kkode.Strings.replace
planned = refl

some_text : 0 ≢ length (codes "x")
some_text = omega arith

plan_op-IsExchange_example :
    (path content result : Text) × (resolve home (codes "b") ≡ ok path)
    × (lookup disk path ≡ some (file content))
    × (write (codes "/r/b") (codes "z y") ≡ write path result)
    × IsExchange (codes "x") (codes "z") content result
plan_op-IsExchange_example =
    plan_op-IsExchange home disk (codes "b") (codes "x") (codes "z")
      (write (codes "/r/b") (codes "z y")) some_text planned

patch-plan : plan_patch home disk patch ≡ ok (write (codes "/r/b") (codes "z y") ∷ [])
unfolding plan_patch kkode.Strings.Bytes.byte_len parse_patch
    kkode.Workspace.Patch.Applying.plan_ops resolve text_eq kkode.Workspace.target
    kkode.Filepath.clean kkode.Filepath.join_path kkode.Disk.read_file kkode.Strings.contains
    kkode.Strings.replace
patch-plan = refl

patch-applies : (apply_patch home patch disk).0 ≡ ok tt
unfolding apply_patch kkode.Strings.Bytes.byte_len parse_patch
    kkode.Workspace.Patch.Applying.plan_ops resolve text_eq kkode.Workspace.target
    kkode.Filepath.clean kkode.Filepath.join_path kkode.Disk.read_file kkode.Strings.contains
    kkode.Disk.mkdir_all kkode.Disk.dir_of kkode.Disk.write_file
patch-applies = refl

abbrev twice : Text
twice =
    codes
      "*** Begin Patch\n*** Update File: b\n@@\n-x\n+z\n*** Update File: b\n@@\n-y\n+w\n*** End Patch"

twice-parse :
    parse_patch twice
    ≡ ok (
        update (codes "b") (codes "x") (codes "z")
        ∷ update (codes "b") (codes "y") (codes "w")
        ∷ [])
unfolding parse_patch
twice-parse = refl

twice-applies : (apply_patch home twice disk).0 ≡ ok tt
unfolding apply_patch kkode.Strings.Bytes.byte_len parse_patch
    kkode.Workspace.Patch.Applying.plan_ops resolve text_eq kkode.Workspace.target
    kkode.Filepath.clean kkode.Filepath.join_path kkode.Disk.read_file kkode.Strings.contains
    kkode.Disk.mkdir_all kkode.Disk.dir_of kkode.Disk.write_file
twice-applies = refl

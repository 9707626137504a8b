-- ===== src/Disk.antt =====
-- The calls of Go's package os that the program makes, on a disk that maps clean absolute paths to
-- entries. A call fails for the reasons that the entries show: permissions, full disks, symbolic
-- links and other processes are not modelled.
pub mod Entries
pub mod Trees
use mathlib.Core.List.{reverse}
use kkode.Prelude.{
  ℕ, Bool, true, false, List, [], ◌∷◌, ◌++◌, ◌==◌, ◌&&◌, ◌||◌, not, if◌then◌else◌, Option, none,
  some, Result, ok, err, drop, length,
}
use kkode.Strings.{Text, text_eq, is_empty, has_prefix}
use kkode.Filepath.{slash, clean}

pub data Node : Type 0 where
  file : Text → Node
  directory : Node

pub data OsError : Type 0 where
  not_exist is_directory not_directory not_empty : OsError

abbrev pub Disk : Type 0
Disk = List (Text × Node)

-- A call that may change the disk: its result, and the disk after it.
abbrev pub Call : Type 0
Call = Result OsError (Unit {0}) × Disk

unfoldable pub lookup : Disk → Text → Option Node
unfolding text_eq
lookup [] p = none
lookup ((q, n) ∷ d) p = if text_eq q p then some n else lookup d p

unfoldable pub erase : Disk → Text → Disk
unfolding text_eq
erase [] p = []
erase ((q, n) ∷ d) p = let rest = erase d p in if text_eq q p then rest else (q, n) ∷ rest

unfoldable pub put : Disk → Text → Node → Disk
put d p n = (p, n) ∷ d

-- `os.Stat`
unfoldable pub stat : Disk → Text → Result OsError Node
unfolding lookup
stat d p = elim (lookup d p) [ none ↦ err not_exist | some n ↦ ok n ]

unfoldable pub file_text : Node → Result OsError Text
file_text (file t) = ok t
file_text directory = err is_directory

-- `os.ReadFile`
unfoldable pub read_file : Disk → Text → Result OsError Text
unfolding lookup file_text
read_file d p = elim (lookup d p) [ none ↦ err not_exist | some n ↦ file_text n ]

-- The part of the path up to its last slash.
up_to_slash : Text → Text
up_to_slash [] = []
up_to_slash (c ∷ s) = if c == slash then c ∷ s else up_to_slash s

-- `filepath.Dir`
unfoldable pub dir_of : Text → Text
unfolding up_to_slash
dir_of p = clean (reverse (up_to_slash (reverse p)))

-- The directories on the way to the path, the path itself last.
unfoldable pub levels : Text → Text → List Text
unfolding is_empty
levels acc [] = acc ∷ []
levels acc (c ∷ s) =
    let rest = levels (acc ++ c ∷ []) s in
    if c == slash && not (is_empty acc) then acc ∷ rest else rest

unfoldable pub mkdir_each : List Text → Disk → Call
unfolding lookup put
mkdir_each [] d = (ok tt, d)
mkdir_each (p ∷ ps) d = elim (lookup d p) [
  | none ↦ mkdir_each ps (put d p directory)
  | some directory ↦ mkdir_each ps d
  | some (file t) ↦ (err not_directory, d)
]

-- `os.MkdirAll`
unfoldable pub mkdir_all : Text → Disk → Call
unfolding mkdir_each levels
mkdir_all p d = mkdir_each (levels [] p) d

-- `os.WriteFile`
unfoldable pub write_file : Text → Text → Disk → Call
unfolding lookup put
write_file p t d = elim (lookup d p) [
  | some directory ↦ (err is_directory, d)
  | some (file u) ↦ (ok tt, put d p (file t))
  | none ↦ elim (lookup d (dir_of p)) [
    | none ↦ (err not_exist, d)
    | some (file u) ↦ (err not_directory, d)
    | some directory ↦ (ok tt, put d p (file t))
  ]
]

-- Whether an entry lies below the path.
unfoldable pub has_below : Disk → Text → Bool
unfolding has_prefix
has_below [] p = false
has_below ((q, n) ∷ d) p = has_prefix q (p ++ slash ∷ []) || has_below d p

-- `os.Remove`
unfoldable pub remove : Text → Disk → Call
unfolding lookup erase has_below
remove p d = elim (lookup d p) [
  | none ↦ (err not_exist, d)
  | some (file t) ↦ (ok tt, erase d p)
  | some directory ↦ if has_below d p then (err not_empty, d) else (ok tt, erase d p)
]

-- The path itself, or an entry below it
unfoldable pub is_in_tree : Text → Text → Bool
unfolding text_eq has_prefix
is_in_tree p q = text_eq q p || has_prefix q (p ++ slash ∷ [])

unfoldable pub erase_tree : Text → Disk → Disk
unfolding is_in_tree
erase_tree p [] = []
erase_tree p ((q, n) ∷ d) =
    let rest = erase_tree p d in if is_in_tree p q then rest else (q, n) ∷ rest

-- `os.RemoveAll`, which succeeds also where nothing stands
unfoldable pub remove_all : Text → Disk → Call
unfolding erase_tree
remove_all p d = (ok tt, erase_tree p d)

-- The entries at and below `p`, put below `q` instead
unfoldable pub move_tree : Text → Text → Disk → Disk
unfolding is_in_tree
move_tree p q [] = []
move_tree p q ((r, n) ∷ d) =
    let rest = move_tree p q d in
    if is_in_tree p r then (q ++ drop (length p) r, n) ∷ rest else (r, n) ∷ rest

unfoldable pub rename_over : Text → Text → Disk → Node → Option Node → Call
unfolding move_tree erase
rename_over p q d n (some directory) = (err is_directory, d)
rename_over p q d directory (some (file t)) = (err not_directory, d)
rename_over p q d (file u) (some (file t)) = (ok tt, move_tree p q (erase d q))
rename_over p q d n none = (ok tt, move_tree p q d)

-- `os.Rename`, which on Unix replaces a file, but no directory
unfoldable pub rename : Text → Text → Disk → Call
unfolding lookup rename_over
rename p q d = elim (lookup d p) [
  | none ↦ (err not_exist, d)
  | some n ↦ elim (lookup d (dir_of q)) [
    | none ↦ (err not_exist, d)
    | some (file t) ↦ (err not_directory, d)
    | some directory ↦ rename_over p q d n (lookup d q)
  ]
]

-- Two calls, the second after the first has succeeded.
unfoldable pub and_then : Call → (Disk → Call) → Call
and_then (ok u, d) f = f d
and_then (err e, d) f = (err e, d)

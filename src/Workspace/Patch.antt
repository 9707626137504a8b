-- ===== src/Workspace/Patch.antt =====
-- `parsePatch`, `parseUpdateHunk` and `PatchPaths` of workspace/workspace.go: from the text of a
-- patch to its operations and the paths that they name. An index into the lines is the list of
-- the lines from there on.
pub mod Parsing
pub mod Printing
pub mod Applying
use kkode.Prelude.{
  ℕ, zero, suc, ◌+◌, Bool, true, false, ◌||◌, List, [], ◌∷◌, ◌++◌, ◌==◌, ltb, if◌then◌else◌, Result,
  ok, err, ◌>>=◌, ◌>>◌, reject_if, length,
}
use kkode.Strings.Bytes.{byte_len}
use kkode.Strings.{
  Text, codes, is_empty, text_eq, has_prefix, trim_prefix, trim_suffix, trim_space, split,
  replace_all,
}

-- The struct `patchOp`, split by its `kind`.
pub data PatchOp : Type 0 where
  add : Text → Text → PatchOp
  delete : Text → PatchOp
  update : Text → Text → Text → PatchOp

abbrev pub op_path : PatchOp → Text
op_path (add p new) = p
op_path (delete p) = p
op_path (update p old new) = p

-- `out_of_fuel` belongs to the model only.
pub data PatchError : Type 0 where
  too_long no_operations out_of_fuel : PatchError
  no_context : Text → PatchError

abbrev pub newline : ℕ
newline = 10

abbrev pub marker : Text
marker = codes "*** "

abbrev pub add_marker : Text
add_marker = codes "*** Add File: "

abbrev pub delete_marker : Text
delete_marker = codes "*** Delete File: "

abbrev pub update_marker : Text
update_marker = codes "*** Update File: "

-- The inner loop for an added file: the builder's text, and the lines from the next marker on.
unfoldable pub add_body : List Text → Text → Text × List Text
unfolding has_prefix trim_prefix
add_body [] b = (b, [])
add_body (l ∷ ls) b =
    let rest =
      add_body ls (
        if has_prefix l (b'+' ∷ []) then b ++ (trim_prefix l (b'+' ∷ []) ++ newline ∷ []) else b) in
    if has_prefix l marker then (b, l ∷ ls) else rest

-- One line of an update against the two builders.
unfoldable pub hunk_line : Text → Text × Text → Text × Text
hunk_line [] (old, new) = (old, new)
hunk_line (c ∷ t) (old, new) =
    if c == b' '
    then (old ++ (t ++ newline ∷ []), new ++ (t ++ newline ∷ []))
    else if c == b'-'
    then (old ++ (t ++ newline ∷ []), new)
    else if c == b'+'
    then (old, new ++ (t ++ newline ∷ []))
    else (old, new)

-- The loop of `parseUpdateHunk`.
unfoldable pub update_body : List Text → Text × Text → (Text × Text) × List Text
unfolding has_prefix hunk_line is_empty
update_body [] b = (b, [])
update_body (l ∷ ls) b =
    let rest =
      update_body ls (if has_prefix l (codes "@@") || is_empty l then b else hunk_line l b) in
    if has_prefix l marker then (b, l ∷ ls) else rest

-- The `strings.TrimSuffix` at the end of both builders.
unfoldable pub built : Text → Text
unfolding trim_suffix
built b = trim_suffix b (newline ∷ [])

unfoldable pub path_after : Text → Text → Text
unfolding trim_space trim_prefix
path_after m line = trim_space (trim_prefix line m)

-- The outer loop of `parsePatch`, each round on fuel.
unfoldable pub parse_lines : ℕ → List Text → List PatchOp → Result PatchError (List PatchOp)
unfolding add_body update_body built path_after has_prefix is_empty
parse_lines f [] ops = ok ops
parse_lines zero (l ∷ ls) ops = err out_of_fuel
parse_lines (suc f) (l ∷ ls) ops =
    let added = add_body ls [] in
    let hunk = update_body ls ([], []) in
    let after_add =
      parse_lines f added.1 (ops ++ add (path_after add_marker l) (built added.0) ∷ []) in
    let after_delete = parse_lines f ls (ops ++ delete (path_after delete_marker l) ∷ []) in
    let after_update =
      parse_lines f hunk.1
        (ops ++ update (path_after update_marker l) (built hunk.0.0) (built hunk.0.1) ∷ []) in
    let after_other = parse_lines f ls ops in
    if has_prefix l add_marker
    then after_add
    else if has_prefix l delete_marker
    then after_delete
    else if has_prefix l update_marker
    then if is_empty (built hunk.0.0)
      then err (no_context (path_after update_marker l))
      else after_update
    else after_other

-- The test after the loop.
unfoldable pub some_operations : List PatchOp → Result PatchError (List PatchOp)
some_operations [] = err no_operations
some_operations (op ∷ ops) = ok (op ∷ ops)

unfoldable pub patch_lines : Text → List Text
unfolding split replace_all
patch_lines text = split (replace_all text (13 ∷ newline ∷ []) (newline ∷ [])) (newline ∷ [])

-- `parsePatch`; a round takes a line at least, so the number of lines is enough fuel.
unfoldable pub parse_patch : Text → Result PatchError (List PatchOp)
unfolding parse_lines some_operations patch_lines
parse_patch text = parse_lines (length (patch_lines text)) (patch_lines text) [] >>= some_operations

abbrev pub max_patch_bytes : ℕ
max_patch_bytes = 1048576

-- `seen[path]`
unfoldable pub has_text : List Text → Text → Bool
unfolding text_eq
has_text [] p = false
has_text (q ∷ qs) p = text_eq q p || has_text qs p

-- The loop of `PatchPaths`.
unfoldable pub unique_paths : List Text → List PatchOp → List Text
unfolding has_text
unique_paths seen [] = []
unique_paths seen (op ∷ ops) =
    let skipped = unique_paths seen ops in
    let kept = unique_paths (op_path op ∷ seen) ops in
    if has_text seen (op_path op) then skipped else op_path op ∷ kept

-- `PatchPaths`
unfoldable pub patch_paths : Text → Result PatchError (List Text)
unfolding byte_len parse_patch unique_paths
patch_paths text = do
  reject_if (ltb max_patch_bytes (byte_len text)) too_long
  ops ← parse_patch text
  ok (unique_paths [] ops)

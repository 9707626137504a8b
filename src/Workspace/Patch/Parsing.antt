-- ===== src/Workspace/Patch/Parsing.antt =====
-- The parser of patches ends, and what it returns.
use kkode.Prelude.{
  ℕ, zero, suc, ◌≤◌, true, false, List, [], ◌∷◌, ◌++◌, ◌≡◌, refl, sym, ap, subst, arith, All,
  All-append, Result, ok, err, ◌>>=◌, >>=-eq-ok, reject_if, ltb, length, map, Bool-cases, inl, inr,
  ◌≢◌, ◌∙◌,
}
use kkode.Strings.{Text, is_empty, text_eq, has_prefix}
use kkode.Strings.Prefixes.{text_eq_iff, text_eq_refl}
use kkode.Strings.Bytes.{byte_len}
use kkode.Workspace.Patch.{
  PatchOp, add, delete, update, op_path, PatchError, too_long, no_operations, out_of_fuel,
  no_context, add_body, update_body, parse_lines, some_operations, parse_patch, patch_lines,
  has_text, unique_paths, patch_paths, built, max_patch_bytes, marker, add_marker, delete_marker,
  update_marker,
}

-- An update has a text to look for in the file.
abbrev pub HasContext : PatchOp → Type 0
HasContext (add p new) = Unit {0}
HasContext (delete p) = Unit {0}
HasContext (update p old new) = is_empty old ≡ false

length-add_body : (ls : List Text) (b : Text) → length (add_body ls b).1 ≤ length ls
unfolding add_body
length-add_body [] b = omega arith
length-add_body (l ∷ ls) b = elim (Bool-cases (has_prefix l marker)) [
  | inl e ↦ rw e (omega arith)
  | inr e ↦ rw e (omega (arith, length-add_body ls _))
]

length-update_body : (ls : List Text) (b : Text × Text) → length (update_body ls b).1 ≤ length ls
unfolding update_body
length-update_body [] b = omega arith
length-update_body (l ∷ ls) b = elim (Bool-cases (has_prefix l marker)) [
  | inl e ↦ rw e (omega arith)
  | inr e ↦ rw e (omega (arith, length-update_body ls _))
]

-- The run ended within its fuel, and the operations it gave satisfy `P`.
abbrev pub Ends : (List PatchOp → Type 0) → Result PatchError (List PatchOp) → Type 0
Ends P (ok ops) = P ops
Ends P (err too_long) = ⊥
Ends P (err no_operations) = Unit {0}
Ends P (err out_of_fuel) = ⊥
Ends P (err (no_context p)) = Unit {0}

HasContext-snoc :
    (ops : List PatchOp) (op : PatchOp)
    → All HasContext ops
    → HasContext op
    → All HasContext (ops ++ op ∷ [])
HasContext-snoc ops op h k = All-append HasContext ops (op ∷ []) h (k, tt)

parse_lines-Ends :
    (f : ℕ) (ls : List Text) (ops : List PatchOp)
    → length ls ≤ f
    → All HasContext ops
    → Ends (All HasContext) (parse_lines f ls ops)
unfolding parse_lines
parse_lines-Ends f [] ops h c = c
parse_lines-Ends zero (l ∷ ls) ops h c = absurd (omega arith)
parse_lines-Ends (suc f) (l ∷ ls) ops h c =
    let again : (ls : List Text) (ops : List PatchOp)
        → length ls ≤ f
        → All HasContext ops
        → Ends (All HasContext) (parse_lines f ls ops) =
      parse_lines-Ends f in
    elim (Bool-cases (has_prefix l add_marker)) [
      | inl e ↦
          rw e
            (again _ _ (omega (arith, length-add_body ls [])) (HasContext-snoc ops (add _ _) c tt))
      | inr e ↦ rw e (elim (Bool-cases (has_prefix l delete_marker)) [
        | inl d ↦ rw d (again ls _ (omega arith) (HasContext-snoc ops (delete _) c tt))
        | inr d ↦ rw d (elim (Bool-cases (has_prefix l update_marker)) [
          | inl u ↦ rw u (elim (Bool-cases (is_empty (built (update_body ls ([], [])).0.0))) [
            | inl n ↦ rw n tt
            | inr n ↦ rw n (
                again _ _ (omega (arith, length-update_body ls ([], [])))
                  (HasContext-snoc ops (update _ _ _) c n))
          ])
          | inr u ↦ rw u (again ls ops (omega arith) c)
        ])
      ])
    ]

abbrev pub HasOperations : List PatchOp → Type 0
HasOperations ops = (ops ≢ []) × All HasContext ops

some_operations-Ends :
    (r : Result PatchError (List PatchOp))
    → Ends (All HasContext) r
    → Ends HasOperations (r >>= some_operations)
unfolding some_operations
some_operations-Ends (ok []) h = tt
some_operations-Ends (ok (op ∷ ops)) h = (λ e. cc, h)
some_operations-Ends (err too_long) h = h
some_operations-Ends (err no_operations) h = tt
some_operations-Ends (err out_of_fuel) h = h
some_operations-Ends (err (no_context p)) h = tt

-- `parsePatch` returns on every text: at least one operation, each update with a text to look for,
-- or one of its two errors, a patch without operations or an update without context.
pub parse_patch-Ends : (text : Text) → Ends HasOperations (parse_patch text)
unfolding parse_patch
parse_patch-Ends text =
    some_operations-Ends _
      (parse_lines-Ends (length (patch_lines text)) (patch_lines text) [] (omega arith) tt)

-- No path stands twice.
abbrev pub Distinct : List Text → Type 0
Distinct [] = Unit {0}
Distinct (p ∷ ps) = (has_text ps p ≡ false) × Distinct ps

has_text_cong : (ps : List Text) (p q : Text) → text_eq p q ≡ true → has_text ps p ≡ has_text ps q
has_text_cong ps p q h = ap (has_text ps) ((text_eq_iff p q).0 h)

unique_paths-seen :
    (seen : List Text) (ops : List PatchOp) (p : Text)
    → has_text seen p ≡ true
    → has_text (unique_paths seen ops) p ≡ false
unfolding unique_paths has_text
unique_paths-seen seen [] p h = refl
unique_paths-seen seen (op ∷ ops) p h = ground (
  arith,
  unique_paths-seen seen ops p,
  unique_paths-seen (op_path op ∷ seen) ops p,
  has_text_cong seen (op_path op) p,
)

seen_self : (seen : List Text) (op : PatchOp) → has_text (op_path op ∷ seen) (op_path op) ≡ true
unfolding has_text
seen_self seen op = rw (text_eq_refl (op_path op))

unique_paths-Distinct : (seen : List Text) (ops : List PatchOp) → Distinct (unique_paths seen ops)
unfolding unique_paths
unique_paths-Distinct seen [] = tt
unique_paths-Distinct seen (op ∷ ops) = elim (Bool-cases (has_text seen (op_path op))) [
  | inl e ↦ rw e (unique_paths-Distinct seen ops)
  | inr e ↦ rw e (
    unique_paths-seen (op_path op ∷ seen) ops (op_path op) (seen_self seen op),
    unique_paths-Distinct (op_path op ∷ seen) ops,
  )
]

unique_paths_complete :
    (seen : List Text) (ops : List PatchOp) (p : Text)
    → has_text seen p ≡ false
    → has_text (unique_paths seen ops) p ≡ has_text (map op_path ops) p
unfolding unique_paths has_text
unique_paths_complete seen [] p h = refl
unique_paths_complete seen (op ∷ ops) p h = ground (
  arith,
  unique_paths_complete seen ops p,
  unique_paths_complete (op_path op ∷ seen) ops p,
  has_text_cong seen (op_path op) p,
)

-- Whenever a patch parses, `PatchPaths` lists every path that an operation names, no other path,
-- and none of them twice.
pub patch_paths_lem :
    (text : Text) (ops : List PatchOp) (paths : List Text)
    → parse_patch text ≡ ok ops
    → patch_paths text ≡ ok paths
    → Distinct paths × ((p : Text) → has_text paths p ≡ has_text (map op_path ops) p)
unfolding patch_paths
patch_paths_lem text ops paths parsed h =
    let (_, _, h') = >>=-eq-ok (reject_if (ltb max_patch_bytes (byte_len text)) too_long) _ h in
    let (ops', parsed', e) = >>=-eq-ok (parse_patch text) _ h' in
    let same : unique_paths [] ops ≡ paths = cc in
    (
      subst Distinct same (unique_paths-Distinct [] ops),
      λ p. ap (λ ps. has_text ps p) (sym same) ∙ unique_paths_complete [] ops p refl,
    )

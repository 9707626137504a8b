-- ===== src/Filepath.antt =====
-- The functions of Go's package path/filepath that the program calls, on a system whose separator
-- is the slash (`ToSlash` is the identity there). They work on the text of a path only.
pub mod Clean
use mathlib.Core.List.{reverse}
use kkode.Prelude.{ℕ, Bool, true, false, ◌||◌, ◌&&◌, not, List, [], ◌∷◌, ◌++◌, if◌then◌else◌}
use kkode.Strings.{Text, codes, text_eq, is_empty, has_prefix, split, join}

abbrev pub slash : ℕ
slash = b'/'

abbrev pub dot : Text
dot = b'.' ∷ []

abbrev pub dotdot : Text
dotdot = b'.' ∷ b'.' ∷ []

-- `filepath.IsAbs`
unfoldable pub is_abs : Text → Bool
unfolding has_prefix
is_abs p = has_prefix p (slash ∷ [])

-- One element of the path against the elements kept so far, the last one first. A `..` takes an
-- element away, stays at the front of a relative path, and is dropped at the root.
unfoldable pub clean_dotdot : Bool → List Text → List Text
unfolding text_eq
clean_dotdot true [] = []
clean_dotdot false [] = dotdot ∷ []
clean_dotdot rooted (t ∷ kept) = if not rooted && text_eq t dotdot then dotdot ∷ t ∷ kept else kept

unfoldable pub clean_step : Bool → List Text → Text → List Text
unfolding clean_dotdot is_empty text_eq
clean_step rooted kept e =
    if is_empty e || text_eq e dot
    then kept
    else if text_eq e dotdot
    then clean_dotdot rooted kept
    else e ∷ kept

unfoldable pub clean_elements : Bool → List Text → List Text → List Text
unfolding clean_step
clean_elements rooted kept [] = kept
clean_elements rooted kept (e ∷ es) = clean_elements rooted (clean_step rooted kept e) es

unfoldable pub or_dot : Text → Text
or_dot [] = dot
or_dot (c ∷ s) = c ∷ s

-- `filepath.Clean`
unfoldable pub clean : Text → Text
unfolding is_abs clean_elements split join or_dot
clean p =
    let kept = reverse (clean_elements (is_abs p) [] (split p (slash ∷ []))) in
    if is_abs p then slash ∷ join kept (slash ∷ []) else or_dot (join kept (slash ∷ []))

-- `filepath.Join` of two elements
unfoldable pub join_path : Text → Text → Text
unfolding is_empty
join_path a b =
    if is_empty a
    then if is_empty b then [] else clean b
    else if is_empty b
    then clean a
    else clean (a ++ slash ∷ b)

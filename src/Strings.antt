-- ===== src/Strings.antt =====
-- The functions of Go's package strings that the program calls. A text is the list of its code
-- points, so a test on a whole text, a prefix or a separator is the same as on its bytes.
pub mod Prefixes
pub mod Pieces
pub mod Search
pub mod Bytes
pub mod Trimming
use Prim.Native.Char.{code}
use Prim.Native.String.{String}
use mathlib.Core.List.{reverse}
use kkode.Prelude.{
  ℕ, zero, suc, ◌-◌, ◌+◌, Bool, true, false, ◌&&◌, ◌||◌, List, [], ◌∷◌, ◌++◌, ◌==◌, leb,
  if◌then◌else◌, length, take, drop,
}

abbrev pub Text : Type 0
Text = List ℕ

-- A literal of the source. `String` has its own `[]` and `∷`.
abbrev pub codes : String → Text
codes String.[] = []
codes (String.◌∷◌ c s) = code c ∷ codes s

-- `a == b` on strings
unfoldable pub text_eq : Text → Text → Bool
text_eq [] [] = true
text_eq [] (d ∷ t) = false
text_eq (c ∷ s) [] = false
text_eq (c ∷ s) (d ∷ t) = c == d && text_eq s t

unfoldable pub is_empty : Text → Bool
is_empty [] = true
is_empty (c ∷ s) = false

-- `strings.HasPrefix(s, prefix)`
unfoldable pub has_prefix : Text → Text → Bool
has_prefix s [] = true
has_prefix [] (p ∷ ps) = false
has_prefix (c ∷ s) (p ∷ ps) = c == p && has_prefix s ps

-- `strings.TrimPrefix(s, prefix)`
unfoldable pub trim_prefix : Text → Text → Text
unfolding has_prefix
trim_prefix s p = if has_prefix s p then drop (length p) s else s

-- `strings.HasSuffix(s, suffix)`
unfoldable pub has_suffix : Text → Text → Bool
unfolding has_prefix
has_suffix s p = has_prefix (reverse s) (reverse p)

-- `strings.TrimSuffix(s, suffix)`
unfoldable pub trim_suffix : Text → Text → Text
unfolding has_suffix
trim_suffix s p = if has_suffix s p then take (length s - length p) s else s

-- `unicode.IsSpace`
unfoldable pub is_space : ℕ → Bool
is_space c =
    (leb 9 c && leb c 13)
    || c == 32
    || c == 0x85
    || c == 0xA0
    || c == 0x1680
    || (leb 0x2000 c && leb c 0x200a)
    || c == 0x2028
    || c == 0x2029
    || c == 0x202f
    || c == 0x205f
    || c == 0x3000

-- The text from its first code point on that the test refuses.
unfoldable pub trim_left : (ℕ → Bool) → Text → Text
trim_left cut [] = []
trim_left cut (c ∷ s) = let rest = trim_left cut s in if cut c then rest else c ∷ s

-- `strings.TrimFunc`, and `strings.Trim` with the code points of a set as the test
unfoldable pub trim : (ℕ → Bool) → Text → Text
unfolding trim_left
trim cut s = reverse (trim_left cut (reverse (trim_left cut s)))

-- `strings.TrimSpace`
unfoldable pub trim_space : Text → Text
unfolding trim is_space
trim_space s = trim is_space s

abbrev pub cons_head : ℕ → List Text → List Text
cons_head c [] = (c ∷ []) ∷ []
cons_head c (t ∷ ts) = (c ∷ t) ∷ ts

-- The pieces of the text from its `skip`-th code point on.
unfoldable pub split_from : Text → ℕ → Text → List Text
unfolding has_prefix
split_from sep skip [] = [] ∷ []
split_from sep (suc skip) (c ∷ s) = split_from sep skip s
split_from sep zero (c ∷ s) =
    let hit = has_prefix (c ∷ s) sep in
    let rest = split_from sep (if hit then length sep - 1 else 0) s in
    if hit then [] ∷ rest else cons_head c rest

-- `strings.Split(s, sep)` for a separator that is not empty: leftmost, without overlaps
unfoldable pub split : Text → Text → List Text
unfolding split_from
split s sep = split_from sep 0 s

-- `strings.Join(pieces, sep)`
unfoldable pub join : List Text → Text → Text
join [] sep = []
join (t ∷ []) sep = t
join (t ∷ u ∷ ts) sep = t ++ (sep ++ join (u ∷ ts) sep)

-- `strings.Count(s, sub)` for a text that is not empty
unfoldable pub count : Text → Text → ℕ
unfolding split
count s sub = length (split s sub) - 1

-- `strings.Contains(s, sub)`
unfoldable pub contains : Text → Text → Bool
unfolding has_prefix
contains [] sub = has_prefix [] sub
contains (c ∷ s) sub = has_prefix (c ∷ s) sub || contains s sub

-- The first `n` separators are written as `new`, the others stay `old`.
unfoldable pub join_some : ℕ → Text → Text → List Text → Text
unfolding join
join_some zero old new ts = join ts old
join_some (suc n) old new [] = []
join_some (suc n) old new (t ∷ []) = t
join_some (suc n) old new (t ∷ u ∷ ts) = t ++ (new ++ join_some n old new (u ∷ ts))

-- `strings.Replace(s, old, new, n)` for `n ≥ 0` and `old` that is not empty
unfoldable pub replace : Text → Text → Text → ℕ → Text
unfolding split join_some
replace s old new n = join_some n old new (split s old)

-- `strings.ReplaceAll(s, old, new)`
unfoldable pub replace_all : Text → Text → Text → Text
unfolding split join
replace_all s old new = join (split s old) new

abbrev pub add_field : Text → List Text → List Text
add_field [] ts = ts
add_field (c ∷ s) ts = (c ∷ s) ∷ ts

-- The fields of the rest of a text, behind what the current one has so far.
unfoldable pub fields_from : Text → Text → List Text
unfolding is_space
fields_from field [] = add_field field []
fields_from field (c ∷ s) =
    let rest = fields_from (if is_space c then [] else field ++ c ∷ []) s in
    if is_space c then add_field field rest else rest

-- `strings.Fields`
unfoldable pub fields : Text → List Text
unfolding fields_from
fields s = fields_from [] s

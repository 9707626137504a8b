-- ===== src/Workspace/Patch/Printing.antt =====
-- The text that stands for a list of edits, and the parser on it. The printed form is the one that
-- the parser's cases describe: a marker line with the path, and the lines behind `+`, `-` or ` `.
use kkode.Prelude.{
  ℕ, zero, suc, ◌≤◌, true, false, List, [], ◌∷◌, ◌++◌, ◌≡◌, refl, sym, ap, ap₂, ◌∙◌, arith, All,
  All-append, All-mono, ok, ◌>>=◌, length, length-append, map, append-nil, append_assoc,
  snoc-append, ◌==◌,
}
use kkode.Strings.{Text, is_empty, has_prefix, trim_space, join, split}
use kkode.Strings.Prefixes.{trim_prefix-append, trim_suffix-append}
use kkode.Strings.Pieces.{split-join, Lacks, Avoids, replace_all-Avoids}
use kkode.Workspace.Patch.{
  PatchOp, add, delete, update, newline, marker, add_marker, delete_marker, update_marker, add_body,
  update_body, built, path_after, parse_lines, some_operations, parse_patch, patch_lines,
}

pub data Change : Type 0 where
  keep remove insert : Text → Change

pub data Edit : Type 0 where
  added : Text → List Text → Edit
  deleted : Text → Edit
  updated : Text → List Change → Edit

abbrev pub old_lines : List Change → List Text
old_lines [] = []
old_lines (keep t ∷ cs) = t ∷ old_lines cs
old_lines (remove t ∷ cs) = t ∷ old_lines cs
old_lines (insert t ∷ cs) = old_lines cs

abbrev pub new_lines : List Change → List Text
new_lines [] = []
new_lines (keep t ∷ cs) = t ∷ new_lines cs
new_lines (remove t ∷ cs) = new_lines cs
new_lines (insert t ∷ cs) = t ∷ new_lines cs

abbrev pub in_lines : List Text → Text
in_lines ls = join ls (newline ∷ [])

-- What an edit asks for.
abbrev pub op_of : Edit → PatchOp
op_of (added p ls) = add p (in_lines ls)
op_of (deleted p) = delete p
op_of (updated p cs) = update p (in_lines (old_lines cs)) (in_lines (new_lines cs))

abbrev pub print_change : Change → Text
print_change (keep t) = b' ' ∷ t
print_change (remove t) = b'-' ∷ t
print_change (insert t) = b'+' ∷ t

abbrev pub print_edit : Edit → List Text
print_edit (added p ls) = (add_marker ++ p) ∷ map (λ l. b'+' ∷ l) ls
print_edit (deleted p) = (delete_marker ++ p) ∷ []
print_edit (updated p cs) = (update_marker ++ p) ∷ map print_change cs

abbrev pub print_edits : List Edit → List Text
print_edits [] = []
print_edits (e ∷ es) = print_edit e ++ print_edits es

-- A path has no space around it, and an update has something to look for.
abbrev pub IsEdit : Edit → Type 0
IsEdit (added p ls) = trim_space p ≡ p
IsEdit (deleted p) = trim_space p ≡ p
IsEdit (updated p cs) = (trim_space p ≡ p) × (is_empty (in_lines (old_lines cs)) ≡ false)

-- The builder's text after these lines.
terminated : List Text → Text
terminated [] = []
terminated (l ∷ ls) = (l ++ newline ∷ []) ++ terminated ls

terminated-cons :
    (l : Text) (ls : List Text) → terminated (l ∷ ls) ≡ in_lines (l ∷ ls) ++ newline ∷ []
unfolding terminated join
terminated-cons l [] = append-nil (l ++ newline ∷ [])
terminated-cons l (m ∷ ls) =
    ap (◌++◌ (l ++ newline ∷ [])) (terminated-cons m ls)
    ∙ append_assoc l (newline ∷ []) (in_lines (m ∷ ls) ++ newline ∷ [])
    ∙ sym (append_assoc l (newline ∷ in_lines (m ∷ ls)) (newline ∷ []))

built-terminated : (ls : List Text) → built (terminated ls) ≡ in_lines ls
built-terminated [] = unfold built terminated join in refl
built-terminated (l ∷ ls) =
    ap built (terminated-cons l ls)
    ∙ unfold built in trim_suffix-append (in_lines (l ∷ ls)) (newline ∷ [])

abbrev StopsAtMarker : List Text → Type 0
StopsAtMarker [] = Unit {0}
StopsAtMarker (l ∷ ls) = has_prefix l marker ≡ true

print_edits-StopsAtMarker : (es : List Edit) → StopsAtMarker (print_edits es)
unfolding has_prefix
print_edits-StopsAtMarker [] = tt
print_edits-StopsAtMarker (added p ls ∷ es) = refl
print_edits-StopsAtMarker (deleted p ∷ es) = refl
print_edits-StopsAtMarker (updated p cs ∷ es) = refl

add_body-print :
    (ls rest : List Text) (b : Text)
    → StopsAtMarker rest
    → add_body (map (λ l. b'+' ∷ l) ls ++ rest) b ≡ (b ++ terminated ls, rest)
unfolding add_body terminated
add_body-print [] [] b h = ap (λ t. (t, [])) (sym (append-nil b))
add_body-print [] (r ∷ rest) b h = rw h (ap (λ t. (t, r ∷ rest)) (sym (append-nil b)))
add_body-print (l ∷ ls) rest b h =
    add_body-print ls rest (b ++ (l ++ newline ∷ [])) h
    ∙ ap (λ t. (t, rest)) (append_assoc b (l ++ newline ∷ []) (terminated ls))

update_body-print :
    (cs : List Change) (rest : List Text) (old new : Text)
    → StopsAtMarker rest
    → update_body (map print_change cs ++ rest) (old, new)
      ≡ ((old ++ terminated (old_lines cs), new ++ terminated (new_lines cs)), rest)
unfolding update_body terminated
update_body-print [] [] old new h =
    ap₂ (λ s t. ((s, t), [])) (sym (append-nil old)) (sym (append-nil new))
update_body-print [] (r ∷ rest) old new h =
    rw h (ap₂ (λ s t. ((s, t), r ∷ rest)) (sym (append-nil old)) (sym (append-nil new)))
update_body-print (keep t ∷ cs) rest old new h =
    update_body-print cs rest (old ++ (t ++ newline ∷ [])) (new ++ (t ++ newline ∷ [])) h
    ∙ ap₂ (λ s t. ((s, t), rest)) (append_assoc old (t ++ newline ∷ []) (terminated (old_lines cs)))
        (append_assoc new (t ++ newline ∷ []) (terminated (new_lines cs)))
update_body-print (remove t ∷ cs) rest old new h =
    update_body-print cs rest (old ++ (t ++ newline ∷ [])) new h
    ∙ ap (λ s. ((s, new ++ terminated (new_lines cs)), rest))
        (append_assoc old (t ++ newline ∷ []) (terminated (old_lines cs)))
update_body-print (insert t ∷ cs) rest old new h =
    update_body-print cs rest old (new ++ (t ++ newline ∷ [])) h
    ∙ ap (λ s. ((old ++ terminated (old_lines cs), s), rest))
        (append_assoc new (t ++ newline ∷ []) (terminated (new_lines cs)))

path_after-append : (m p : Text) → trim_space p ≡ p → path_after m (m ++ p) ≡ p
unfolding path_after
path_after-append m p h = ap trim_space (trim_prefix-append m p) ∙ h

-- What is left after an edit fits into the fuel.
less_fuel :
    (l : Text) (ls rest : List Text) (f : ℕ) → length ((l ∷ ls) ++ rest) ≤ suc f → length rest ≤ f
less_fuel l ls rest f h = omega (arith, length-append ls rest)

parse_lines-print :
    (f : ℕ) (es : List Edit) (ops : List PatchOp)
    → length (print_edits es) ≤ f
    → All IsEdit es
    → parse_lines f (print_edits es) ops ≡ ok (ops ++ map op_of es)
unfolding parse_lines
parse_lines-print f [] ops h k = ap ok (sym (append-nil ops))
parse_lines-print zero (added p ls ∷ es) ops h k = absurd (omega arith)
parse_lines-print zero (deleted p ∷ es) ops h k = absurd (omega arith)
parse_lines-print zero (updated p cs ∷ es) ops h k = absurd (omega arith)
parse_lines-print (suc f) (added p ls ∷ es) ops h k =
    rw
      (
        add_body-print ls (print_edits es) [] (print_edits-StopsAtMarker es),
        path_after-append add_marker p k.0,
        built-terminated ls,
      )
      (parse_lines-print f es (ops ++ add p (in_lines ls) ∷ [])
          (less_fuel (add_marker ++ p) (map (λ l. b'+' ∷ l) ls) (print_edits es) f h) k.1
        ∙ ap ok (snoc-append ops (map op_of es) _))
parse_lines-print (suc f) (deleted p ∷ es) ops h k = rw (path_after-append delete_marker p k.0) (
    parse_lines-print f es (ops ++ delete p ∷ [])
      (less_fuel (delete_marker ++ p) [] (print_edits es) f h) k.1
    ∙ ap ok (snoc-append ops (map op_of es) _))
parse_lines-print (suc f) (updated p cs ∷ es) ops h k =
    rw
      (
        update_body-print cs (print_edits es) [] [] (print_edits-StopsAtMarker es),
        path_after-append update_marker p k.0.0,
        built-terminated (old_lines cs),
        built-terminated (new_lines cs),
        k.0.1,
      )
      (parse_lines-print f es
          (ops ++ update p (in_lines (old_lines cs)) (in_lines (new_lines cs)) ∷ [])
          (less_fuel (update_marker ++ p) (map print_change cs) (print_edits es) f h) k.1
        ∙ ap ok (snoc-append ops (map op_of es) _))

-- The text of a patch: its lines, between newlines.
unfoldable pub print_patch : List Edit → Text
unfolding join
print_patch es = in_lines (print_edits es)

-- No line of a patch text holds a newline, and no carriage return stands in it.
abbrev pub IsOneLine : Text → Type 0
IsOneLine t = Lacks newline t × Lacks 13 t

Avoids-crlf : (s : Text) → Lacks 13 s → Avoids (13 ∷ newline ∷ []) s
unfolding has_prefix
Avoids-crlf [] h = tt
Avoids-crlf (c ∷ s) h = (rw h.0 refl, Avoids-crlf s h.1)

in_lines-Lacks : (ls : List Text) → All IsOneLine ls → Lacks 13 (in_lines ls)
unfolding join
in_lines-Lacks [] h = tt
in_lines-Lacks (l ∷ []) h = h.0.1
in_lines-Lacks (l ∷ m ∷ ls) h =
    All-append (λ c. (c == 13) ≡ false) l (newline ∷ in_lines (m ∷ ls)) h.0.1
      (refl, in_lines-Lacks (m ∷ ls) h.1)

patch_lines-in_lines :
    (l : Text) (ls : List Text) → All IsOneLine (l ∷ ls) → patch_lines (in_lines (l ∷ ls)) ≡ l ∷ ls
unfolding patch_lines
patch_lines-in_lines l ls h =
    ap (λ t. split t (newline ∷ []))
      (replace_all-Avoids (in_lines (l ∷ ls)) (13 ∷ newline ∷ []) (newline ∷ [])
        (Avoids-crlf _ (in_lines-Lacks (l ∷ ls) h)))
    ∙ split-join newline l ls (All-mono IsOneLine (Lacks newline) (l ∷ ls) (λ t k. k.0) h)

patch_lines-print :
    (e : Edit) (es : List Edit)
    → All IsOneLine (print_edits (e ∷ es))
    → patch_lines (print_patch (e ∷ es)) ≡ print_edits (e ∷ es)
unfolding print_patch
patch_lines-print (added p ls) es h = patch_lines-in_lines _ _ h
patch_lines-print (deleted p) es h = patch_lines-in_lines _ _ h
patch_lines-print (updated p cs) es h = patch_lines-in_lines _ _ h

-- The parser reads a printed list of edits back: at least one edit, every path without space around
-- it, every update with an old text, and no line that holds a newline or a carriage return.
pub parse-print_patch :
    (e : Edit) (es : List Edit)
    → All IsEdit (e ∷ es)
    → All IsOneLine (print_edits (e ∷ es))
    → parse_patch (print_patch (e ∷ es)) ≡ ok (map op_of (e ∷ es))
unfolding parse_patch
parse-print_patch e es h k = rw (patch_lines-print e es k) (
    ap (λ r. r >>= some_operations)
      (parse_lines-print (length (print_edits (e ∷ es))) (e ∷ es) [] (omega arith) h))

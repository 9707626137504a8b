-- ===== src/Workspace/Reading/Ranges.antt =====
-- The ranges of a file that `ReadFileRange` of workspace/workspace.go gives.
use kkode.Prelude.{
  ℕ, zero, suc, ◌+◌, ◌-◌, ◌<◌, ◌≤◌, true, false, List, [], ◌∷◌, ◌++◌, leb, ltb, arith, length, take,
  drop, Result, ok, err, Result-cases, ◌≡◌, refl, sym, ap, ◌∙◌, inl, inr, take-append-drop,
  length-drop, append_assoc, if◌then◌else◌, take-all, ◌^◌, ◌%◌,
}
use kkode.Prelude.Int.{pos, int_limit, add_int, less_int}
use kkode.Strings.{Text, split, join}
use kkode.Strings.Pieces.{join-split}
use kkode.Disk.{Disk, read_file}
use kkode.Workspace.{Workspace, resolve}
use kkode.Workspace.Reading.{
  ReadError, newline, slice, window_end, line_window, joined, range_of, read_file_range,
}

join-append :
    (t u : Text) (ts us : List Text) (sep : Text)
    → join ((t ∷ ts) ++ u ∷ us) sep ≡ join (t ∷ ts) sep ++ (sep ++ join (u ∷ us) sep)
unfolding join
join-append t u [] us sep = refl
join-append t u (v ∷ ts) us sep =
    ap (λ x. t ++ (sep ++ x)) (join-append v u ts us sep)
    ∙ sym (append_assoc t (sep ++ join (v ∷ ts) sep) _ ∙ ap (t ++◌) (append_assoc sep _ _))

-- Both parts of a cut that is inside a list have an item.
join-take-drop :
    (k : ℕ) (lines : List Text) (sep : Text)
    → 0 < k
    → k < length lines
    → join (take k lines) sep ++ (sep ++ join (drop k lines) sep) ≡ join lines sep
join-take-drop zero lines sep h l = absurd (omega arith)
join-take-drop (suc k) [] sep h l = absurd (omega arith)
join-take-drop (suc k) (t ∷ ts) sep h l =
    go (drop k ts) (omega (arith, length-drop k ts)) (take-append-drop k ts)
  where
    go :
        (rest : List Text)
        → 0 < length rest
        → take k ts ++ rest ≡ ts
        → join (t ∷ take k ts) sep ++ (sep ++ join rest sep) ≡ join (t ∷ ts) sep
    go [] n e = absurd (omega arith)
    go (u ∷ us) n e = sym (join-append t u (take k ts) us sep) ∙ ap (λ x. join (t ∷ x) sep) e

ltb-true : (a b : ℕ) → a < b → ltb a b ≡ true
ltb-true a b h = ground (arith, h)

leb-true : (a b : ℕ) → a ≤ b → leb a b ≡ true
leb-true a b h = ground (arith, h)

mod_fits : (a : ℕ) → a < 2 ^ 64 → a % 2 ^ 64 ≡ a
mod_fits a h = omega (arith, h)

abbrev lines_of : Text → List Text
lines_of text = split text newline

-- A sum that fits is itself, and one that does not is negative.
add_int-fits : (a b : ℕ) → a + b < int_limit → add_int a b ≡ pos (a + b)
unfolding add_int
add_int-fits a b h = rw (mod_fits (a + b) (omega (arith, h)), ltb-true (a + b) int_limit h) refl

window_end-fits :
    (start limit lines : ℕ)
    → 0 < limit
    → start + limit < int_limit
    → window_end start limit lines
      ≡ (if ltb (start + limit) lines then pos (start + limit) else pos lines)
unfolding window_end less_int
window_end-fits start zero lines h k = absurd (omega (arith, h))
window_end-fits start (suc limit) lines h k = rw (add_int-fits start (suc limit) k) refl

window_end-inside :
    (start limit lines : ℕ)
    → 0 < limit
    → start + limit < int_limit
    → start + limit < lines
    → window_end start limit lines ≡ pos (start + limit)
window_end-inside start limit lines h k l =
    window_end-fits start limit lines h k ∙ rw (ltb-true (start + limit) lines l) refl

slice-inside :
    (start end : ℕ) (lines : List Text)
    → start ≤ end
    → end ≤ length lines
    → slice start (pos end) lines ≡ ok (take (end - start) (drop start lines))
unfolding slice
slice-inside start end lines h k = rw (leb-true start end h, leb-true end (length lines) k) refl

range_of-window :
    (offset limit : ℕ) (text : Text)
    → 0 < offset + 1
    → offset ≤ length (lines_of text)
    → range_of (offset + 1) limit text ≡ joined (line_window offset limit (lines_of text))
unfolding range_of
range_of-window offset limit text h l = rw (there, cut, inside) refl
  where
    there : ltb 0 (offset + 1) ≡ true
    there = ground arith

    cut : offset + 1 - 1 ≡ offset
    cut = omega arith

    inside : ltb (length (split text newline)) offset ≡ false
    inside = ground (arith, l)

line_window-inside :
    (start limit : ℕ) (lines : List Text)
    → 0 < limit
    → start + limit < int_limit
    → start + limit < length lines
    → line_window start limit lines ≡ ok (take (start + limit - start) (drop start lines))
unfolding line_window
line_window-inside start limit lines h k l =
    ap (λ e. slice start e lines) (window_end-inside start limit (length lines) h k l)
    ∙ slice-inside start (start + limit) lines (omega arith) (omega (arith, l))

line_window-rest :
    (start : ℕ) (lines : List Text)
    → start ≤ length lines
    → line_window start 0 lines ≡ ok (take (length lines - start) (drop start lines))
unfolding line_window window_end
line_window-rest start lines l = slice-inside start (length lines) lines l (omega arith)

range_of-first :
    (k : ℕ) (text : Text)
    → 0 < k
    → k < length (lines_of text)
    → k < int_limit
    → range_of 1 k text ≡ ok (join (take k (lines_of text)) newline)
range_of-first k text h l b =
    range_of-window 0 k text (omega arith) (omega arith)
    ∙ ap joined (line_window-inside 0 k (lines_of text) h (omega (arith, b)) (omega (arith, l)))
    ∙ ap (λ n. ok (join (take n (lines_of text)) newline)) (zero_sum k)
  where
    zero_sum : (k : ℕ) → 0 + k - 0 ≡ k
    zero_sum k = omega arith

range_of-rest :
    (k : ℕ) (text : Text)
    → k < length (lines_of text)
    → range_of (k + 1) 0 text ≡ ok (join (drop k (lines_of text)) newline)
range_of-rest k text l =
    range_of-window k 0 text (omega arith) (omega (arith, l))
    ∙ ap joined (line_window-rest k (lines_of text) (omega (arith, l)))
    ∙ ap (λ ls. ok (join ls newline))
        (take-all (length (lines_of text) - k) (drop k (lines_of text))
          (omega (arith, length-drop k (lines_of text))))

-- If a file can be read, so can each range of it, and that is the range of its text.
read_file_range-whole :
    (w : Workspace) (rel : Text) (d : Disk) (text : Text)
    → read_file_range w rel (record { offset_line = pos 0; limit_lines = pos 0 }) d ≡ ok text
    → (offset limit : ℕ)
    → read_file_range w rel (record { offset_line = pos offset; limit_lines = pos limit }) d
      ≡ range_of offset limit text
unfolding read_file_range
read_file_range-whole w rel d text e offset limit = elim (Result-cases (resolve w rel)) [
  | inr (x, q) ↦ absurd (err_ok (rw (q, read_file_range) at e))
  | inl (path, q) ↦ elim (Result-cases (read_file d path)) [
    | inr (x, f) ↦ absurd (err_ok (rw (q, f, read_file_range) at e))
    | inl (found, f) ↦
        rw (q, f, read_file_range)
          (ap (range_of offset limit) (ok_injective (rw (q, f, read_file_range) at e)))
  ]
]
  where
    err_ok : {x : ReadError} {t : Text} → ◌≡◌ {A = Result ReadError Text} (err x) (ok t) → ⊥
    err_ok e = cc

    ok_injective : {t u : Text} → ◌≡◌ {A = Result ReadError Text} (ok t) (ok u) → t ≡ u
    ok_injective e = ground arith

-- A file that is read in two ranges, its first `k` lines and then the lines from the next one on, is
-- the whole file, with a newline between the two. The file has more than `k` lines, `k` is not 0, and
-- it is an `int`.
pub read_file_range-pages :
    (w : Workspace) (rel : Text) (d : Disk) (text : Text) (k : ℕ)
    → read_file_range w rel (record { offset_line = pos 0; limit_lines = pos 0 }) d ≡ ok text
    → 0 < k
    → k < length (split text newline)
    → k < int_limit
    → (first rest : Text) × (read_file_range w rel
          (record { offset_line = pos 1; limit_lines = pos k })
          d
        ≡ ok first)
      × (read_file_range w rel (record { offset_line = pos (k + 1); limit_lines = pos 0 }) d
          ≡ ok rest)
      × (first ++ (newline ++ rest) ≡ text)
read_file_range-pages w rel d text k e h l b = (
  join (take k (lines_of text)) newline,
  join (drop k (lines_of text)) newline,
  read_file_range-whole w rel d text e 1 k ∙ range_of-first k text h l b,
  read_file_range-whole w rel d text e (k + 1) 0 ∙ range_of-rest k text l,
  join-take-drop k (lines_of text) newline h l ∙ join-split text newline (omega arith),
)

-- ===== src/Workspace/Reading.antt =====
-- `ReadFileRange` of workspace/workspace.go: some lines of a file.
pub mod Ranges
use kkode.Prelude.{
  ℕ, zero, suc, ◌+◌, ◌-◌, ◌<◌, ◌≤◌, true, false, ◌||◌, ◌&&◌, List, [], ◌∷◌, ◌++◌, leb, ltb, arith,
  if◌then◌else◌, length, take, drop, Result, ok, err, Result-cases, ◌>>=◌, ◌>>◌, reject_if, ◌≡◌,
  refl, sym, ap, ◌∙◌, inl, inr, take-append-drop, length-drop, append_assoc,
}
use kkode.Prelude.Int.{ℤ, pos, negsuc, is_negative, magnitude, add_int, less_int}
use kkode.Strings.{Text, split, join}
use kkode.Strings.Pieces.{join-split}
use kkode.Disk.{Disk, OsError, read_file}
use kkode.Workspace.{Workspace, PathError, resolve}

-- `ReadOptions`
pub record ReadOptions : Type 0 where
  pub offset_line : ℤ
  pub limit_lines : ℤ

-- The errors, and the panic of a slice out of range.
pub data ReadError : Type 0 where
  negative_offset negative_limit out_of_range : ReadError
  bad_path : PathError → ReadError
  os_failed : OsError → ReadError

abbrev pub newline : Text
newline = 10 ∷ []

-- `lines[start:end]`
unfoldable pub slice : ℕ → ℤ → List Text → Result ReadError (List Text)
slice start (negsuc n) lines = err out_of_range
slice start (pos n) lines =
    if leb start n && leb n (length lines)
    then ok (take (n - start) (drop start lines))
    else err out_of_range

-- The end of the slice: the sum, if there is a limit and the sum comes before the last line.
unfoldable pub window_end : ℕ → ℕ → ℕ → ℤ
unfolding add_int less_int
window_end start zero lines = pos lines
window_end start (suc limit) lines =
    if less_int (add_int start (suc limit)) lines then add_int start (suc limit) else pos lines

-- The lines from the `start`-th on, at most `limit` of them if that is not 0.
unfoldable pub line_window : ℕ → ℕ → List Text → Result ReadError (List Text)
unfolding slice window_end
line_window start limit lines = slice start (window_end start limit (length lines)) lines

abbrev pub joined : Result ReadError (List Text) → Result ReadError Text
joined (ok lines) = ok (join lines newline)
joined (err e) = err e

-- The range of the text, for an offset and a limit that are not negative.
unfoldable pub range_of : ℕ → ℕ → Text → Result ReadError Text
unfolding line_window split join
range_of offset limit text =
    if ltb 0 offset || ltb 0 limit
    then if ltb (length (split text newline)) (offset - 1)
      then ok []
      else joined (line_window (offset - 1) limit (split text newline))
    else ok text

abbrev pub path_or : Result PathError Text → Result ReadError Text
path_or (ok p) = ok p
path_or (err e) = err (bad_path e)

abbrev pub text_or : Result OsError Text → Result ReadError Text
text_or (ok t) = ok t
text_or (err e) = err (os_failed e)

-- `ReadFileRange`
unfoldable pub read_file_range : Workspace → Text → ReadOptions → Disk → Result ReadError Text
unfolding range_of
read_file_range w rel opts d = do
  reject_if (is_negative opts.offset_line) negative_offset
  reject_if (is_negative opts.limit_lines) negative_limit
  path ← path_or (resolve w rel)
  text ← text_or (read_file d path)
  range_of (magnitude opts.offset_line) (magnitude opts.limit_lines) text

-- ===== src/Workspace/Editing/Replaced.antt =====
-- What `EditFile` writes.
use kkode.Prelude.{
  ℕ, ◌<◌, ◌≡◌, refl, sym, ap, ◌∙◌, arith, Result, ok, err, >>=-eq-ok, reject_if, some, Result-cases,
  inl, inr, ◌⊎◌,
}
use kkode.Prelude.Int.{ℤ, is_negative, magnitude}
use kkode.Strings.{Text, is_empty, count, split, join}
use kkode.Strings.Pieces.{replace-count}
use kkode.Disk.{
  Disk, OsError, lookup, file, read_file, write_file, mkdir_all, and_then, dir_of, Call,
}
use kkode.Disk.Entries.{write_file_lem, and_then-ok, read_file-entry}
use kkode.Workspace.{Workspace, PathError, resolve}
use kkode.Workspace.Editing.{
  old_required, negative_expected, lift_path, lift_os, read_whole, write_whole, replaced, edited,
  edit_file, finish,
}

-- What is known of a successful edit: the old text occurs, as often as was expected if a number was
-- given, and every occurrence is exchanged.
pub record IsEdited (old new : Text) (expected : ℕ) (content result : Text) : Type 0 where
  pub occurs : 0 < count content old
  pub as_expected : (expected ≡ 0) ⊎ (count content old ≡ expected)
  pub exchanged : result ≡ join (split content old) new

replaced-IsEdited :
    (old new : Text) (expected : ℕ) (content result : Text)
    → replaced old new expected content ≡ ok result
    → IsEdited old new expected content result
unfolding replaced
replaced-IsEdited old new expected content result h = ground (arith, replace-count content old new)

-- Where `EditFile` has decided on a new content, the file was read, the old text is not empty and
-- occurs in it, as often as expected if a number was given, and all occurrences are exchanged.
edited-IsEdited :
    (w : Workspace) (rel old new : Text) (expected : ℤ) (d : Disk) (result : Text)
    → edited w rel old new expected d ≡ ok result
    → (content : Text) × (read_whole w rel d ≡ ok content)
      × IsEdited old new (magnitude expected) content result
unfolding edited
edited-IsEdited w rel old new expected d result h =
    let (_, _, h₁) = >>=-eq-ok (reject_if (is_empty old) old_required) _ h in
    let (_, _, h₂) = >>=-eq-ok (reject_if (is_negative expected) negative_expected) _ h₁ in
    let (content, e, h₃) = >>=-eq-ok (read_whole w rel d) _ h₂ in
    (content, e, replaced-IsEdited old new (magnitude expected) content result h₃)

lift_path-ok : (r : Result PathError Text) (p : Text) → lift_path r ≡ ok p → r ≡ ok p
lift_path-ok (ok p) q h = ground arith
lift_path-ok (err e) q h = cc

lift_os-ok : (r : Result OsError Text) (t : Text) → lift_os r ≡ ok t → r ≡ ok t
lift_os-ok (ok p) q h = ground arith
lift_os-ok (err e) q h = cc

-- A file that was read stands at the path.
read_whole-entry :
    (w : Workspace) (rel : Text) (d : Disk) (content : Text)
    → read_whole w rel d ≡ ok content
    → (path : Text) × (resolve w rel ≡ ok path) × (lookup d path ≡ some (file content))
unfolding read_whole
read_whole-entry w rel d content h =
    let (path, e, h₁) = >>=-eq-ok (lift_path (resolve w rel)) _ h in
    (path, lift_path-ok (resolve w rel) path e, entry path h₁)
  where
    entry :
        (path : Text)
        → lift_os (read_file d path) ≡ ok content
        → lookup d path ≡ some (file content)
    entry path h = read_file-entry d path content (lift_os-ok (read_file d path) content h)

finish-ok : (c : Call) → (finish c).0 ≡ ok tt → (c.0 ≡ ok tt) × ((finish c).1 ≡ c.1)
finish-ok (ok u, d) h = (refl, refl)
finish-ok (err e, d) h = cc

write_whole_lem :
    (w : Workspace) (rel path content : Text) (d : Disk)
    → resolve w rel ≡ ok path
    → (write_whole w rel content d).0 ≡ ok tt
    → lookup (write_whole w rel content d).1 path ≡ some (file content)
unfolding write_whole
write_whole_lem w rel path content d r =
    rw (r, write_whole)
      (λ h.
        let (done, same) =
          finish-ok (and_then (mkdir_all (dir_of path) d) (write_file path content)) h in
        let (_, reached) = and_then-ok (mkdir_all (dir_of path) d) (write_file path content) done in
        ap (λ d'. lookup d' path) same
        ∙ ap (λ c. lookup c.1 path) reached
        ∙ write_file_lem path content _ (sym (ap (λ c. c.0) reached) ∙ done))

-- Wherever `EditFile` succeeds, the path resolves, the file could be read, and it now holds its
-- content with every occurrence of the old text exchanged for the new one; the old text occurs at
-- least once, and exactly as often as expected if the number given is not 0.
pub edit_file-IsEdited :
    (w : Workspace) (rel old new : Text) (expected : ℤ) (d : Disk)
    → (edit_file w rel old new expected d).0 ≡ ok tt
    → (path content result : Text) × (resolve w rel ≡ ok path)
      × (lookup d path ≡ some (file content))
      × IsEdited old new (magnitude expected) content result
      × (lookup (edit_file w rel old new expected d).1 path ≡ some (file result))
unfolding edit_file
edit_file-IsEdited w rel old new expected d =
    elim (Result-cases (edited w rel old new expected d)) [
      | inl (result, e) ↦
          rw (e, edit_file)
            (λ h.
              let (content, read, k) = edited-IsEdited w rel old new expected d result e in
              let (path, r, entry) = read_whole-entry w rel d content read in
              (path, content, result, r, entry, k, write_whole_lem w rel path result d r h))
      | inr (x, e) ↦ rw (e, edit_file) (λ h. cc h)
    ]

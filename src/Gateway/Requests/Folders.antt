-- ===== src/Gateway/Requests/Folders.antt =====
-- The working directory of a request (gateway/context_blocks.go): its clean-up, and where it leads.
use mathlib.Core.List.{reverse, reverse-append, reverse-reverse}
use kkode.Prelude.{
  ℕ, zero, suc, ◌+◌, ◌-◌, ◌≤◌, ◌<◌, Bool, true, false, ◌||◌, List, [], ◌∷◌, ◌++◌, ◌==◌, ◌≡◌, ◌≢◌,
  refl, sym, ap, arith, length, length-append, if◌then◌else◌, Bool-cases, inl, inr, All, All-append,
  append-nil, append_assoc, ◌∙◌, ok,
}
use kkode.Strings.{
  Text, codes, is_empty, text_eq, has_prefix, contains, count, split, join, replace_all, trim_space,
  trim_prefix,
}
use kkode.Strings.Pieces.{join-split, split-append, Lacks}
use kkode.Strings.Search.{count-zero_iff}
use kkode.Strings.Trimming.{StartsKept, trim-StartsKept}
use kkode.Filepath.{is_abs, clean, clean_elements, clean_step, join_path}
use kkode.Filepath.Clean.{
  IsName, render, clean_lem, All-reverse, clean_elements-names, split-render, clean-render,
  split_from-Lacks,
}
use kkode.Workspace.Inside.{IsInside}
use kkode.Gateway.Runs.{StartRequest}
use kkode.Gateway.Requests.{
  double_slash, slash, collapse, has_name, folder_text, sanitize_working_directory,
  sanitize_run_start_request,
}
use kkode.Gateway.Requests.Accepted.{validate_run_start_request_iff}
use kkode.Gateway.Requests.Validation.{working_directory_escapes_root, validate_run_start_request}

-- One slash for each pair of slashes shortens the text by one code point for each.
length-join :
    (ts : List Text) → length (join ts double_slash) ≡ length (join ts slash) + (length ts - 1)
unfolding join
length-join [] = omega arith
length-join (t ∷ []) = omega arith
length-join (t ∷ u ∷ ts) = omega (
  arith,
  length-append t (double_slash ++ join (u ∷ ts) double_slash),
  length-append t (slash ++ join (u ∷ ts) slash),
  length-join (u ∷ ts),
)

replace_all_shorter :
    (s : Text)
    → contains s double_slash ≡ true
    → length (replace_all s double_slash slash) < length s
unfolding replace_all count
replace_all_shorter s h =
    let ts = split s double_slash in
    let several : count s double_slash ≢ 0 =
      λ e. absurd (cc ((count-zero_iff s double_slash (omega arith)).0 e, h)) in
    omega (arith, length-join ts, ap length (join-split s double_slash (omega arith)), several)

collapse-contains : (n : ℕ) (s : Text) → length s ≤ n → contains (collapse n s) double_slash ≡ false
unfolding collapse
collapse-contains zero [] h = unfold contains has_prefix in refl
collapse-contains zero (c ∷ s) h = absurd (omega (arith, h))
collapse-contains (suc n) s h = elim (Bool-cases (contains s double_slash)) [
  | inl e ↦ rw e (
      collapse-contains n (replace_all s double_slash slash)
        (omega (arith, h, replace_all_shorter s e)))
  | inr e ↦ rw e e
]

-- However many slashes a text has in a row, the loop of `sanitizeWorkingDirectory` ends within as
-- many rounds as the text is long, and leaves no two slashes in a row.
pub collapse-Ends : (s : Text) → contains (collapse (length s) s) double_slash ≡ false
collapse-Ends s = collapse-contains (length s) s (omega arith)

-- Elements without `..` only add names.
clean_elements-below :
    (kept es : List Text)
    → All (Lacks b'/') es
    → has_name es (codes "..") ≡ false
    → (bs : List Text) × (clean_elements true kept es ≡ bs ++ kept) × All IsName bs
unfolding clean_elements has_name
clean_elements-below kept [] h n = ([], refl, tt)
clean_elements-below kept (e ∷ es) h n = elim (Bool-cases (is_empty e || text_eq e (codes "."))) [
  | inl q ↦ unfold clean_step in rw q (clean_elements-below kept es h.1 (ground (arith, n)))
  | inr q ↦
      let other : text_eq e (codes "..") ≡ false = ground (arith, n) in
      let (bs, f, k) = clean_elements-below (e ∷ kept) es h.1 (ground (arith, n)) in
      let name : IsName e = record {
        has_text = ground (arith, q);
        not_dot = ground (arith, q);
        not_dotdot = other;
        no_slash = h.0;
      } in
      unfold clean_step in
      rw (q, other)
        (
          bs ++ e ∷ [],
          f ∙ sym (append_assoc bs (e ∷ []) kept),
          All-append IsName bs (e ∷ []) k (name, tt),
        )
]

clean_elements-append :
    (kept es fs : List Text)
    → clean_elements true kept (es ++ fs) ≡ clean_elements true (clean_elements true kept es) fs
unfolding clean_elements
clean_elements-append kept [] fs = refl
clean_elements-append kept (e ∷ es) fs = clean_elements-append (clean_step true kept e) es fs

elements-render :
    (rs : List Text) → All IsName rs → clean_elements true [] (split (render rs) slash) ≡ reverse rs
unfolding clean_elements clean_step
elements-render [] h = unfold split render has_prefix join in refl
elements-render (r ∷ rs) h =
    ap (clean_elements true []) (split-render r rs h)
    ∙ clean_elements-names [] (r ∷ rs) h
    ∙ append-nil (reverse (r ∷ rs))

-- A text whose elements have no `..` among them leads from a directory to what is inside of it.
clean-IsInside :
    (rs : List Text) (dir : Text)
    → All IsName rs
    → has_name (split dir slash) (codes "..") ≡ false
    → IsInside rs (clean (render rs ++ b'/' ∷ dir))
clean-IsInside rs dir h n =
    let kept = clean_elements true [] (split (render rs) slash) in
    let (bs, e, k) =
      clean_elements-below kept (split dir slash) (unfold split in split_from-Lacks dir) n in
    let absolute : is_abs (render rs ++ b'/' ∷ dir) ≡ true =
      unfold is_abs render has_prefix in refl in
    record {
      below = reverse bs;
      below_names = All-reverse IsName bs k;
      is_path =
          clean_lem (render rs ++ b'/' ∷ dir) absolute
          ∙ ap (λ es. render (reverse (clean_elements true [] es)))
              (split-append b'/' (render rs) dir)
          ∙ ap (λ es. render (reverse es))
              (clean_elements-append [] (split (render rs) slash) (split dir slash)
                ∙ e
                ∙ ap (◌++◌ bs) (elements-render rs h))
          ∙ ap render
              (reverse-append bs (reverse rs) ∙ ap (λ t. t ++ reverse bs) (reverse-reverse rs));
    }

StartsKept-if :
    (cut : ℕ → Bool) (a b : Bool) (s : Text)
    → StartsKept cut s
    → StartsKept cut (if a then [] else if b then [] else s)
StartsKept-if cut true b s h = tt
StartsKept-if cut false true s h = tt
StartsKept-if cut false false s h = h

folder_text-StartsKept : (value : Text) → StartsKept (λ c. c == b'/') (folder_text value)
unfolding folder_text
folder_text-StartsKept value =
    let slashed = replace_all (trim_space value) (b'\\' ∷ []) slash in
    trim-StartsKept (λ c. c == b'/') (trim_prefix (collapse (length slashed) slashed) (codes "./"))

sanitize_working_directory-StartsKept :
    (value : Text) → StartsKept (λ c. c == b'/') (sanitize_working_directory value)
unfolding sanitize_working_directory
sanitize_working_directory-StartsKept value =
    StartsKept-if (λ c. c == b'/') (is_empty (trim_space value))
      (text_eq (folder_text value) (codes ".")) (folder_text value) (folder_text-StartsKept value)

StartsKept-is_abs : (s : Text) → StartsKept (λ c. c == b'/') s → is_abs s ≡ false
unfolding is_abs has_prefix
StartsKept-is_abs [] h = refl
StartsKept-is_abs (c ∷ s) h = rw h refl

directory_stays-has_name :
    (s : Text)
    → working_directory_escapes_root s ≡ false
    → has_name (split s slash) (codes "..") ≡ false
unfolding working_directory_escapes_root
directory_stays-has_name [] h = unfold split has_name in refl
directory_stays-has_name (c ∷ s) h = h

join_path-IsInside :
    (rs : List Text) (dir : Text)
    → All IsName rs
    → has_name (split dir slash) (codes "..") ≡ false
    → IsInside rs (join_path (render rs) dir)
unfolding join_path is_empty render
join_path-IsInside rs [] h n = record {
  below = [];
  below_names = tt;
  is_path = clean-render rs h ∙ ap render (sym (append-nil rs));
}
join_path-IsInside rs (c ∷ dir) h n = clean-IsInside rs (c ∷ dir) h n

-- Where a request is accepted after its clean-up, its working directory is a relative path, and
-- joined to the project root it leads to the root or inside of it.
pub accepted-IsInside :
    (redact : Text → Text) (req : StartRequest) (rs : List Text)
    → All IsName rs
    → validate_run_start_request (sanitize_run_start_request redact req) ≡ ok tt
    → (is_abs (sanitize_working_directory req.working_directory) ≡ false)
      × IsInside rs (join_path (render rs) (sanitize_working_directory req.working_directory))
unfolding sanitize_run_start_request
accepted-IsInside redact req rs names h =
    let dir = sanitize_working_directory req.working_directory in
    let k = (validate_run_start_request_iff (sanitize_run_start_request redact req)).0 h in
    (
      StartsKept-is_abs dir (sanitize_working_directory-StartsKept req.working_directory),
      join_path-IsInside rs dir names (directory_stays-has_name dir k.shape.directory_stays),
    )

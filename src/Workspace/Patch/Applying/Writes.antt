-- ===== src/Workspace/Patch/Applying/Writes.antt =====
-- What `ApplyPatch` writes.
use kkode.Prelude.{
  true, not, List, [], ◌∷◌, ◌++◌, ◌≡◌, ◌≢◌, refl, sym, ap, ◌∙◌, arith, Result, ok, err, ◌>>◌,
  >>=-eq-ok, reject_if, some, length,
}
use kkode.Strings.Search.{IsExchange, replace-IsExchange}
use kkode.Strings.{Text, contains, replace}
use kkode.Disk.{OsError, file, Disk, Call, lookup, read_file, mkdir_all, write_file, dir_of}
use kkode.Disk.Entries.{read_file-entry, write_file_lem, and_then-ok}
use kkode.Workspace.{Workspace, PathError, resolve}
use kkode.Workspace.Patch.{update}
use kkode.Workspace.Patch.Applying.{
  PatchPlan, write, context_not_found, lift_path, lift_os, plan_op, run_plan, run_plans, finish,
  plan_patch, apply_patch,
}
use kkode.Workspace.Patch.Applying.Outcome.{NotPlanned, run_plans-Keeps}

lift_path-ok : (r : Result PathError Text) (p : Text) → lift_path r ≡ ok p → r ≡ ok p
lift_path-ok (ok p) q h = ground arith
lift_path-ok (err e) q h = cc

lift_os-ok : (r : Result OsError Text) (t : Text) → lift_os r ≡ ok t → r ≡ ok t
lift_os-ok (ok p) q h = ground arith
lift_os-ok (err e) q h = cc

run_plan-write :
    (p t : Text) (d : Disk)
    → (run_plan (write p t) d).0 ≡ ok tt
    → lookup (run_plan (write p t) d).1 p ≡ some (file t)
unfolding run_plan
run_plan-write p t d h =
    let (_, e) = and_then-ok (mkdir_all (dir_of p) d) (write_file p t) h in
    ap (λ c. lookup c.1 p) e ∙ write_file_lem p t _ (sym (ap (λ c. c.0) e) ∙ h)

run_plans-write :
    (before : List PatchPlan) (p t : Text) (after : List PatchPlan) (d : Disk)
    → NotPlanned p after
    → (run_plans (before ++ write p t ∷ after) d).0 ≡ ok tt
    → lookup (run_plans (before ++ write p t ∷ after) d).1 p ≡ some (file t)
unfolding run_plans
run_plans-write [] p t after d n h =
    let (done, e) = and_then-ok (run_plan (write p t) d) (run_plans after) h in
    ap (λ c. lookup c.1 p) e ∙ run_plans-Keeps after _ p n (file t) (run_plan-write p t d done)
run_plans-write (plan ∷ before) p t after d n h =
    let (done, e) = and_then-ok (run_plan plan d) (run_plans (before ++ write p t ∷ after)) h in
    ap (λ c. lookup c.1 p) e ∙ run_plans-write before p t after _ n (sym (ap (λ c. c.0) e) ∙ h)

finish-ok : (c : Call) → (finish c).0 ≡ ok tt → (c.0 ≡ ok tt) × ((finish c).1 ≡ c.1)
finish-ok (ok u, d) h = (refl, refl)
finish-ok (err e, d) h = cc

-- `ApplyPatch` has written, wherever it succeeds, the content of the last plan for a path.
pub apply_patch-write :
    (w : Workspace) (text : Text) (d : Disk) (before : List PatchPlan) (p t : Text)
    (after : List PatchPlan)
    → plan_patch w d text ≡ ok (before ++ write p t ∷ after)
    → NotPlanned p after
    → (apply_patch w text d).0 ≡ ok tt
    → lookup (apply_patch w text d).1 p ≡ some (file t)
unfolding apply_patch
apply_patch-write w text d before p t after h n = rw h (λ e.
    let (done, same) = finish-ok (run_plans (before ++ write p t ∷ after) d) e in
    ap (λ d'. lookup d' p) same ∙ run_plans-write before p t after d n done)

update_text :
    (path p old new content : Text) (plan : PatchPlan)
    → (reject_if (not (contains content old)) (context_not_found p)
        >> ok (write path (replace content old new 1)))
      ≡ ok plan
    → (contains content old ≡ true) × (plan ≡ write path (replace content old new 1))
update_text path p old new content plan h = ground arith

-- The plan of an update writes the file's content with one occurrence of the old text, which is
-- there, exchanged for the new text, and all else as it was. The old text is
-- not empty.
pub plan_op-IsExchange :
    (w : Workspace) (d : Disk) (p old new : Text) (plan : PatchPlan)
    → 0 ≢ length old
    → plan_op w d (update p old new) ≡ ok plan
    → (path content result : Text) × (resolve w p ≡ ok path)
      × (lookup d path ≡ some (file content))
      × (plan ≡ write path result)
      × IsExchange old new content result
unfolding plan_op
plan_op-IsExchange w d p old new plan n h =
    let (path, r, h₁) = >>=-eq-ok (lift_path (resolve w p)) _ h in
    let (content, e, h₂) = >>=-eq-ok (lift_os (read_file d path)) _ h₁ in
    let (found, same) = update_text path p old new content plan h₂ in
    (
      path,
      content,
      replace content old new 1,
      lift_path-ok (resolve w p) path r,
      read_file-entry d path content (lift_os-ok (read_file d path) content e),
      same,
      replace-IsExchange content old new n found,
    )

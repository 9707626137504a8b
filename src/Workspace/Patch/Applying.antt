-- ===== src/Workspace/Patch/Applying.antt =====
-- `planPatchOp` and `ApplyPatch` of workspace/workspace.go, and what they leave alone.
pub mod Outcome
pub mod Writes
pub mod Overwrite
use kkode.Prelude.{
  ℕ, Bool, true, false, List, [], ◌∷◌, ◌++◌, ltb, if◌then◌else◌, Result, ok, err, ◌>>=◌, ◌>>◌,
  reject_if, not,
}
use kkode.Strings.{Text, contains, replace}
use kkode.Filepath.{clean}
use kkode.Disk.{
  Node, dir_of, OsError, Disk, Call, stat, read_file, mkdir_all, write_file, remove, and_then,
}
use kkode.Workspace.{Workspace, PathError, resolve}
use kkode.Strings.Bytes.{byte_len}
use kkode.Workspace.Patch.{
  PatchOp, add, delete, update, PatchError, too_long, parse_patch, max_patch_bytes,
}

-- The struct `patchPlan`, split by its flag `delete`.
pub data PatchPlan : Type 0 where
  write : Text → Text → PatchPlan
  drop_file : Text → PatchPlan

pub data ApplyError : Type 0 where
  bad_patch : PatchError → ApplyError
  bad_path : PathError → ApplyError
  os_failed : OsError → ApplyError
  context_not_found : Text → ApplyError

abbrev pub lift_path : Result PathError Text → Result ApplyError Text
lift_path (ok p) = ok p
lift_path (err e) = err (bad_path e)

abbrev pub lift_os {ℓ} : {A : Type ℓ} → Result OsError A → Result ApplyError A
lift_os (ok a) = ok a
lift_os (err e) = err (os_failed e)

abbrev pub lift_patch {ℓ} : {A : Type ℓ} → Result PatchError A → Result ApplyError A
lift_patch (ok a) = ok a
lift_patch (err e) = err (bad_patch e)

-- `planPatchOp`, which only reads.
unfoldable pub plan_op : Workspace → Disk → PatchOp → Result ApplyError PatchPlan
plan_op w d (add p new) = do path ← lift_path (resolve w p); ok (write path new)
plan_op w d (delete p) = do
  path ← lift_path (resolve w p)
  _ ← lift_os (stat d path)
  ok (drop_file path)
plan_op w d (update p old new) = do
  path ← lift_path (resolve w p)
  content ← lift_os (read_file d path)
  reject_if (not (contains content old)) (context_not_found p)
  ok (write path (replace content old new 1))

-- The first loop of `ApplyPatch`.
unfoldable pub plan_ops : Workspace → Disk → List PatchOp → Result ApplyError (List PatchPlan)
unfolding plan_op
plan_ops w d [] = ok []
plan_ops w d (op ∷ ops) = do plan ← plan_op w d op; plans ← plan_ops w d ops; ok (plan ∷ plans)

unfoldable pub run_plan : PatchPlan → Disk → Call
unfolding and_then
run_plan (drop_file p) d = remove p d
run_plan (write p t) d = and_then (mkdir_all (dir_of p) d) (write_file p t)

-- The second loop.
unfoldable pub run_plans : List PatchPlan → Disk → Call
unfolding run_plan and_then
run_plans [] d = (ok tt, d)
run_plans (plan ∷ plans) d = and_then (run_plan plan d) (run_plans plans)

abbrev pub finish : Call → Result ApplyError (Unit {0}) × Disk
finish (r, d) = (lift_os r, d)

abbrev pub run_planned :
    Result ApplyError (List PatchPlan) → Disk → Result ApplyError (Unit {0}) × Disk
run_planned (ok plans) d = finish (run_plans plans d)
run_planned (err e) d = (err e, d)

unfoldable pub plan_patch : Workspace → Disk → Text → Result ApplyError (List PatchPlan)
plan_patch w d text = do
  reject_if (ltb max_patch_bytes (byte_len text)) (bad_patch too_long)
  ops ← lift_patch (parse_patch text)
  plan_ops w d ops

-- `ApplyPatch`
unfoldable pub apply_patch : Workspace → Text → Disk → Result ApplyError (Unit {0}) × Disk
unfolding plan_patch run_plans
apply_patch w text d = run_planned (plan_patch w d text) d

-- ===== src/Workspace/Patch/Applying/Outcome.antt =====
-- The disk after `ApplyPatch`.
use kkode.Prelude.{
  true, List, [], ◌∷◌, ◌≡◌, ◌≢◌, refl, ap, subst, ◌∙◌, arith, Result, ok, err, ◌>>=◌, >>=-eq-ok,
  Result-cases, reject_if, inl, inr, Bool-cases, map, All, ltb,
}
use kkode.Strings.{Text, text_eq}
use kkode.Strings.Prefixes.{text_eq_refl, text_eq_iff}
use kkode.Disk.{Disk, Call, mkdir_all, write_file, and_then, dir_of}
use kkode.Disk.Entries.{Keeps, mkdir_all-Keeps, write_file-Keeps, remove-Keeps}
use kkode.Workspace.{Workspace, resolve}
use kkode.Strings.Bytes.{byte_len}
use kkode.Workspace.Patch.{
  PatchOp, PatchError, add, delete, update, op_path, parse_patch, patch_paths, has_text,
  max_patch_bytes, too_long,
}
use kkode.Workspace.Patch.Parsing.{patch_paths_lem}
use kkode.Workspace.Patch.Applying.{
  PatchPlan, write, drop_file, ApplyError, bad_patch, lift_patch, plan_op, plan_ops, run_plan,
  run_plans, plan_patch, apply_patch,
}

abbrev pub plan_path : PatchPlan → Text
plan_path (write p t) = p
plan_path (drop_file p) = p

and_then-Keeps :
    (c : Call) (f : Disk → Call) (d : Disk) (q : Text)
    → Keeps q d c.1
    → ((d' : Disk) → Keeps q d' (f d').1)
    → Keeps q d (and_then c f).1
unfolding and_then
and_then-Keeps (ok u, d') f d q h k n e = k d' n (h n e)
and_then-Keeps (err x, d') f d q h k n e = h n e

run_plan-Keeps :
    (plan : PatchPlan) (d : Disk) (q : Text) → plan_path plan ≢ q → Keeps q d (run_plan plan d).1
unfolding run_plan
run_plan-Keeps (write p t) d q h =
    and_then-Keeps (mkdir_all (dir_of p) d) (write_file p t) d q (mkdir_all-Keeps (dir_of p) d q)
      (λ d'. write_file-Keeps p t d' q h)
run_plan-Keeps (drop_file p) d q h = remove-Keeps p d q h

-- No plan is for the path.
abbrev pub NotPlanned : Text → List PatchPlan → Type 0
NotPlanned q plans = All (λ plan. plan_path plan ≢ q) plans

pub run_plans-Keeps :
    (plans : List PatchPlan) (d : Disk) (q : Text)
    → NotPlanned q plans
    → Keeps q d (run_plans plans d).1
unfolding run_plans
run_plans-Keeps [] d q h = λ n e. e
run_plans-Keeps (plan ∷ plans) d q h =
    and_then-Keeps (run_plan plan d) (run_plans plans) d q (run_plan-Keeps plan d q h.0)
      (λ d'. run_plans-Keeps plans d' q h.1)

-- A plan is for the path that its operation's path resolves to.
plan_op-path :
    (w : Workspace) (d : Disk) (op : PatchOp) (plan : PatchPlan)
    → plan_op w d op ≡ ok plan
    → resolve w (op_path op) ≡ ok (plan_path plan)
unfolding plan_op
plan_op-path w d (add p new) plan h = ground arith
plan_op-path w d (delete p) plan h = ground arith
plan_op-path w d (update p old new) plan h = ground arith

pub plan_ops-cons :
    (w : Workspace) (d : Disk) (op : PatchOp) (ops : List PatchOp) (plans : List PatchPlan)
    → plan_ops w d (op ∷ ops) ≡ ok plans
    → (plan : PatchPlan) × (plan_op w d op ≡ ok plan)
      × ((plan_ops w d ops >>= λ rest. ok (plan ∷ rest)) ≡ ok plans)
unfolding plan_ops
plan_ops-cons w d op ops plans h = >>=-eq-ok (plan_op w d op) _ h

plan_ops-NotPlanned :
    (w : Workspace) (d : Disk) (q : Text) (ops : List PatchOp) (plans : List PatchPlan)
    → plan_ops w d ops ≡ ok plans
    → All (λ op. resolve w (op_path op) ≢ ok q) ops
    → NotPlanned q plans
plan_ops-NotPlanned w d q [] plans h k =
    let none_planned : [] ≡ plans = unfold plan_ops in cc in subst (NotPlanned q) none_planned tt
plan_ops-NotPlanned w d q (op ∷ ops) plans h k =
    let (plan, e, h') = plan_ops-cons w d op ops plans h in
    let (rest, e', h'') = >>=-eq-ok (plan_ops w d ops) _ h' in
    let same : (plan ∷ rest) ≡ plans = cc in
    subst (NotPlanned q) same
      ((λ s. k.0 (plan_op-path w d op plan e ∙ ap ok s)), plan_ops-NotPlanned w d q ops rest e' k.1)

All-has_text :
    (P : Text → Type 0) (ps : List Text) (p : Text) → All P ps → has_text ps p ≡ true → P p
unfolding has_text
All-has_text P [] p h e = cc
All-has_text P (r ∷ ps) p h e = elim (Bool-cases (text_eq r p)) [
  | inl s ↦ subst P ((text_eq_iff r p).0 s) h.0
  | inr s ↦ All-has_text P ps p h.1 (rw s at e)
]

All-ops :
    (P : Text → Type 0) (ps : List Text) (ops : List PatchOp)
    → ((p : Text) → has_text (map op_path ops) p ≡ true → has_text ps p ≡ true)
    → All P ps
    → All (λ op. P (op_path op)) ops
unfolding has_text
All-ops P ps [] h k = tt
All-ops P ps (op ∷ ops) h k = (
  All-has_text P ps (op_path op) k (h (op_path op) (rw (text_eq_refl (op_path op)))),
  All-ops P ps ops (λ p e. h p (ground arith)) k,
)

lift_patch-eq-ok :
    (r : Result PatchError (List PatchOp)) (ops : List PatchOp) → lift_patch r ≡ ok ops → r ≡ ok ops
lift_patch-eq-ok (ok a) ops h = cc
lift_patch-eq-ok (err e) ops h = cc

-- The operations behind a plan.
pub plan_patch-ops :
    (w : Workspace) (d : Disk) (text : Text) (plans : List PatchPlan)
    → plan_patch w d text ≡ ok plans
    → (ops : List PatchOp) × (parse_patch text ≡ ok ops) × (plan_ops w d ops ≡ ok plans)
unfolding plan_patch
plan_patch-ops w d text plans h =
    let (_, _, h') =
      >>=-eq-ok (reject_if (ltb max_patch_bytes (byte_len text)) (bad_patch too_long)) _ h in
    let (ops, parsed, e) = >>=-eq-ok (lift_patch (parse_patch text)) _ h' in
    (ops, lift_patch-eq-ok (parse_patch text) ops parsed, e)

plan_patch-NotPlanned :
    (w : Workspace) (d : Disk) (q text : Text) (plans : List PatchPlan) (paths : List Text)
    → plan_patch w d text ≡ ok plans
    → patch_paths text ≡ ok paths
    → All (λ p. resolve w p ≢ ok q) paths
    → NotPlanned q plans
plan_patch-NotPlanned w d q text plans paths h e k =
    let (ops, parsed, planned) = plan_patch-ops w d text plans h in
    let (_, same) = patch_paths_lem text ops paths parsed e in
    plan_ops-NotPlanned w d q ops plans planned
      (All-ops (λ p. resolve w p ≢ ok q) paths ops (λ p m. same p ∙ m) k)

-- Whatever `ApplyPatch` returns, each entry of the disk that none of the paths of `PatchPaths`
-- resolves to is still there and unchanged.
pub apply_patch-Keeps :
    (w : Workspace) (text : Text) (d : Disk) (q : Text) (paths : List Text)
    → patch_paths text ≡ ok paths
    → All (λ p. resolve w p ≢ ok q) paths
    → Keeps q d (apply_patch w text d).1
apply_patch-Keeps w text d q paths h k = elim (Result-cases (plan_patch w d text)) [
  | inl (plans, e) ↦
      unfold apply_patch in
      (rw (e) (run_plans-Keeps plans d q (plan_patch-NotPlanned w d q text plans paths e h k)))
  | inr (x, e) ↦ unfold apply_patch in (rw e (λ n e. e))
]

-- Where planning fails, for a patch that does not parse, a path that escapes, or a context that is
-- not found, in whichever operation, `ApplyPatch` returns that error and nothing has changed.
pub apply_patch-plan_fails :
    (w : Workspace) (text : Text) (d : Disk) (e : ApplyError)
    → plan_patch w d text ≡ err e
    → apply_patch w text d ≡ (err e, d)
unfolding apply_patch
apply_patch-plan_fails w text d e h = rw h refl

-- ===== src/Workspace/Patch/Applying/Overwrite.antt =====
-- Two updates of one file in one patch.
use kkode.Prelude.{
  List, [], ◌∷◌, ◌≡◌, ◌≢◌, ap, subst, ◌∙◌, Result, ok, err, >>=-eq-ok, Result-cases, inl, inr, some,
  length,
}
use kkode.Strings.Search.{IsExchange}
use kkode.Strings.{Text}
use kkode.Disk.{file, Disk, lookup}
use kkode.Workspace.{Workspace, resolve}
use kkode.Workspace.Patch.{PatchOp, PatchError, update, parse_patch}
use kkode.Workspace.Patch.Applying.{
  PatchPlan, ApplyError, plan_op, plan_ops, plan_patch, apply_patch,
}
use kkode.Workspace.Patch.Applying.Outcome.{plan_patch-ops, plan_ops-cons, apply_patch-plan_fails}
use kkode.Workspace.Patch.Applying.Writes.{apply_patch-write, plan_op-IsExchange}

plan_ops-two :
    (w : Workspace) (d : Disk) (a b : PatchOp) (plans : List PatchPlan)
    → plan_ops w d (a ∷ b ∷ []) ≡ ok plans
    → (p q : PatchPlan) × (plan_op w d b ≡ ok q) × (plans ≡ p ∷ q ∷ [])
unfolding plan_ops
plan_ops-two w d a b plans h =
    let (p, _, h₁) = plan_ops-cons w d a (b ∷ []) plans h in
    let (rest, e, h₂) = >>=-eq-ok (plan_ops w d (b ∷ [])) _ h₁ in
    let (q, f, h₃) = plan_ops-cons w d b [] rest e in (p, q, f, cc)

ok-injective :
    (a b : List PatchOp) (r : Result PatchError (List PatchOp)) → r ≡ ok a → r ≡ ok b → a ≡ b
ok-injective a b r h k = cc

planned :
    (w : Workspace) (text : Text) (d : Disk)
    → (apply_patch w text d).0 ≡ ok tt
    → (plans : List PatchPlan) × (plan_patch w d text ≡ ok plans)
planned w text d h = elim (Result-cases (plan_patch w d text)) [
  | inl k ↦ k
  | inr (e, k) ↦ absurd (failed (ap (λ c. c.0) (apply_patch-plan_fails w text d e k)))
]
  where
    failed : {e : ApplyError} → (apply_patch w text d).0 ≡ err e → ⊥
    failed k = cc

-- A patch whose two operations update the same path keeps the second update only: both are planned
-- on the content that was there before, and the second write replaces the first. The second old text is
-- not empty, and the patch succeeds.
pub apply_patch-two_updates :
    (w : Workspace) (text p old new old' new' : Text) (d : Disk)
    → 0 ≢ length old'
    → parse_patch text ≡ ok (update p old new ∷ update p old' new' ∷ [])
    → (apply_patch w text d).0 ≡ ok tt
    → (path content result : Text) × (resolve w p ≡ ok path)
      × (lookup d path ≡ some (file content))
      × IsExchange old' new' content result
      × (lookup (apply_patch w text d).1 path ≡ some (file result))
apply_patch-two_updates w text p old new old' new' d n parsed h =
    let (plans, e) = planned w text d h in
    let (ops, parsed', e') = plan_patch-ops w d text plans e in
    let same = ok-injective _ _ (parse_patch text) parsed' parsed in
    let (first, second, f, shape) =
      plan_ops-two w d _ _ plans (subst (λ o. plan_ops w d o ≡ ok plans) same e') in
    let (path, content, result, r, entry, q, k) = plan_op-IsExchange w d p old' new' second n f in
    (
      path,
      content,
      result,
      r,
      entry,
      k,
      apply_patch-write w text d (first ∷ []) path result []
          (e ∙ ap ok (shape ∙ ap (λ x. first ∷ x ∷ []) q)) tt h,
    )

-- ===== src/Webhook/Laws.antt =====
-- What the webhook admits, and what the controller may rely on then.
use backrest_operator.Prelude.{
  ◌≡◌, ◌≢◌, refl, ◌↔◌, ◌≤◌, Bytes, bytes, true, false, none, List, [], ◌∷◌, length, In, All, All-In,
  arith, eq_iff,
}
use backrest_operator.Prelude.Dict.{text_at}
use backrest_operator.Api.{PipelineStep, PvcBackup}
use backrest_operator.Backup.Spec.{pvc_list}
use backrest_operator.Webhook.{
  leave_down_annotation, is_snapshot, is_live_flush, validate_step, validate_steps,
  validate_leave_down, validate_backup,
}

-- A step that a backup may have: not liveFlush, and a snapshot only of one claim and with a class.
abbrev pub StepFits : PvcBackup → PipelineStep → Type 0
StepFits b s =
    (is_live_flush s ≡ false)
    × (is_snapshot s ≡ true → b.spec.volume_snapshot_class_name ≢ [])
    × (is_snapshot s ≡ true → length b.spec.pvc_names ≤ 1)

validate_step_iff : (b : PvcBackup) (s : PipelineStep) → (validate_step b s ≡ none) ↔ StepFits b s
unfolding validate_step
validate_step_iff b s = ground arith

validate_steps_iff :
    (b : PvcBackup) (steps : List PipelineStep)
    → (validate_steps b steps ≡ none) ↔ All (StepFits b) steps
unfolding validate_steps
validate_steps_iff b [] = (λ _. tt, λ _. refl)
validate_steps_iff b (s ∷ steps) = ground (arith, validate_step_iff b s, validate_steps_iff b steps)

-- The rules for a PVCBackup, each a field.
pub record IsAdmissible (b : PvcBackup) : Type 0 where
  pub claims : pvc_list b ≢ []
  pub repository : b.spec.repository_ref.name ≢ []
  pub steps : All (StepFits b) b.spec.pipeline
  pub leave_down :
      b.spec.quiesce.leave_down ≡ true
      → text_at leave_down_annotation b.metadata.annotations ≡ bytes "true"

validate_leave_down_iff :
    (b : PvcBackup)
    → (validate_leave_down b ≡ none) ↔ (
        b.spec.quiesce.leave_down ≡ true
        → text_at leave_down_annotation b.metadata.annotations ≡ bytes "true")
unfolding validate_leave_down
validate_leave_down_iff b =
    ground (arith, eq_iff (text_at leave_down_annotation b.metadata.annotations) (bytes "true"))

-- The webhook accepts a PVCBackup exactly when it names a claim and a repository, every step of its
-- pipeline fits (no live flush, a snapshot only with a class and of at most one listed claim), and
-- leaving the workloads down is confirmed by the annotation.
pub validate_backup_iff : (b : PvcBackup) → (validate_backup b ≡ none) ↔ IsAdmissible b
unfolding validate_backup pvc_list
validate_backup_iff b = (
  λ h. record {
    claims = ground arith;
    repository = ground arith;
    steps = (validate_steps_iff b b.spec.pipeline).0 (ground arith);
    leave_down = (validate_leave_down_iff b).0 (ground arith);
  },
  λ v. ground (
    arith,
    v.claims,
    v.repository,
    (validate_steps_iff b b.spec.pipeline).1 v.steps,
    (validate_leave_down_iff b).1 v.leave_down,
  ),
)

abbrev first_claim : List Bytes → Bytes → Bytes
first_claim [] name = name
first_claim (p ∷ ps) name = p

single_of :
    (b : PvcBackup)
    → pvc_list b ≢ []
    → length b.spec.pvc_names ≤ 1
    → pvc_list b ≡ first_claim b.spec.pvc_names b.spec.pvc_name ∷ []
unfolding pvc_list
single_of b h k = grind arith

-- A snapshot step of an admitted backup finds what the controller asks for: exactly one claim, and
-- a volume snapshot class.
admitted_snapshot :
    (b : PvcBackup) (s : PipelineStep)
    → validate_backup b ≡ none
    → In s b.spec.pipeline
    → is_snapshot s ≡ true
    → ((p : Bytes) × (pvc_list b ≡ p ∷ [])) × (b.spec.volume_snapshot_class_name ≢ [])
admitted_snapshot b s h i snap =
    let v = (validate_backup_iff b).0 h in
    let fits = All-In (StepFits b) b.spec.pipeline v.steps i in
    ((_, single_of b v.claims (fits.2 snap)), fits.1 snap)

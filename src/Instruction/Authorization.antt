-- ===== src/Instruction/Authorization.antt =====
-- The record of a policy decision (instruction-service/src/inst/authorization.py).
pub mod Summary
use security_event_rag_demo.Base.{
  ℕ, String, ◌<>◌, Bool, true, false, not, ◌&&◌, Option, none, some, List, [], ◌∷◌, contains, map,
  select, starts_with, str_eq, truthy, or_empty, length, ltb, if◌then◌else◌, is_nonempty,
  or_default,
}
use security_event_rag_demo.Base.Text.{join, lower_words}
use security_event_rag_demo.Base.Json.{
  Value, Fields, field, end, str, texts, optional, flag, array, nil, object, put, get,
}
use security_event_rag_demo.Clients.Authz.{PolicyDecision}
use security_event_rag_demo.Instruction.Enums.{
  LifecycleAction, action_value, status_value, type_value,
}
use security_event_rag_demo.Instruction.Subject.{Subject}
use security_event_rag_demo.Instruction.Model.{CashSettlementInstruction}

-- `VIOLATION_LABELS`
pub violation_labels : List (String × String)
violation_labels =
    ("MISSING_ROLE_INSTRUCTION_CREATOR", "missing INSTRUCTION_CREATOR role")
    ∷ ("MISSING_ROLE_INSTRUCTION_APPROVER", "missing INSTRUCTION_APPROVER role")
    ∷ ("NOT_MIDDLE_OFFICE_GROUP", "not a member of MIDDLE_OFFICE group")
    ∷ ("CREATOR_TITLE_INELIGIBLE", "creator title not eligible for instruction mutations")
    ∷ ("ACCOUNT_LOB_MISMATCH", "funding account LOB does not match instruction LOB")
    ∷ ("INVALID_PROFIT_CENTER", "instruction LOB is not a valid profit center")
    ∷ ("INVALID_INSTRUCTION_TYPE", "instruction type must be STANDING or SINGLE_USE")
    ∷ ("INVALID_INSTRUCTION_STATUS", "instruction status not valid for this action")
    ∷ ("INSTRUCTION_DURATION_EXCEEDS_3Y", "instruction duration exceeds three-year limit")
    ∷ ("INVALID_STATE_TRANSITION", "invalid lifecycle state transition")
    ∷ ("ALERT_LOB_MISMATCH", "approver LOB does not match instruction LOB")
    ∷ ("SELF_APPROVAL", "creator cannot approve own instruction")
    ∷ ("ALERT_SUPERVISOR_APPROVING_SUBORDINATE", "approver is supervisor of the creator")
    ∷ ("ALERT_SUBORDINATE_APPROVING_CREATOR", "approver reports directly to the creator")
    ∷ ("ALERT_APPROVAL_MATRIX_VIOLATION", "approver title does not satisfy approval matrix")
    ∷ ("SUSPEND_REQUIRES_MANAGING_DIRECTOR", "suspend requires Managing Director title")
    ∷ ("SELF_REACTIVATION", "suspender cannot reactivate the same instruction")
    ∷ ("ALERT_UNAUTHORIZED_SERVICE", "USE requires INSTRUCTION_MARKER service delegation")
    ∷ ("ALERT_UNAPPROVED_INSTRUCTION", "instruction is not in an approved status")
    ∷ ("ALERT_EXPIRED_INSTRUCTION", "instruction has expired")
    ∷ ("VIEWER_ACCESS_DENIED", "subject lacks instruction viewer access")
    ∷ []

-- `labels.get(code, d)`
unfoldable pub label_or : List (String × String) → String → String → String
label_or [] code d = d
label_or ((k, v) ∷ rest) code d =
    let other = label_or rest code d in if str_eq k code then v else other

-- `_display_name`
unfoldable pub actor_name : Subject → String
actor_name s =
    if truthy s.given_name && truthy s.family_name
    then or_empty s.family_name <> ", " <> or_empty s.given_name <> " (" <> s.user_id <> ")"
    else s.user_id

-- `subject_at_decision`
unfoldable pub subject_at_decision : Subject → Fields
subject_at_decision s = field "user_id" (str s.user_id) (
    field "given_name" (optional s.given_name) (
      field "family_name" (optional s.family_name) (
        field "title" (str s.title) (
          field "roles" (texts s.roles) (
            field "groups" (texts s.groups) (
              field "lob" (optional s.lob) (
                field "supervisor_id" (optional s.supervisor_id) (
                  field "delegated_by" (optional s.delegated_by)
                    (field "delegated_by_roles" (texts s.delegated_by_roles) end)))))))))

-- `instruction_resource_context`
unfoldable pub instruction_resource_context : CashSettlementInstruction → Fields
instruction_resource_context i = field "instruction_id" (str i.instruction_id) (
    field "owning_lob" (str i.owning_lob) (
      field "status" (str (status_value i.status)) (
        field "instruction_type" (str (type_value i.instruction_type)) (
          field "created_by_user_id" (str i.created_by.user_id)
            (field "created_by_title" (str i.created_by.title) end)))))

-- The loop of `_primary_violation`, and what stands behind it.
pub first_alert : List String → String → String
first_alert [] d = d
first_alert (code ∷ rest) d =
    let later = first_alert rest d in if starts_with code "ALERT_" then code else later

pub first_or : List String → String → String
first_or [] d = d
first_or (code ∷ _) d = code

unfoldable pub primary_violation : List String → String
unfolding first_alert first_or
primary_violation violations = first_alert violations (first_or violations "POLICY_DENIED")

allow_summary : Subject → LifecycleAction → List String → String
unfolding actor_name join
allow_summary s a [] = actor_name s <> " was allowed to " <> action_value a
allow_summary s a basis =
    actor_name s <> " was allowed to " <> action_value a <> " because " <> join "; " basis

-- The codes other than the primary one, with their labels.
also_clause : List String → String
unfolding join
also_clause [] = ""
also_clause extras = " (also: " <> join "; " extras <> ")"

unfoldable pub deny_summary : Subject → LifecycleAction → List String → String
unfolding actor_name label_or also_clause violation_labels
deny_summary s a violations =
    let primary = primary_violation violations in
    let head : String =
      actor_name s
      <> " was denied "
      <> action_value a
      <> ": "
      <> label_or violation_labels primary (lower_words primary) in
    if ltb 1 (length violations)
    then head
      <> also_clause (
          map (λ code. label_or violation_labels code code)
            (select (λ code. not (str_eq code primary)) violations))
    else head

-- `build_authorization_block`: a dict that is read back by `["summary"]`.
pub record AuthorizationBlock : Type 0 where
  pub fields : Fields
  pub summary : String

unfoldable pub build_authorization_block :
    PolicyDecision → Subject → LifecycleAction → Fields → AuthorizationBlock
unfolding allow_summary
build_authorization_block decision s a resource_context =
    let summary : String =
      if decision.allowed
      then allow_summary s a decision.allow_basis
      else deny_summary s a decision.violations in
    record {
      summary = summary;
      fields = field "engine" (str "opa") (
          field "package" (str "instruction.lifecycle") (
            field "action" (str (action_value a)) (
              field "decision" (str (if decision.allowed then "allow" else "deny")) (
                field "subject_at_decision" (object (subject_at_decision s)) (
                  field "resource_context" (object resource_context) (
                    field "allow_basis"
                      (if decision.allowed then texts decision.allow_basis else array nil)
                      (field "violations"
                        (if decision.allowed then array nil else texts decision.violations)
                        (field "is_alert" (flag (not decision.allowed && decision.is_alert))
                          (field "summary" (str summary) end)))))))));
    }

-- `details_with_authorization`
unfoldable pub details_with_authorization : Option Fields → AuthorizationBlock → Fields
details_with_authorization details authorization =
    put "authorization" (object authorization.fields) (or_default details end)

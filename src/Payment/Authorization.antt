-- ===== src/Payment/Authorization.antt =====
-- The record of a policy decision on a payment (payment-service/src/ps/authorization.py). The search
-- for the primary violation and the look-up of a label are the instruction service's, word for word.
use security_event_rag_demo.Base.{
  String, ◌<>◌, not, ◌&&◌, List, [], ◌∷◌, map, select, str_eq, truthy, or_empty, length, ltb,
  if◌then◌else◌, is_nonempty,
}
use security_event_rag_demo.Base.Text.{join, lower_words}
use security_event_rag_demo.Base.Json.{
  Fields, field, end, str, real, texts, optional, flag, array, nil, object,
}
use security_event_rag_demo.Clients.Authz.{PolicyDecision}
use security_event_rag_demo.Instruction.Authorization.{
  AuthorizationBlock, primary_violation, label_or,
}
use security_event_rag_demo.Payment.Enums.{
  PaymentAction, payment_action_value, payment_status_value,
}
use security_event_rag_demo.Payment.Model.{PaymentSubject, Payment}

-- `VIOLATION_LABELS`
pub payment_violation_labels : List (String × String)
payment_violation_labels =
    ("ALERT_AMOUNT_EXCEEDS_100B_LIMIT", "payment amount exceeds absolute 100B USD ceiling")
    ∷ ("ALERT_AMOUNT_EXCEEDS_SUBJECT_LIMIT", "payment amount exceeds subject club limit")
    ∷ ("NO_LIMIT_GROUP_ASSIGNED", "subject has no payment limit club group")
    ∷ ("ALERT_UNAPPROVED_INSTRUCTION", "backing instruction is not approved")
    ∷ ("ALERT_EXPIRED_INSTRUCTION", "backing instruction has expired")
    ∷ ("ALERT_NOT_MIDDLE_OFFICE_GROUP", "FUNDING_APPROVER is not in MIDDLE_OFFICE group")
    ∷ ("ALERT_LOB_COVERAGE_VIOLATION", "subject does not cover the instruction LOB")
    ∷ ("SELF_APPROVAL", "payment creator cannot approve own payment")
    ∷ ("ALERT_SUBORDINATE_APPROVING_CREATOR", "approver reports directly to payment creator")
    ∷ []

-- `_display_name`
unfoldable pub payment_actor_name : PaymentSubject → String
payment_actor_name s =
    if truthy s.given_name && truthy s.family_name
    then or_empty s.family_name <> ", " <> or_empty s.given_name <> " (" <> s.user_id <> ")"
    else s.user_id

-- `subject_at_decision`
unfoldable pub payment_subject_at_decision : PaymentSubject → Fields
payment_subject_at_decision s = field "user_id" (str s.user_id) (
    field "given_name" (optional s.given_name) (
      field "family_name" (optional s.family_name) (
        field "title" (str s.title) (
          field "roles" (texts s.roles) (
            field "groups" (texts s.groups) (
              field "covering_lobs" (texts s.covering_lobs) (
                field "lob" (optional s.lob)
                  (field "supervisor_id" (optional s.supervisor_id) end))))))))

unfoldable pub payment_resource_context : Payment → String → String → Fields
payment_resource_context p status end_date = field "payment_id" (str p.payment_id) (
    field "instruction_id" (str p.instruction_id) (
      field "instruction_owning_lob" (str p.owning_lob) (
        field "instruction_status" (str (if is_nonempty status then status else p.instruction_type))
          (field "instruction_end_date" (str end_date) (
            field "payment_amount" (real p.amount) (
              field "payment_currency" (str p.currency) (
                field "payment_status" (str (payment_status_value p.status))
                  (field "created_by_user_id" (str p.created_by.user_id) end))))))))

payment_allow_summary : PaymentSubject → PaymentAction → List String → String
unfolding payment_actor_name join
payment_allow_summary s a [] = payment_actor_name s <> " was allowed to " <> payment_action_value a
payment_allow_summary s a basis =
    payment_actor_name s
    <> " was allowed to "
    <> payment_action_value a
    <> " because "
    <> join "; " basis

-- The codes other than the primary one, with their labels.
also_violated : List String → String
unfolding join
also_violated [] = ""
also_violated extras = " (also: " <> join "; " extras <> ")"

unfoldable pub payment_deny_summary : PaymentSubject → PaymentAction → List String → String
unfolding payment_actor_name label_or also_violated payment_violation_labels
payment_deny_summary s a violations =
    let primary = primary_violation violations in
    let head : String =
      payment_actor_name s
      <> " was denied "
      <> payment_action_value a
      <> ": "
      <> label_or payment_violation_labels primary (lower_words primary) in
    if ltb 1 (length violations)
    then head
      <> also_violated (
          map (λ code. label_or payment_violation_labels code code)
            (select (λ code. not (str_eq code primary)) violations))
    else head

-- `build_authorization_block`
unfoldable pub build_payment_block :
    PolicyDecision → PaymentSubject → PaymentAction → Fields → AuthorizationBlock
unfolding payment_allow_summary
build_payment_block decision s a resource_context =
    let summary : String =
      if decision.allowed
      then payment_allow_summary s a decision.allow_basis
      else payment_deny_summary s a decision.violations in
    record {
      summary = summary;
      fields = field "engine" (str "opa") (
          field "package" (str "payment.lifecycle") (
            field "action" (str (payment_action_value a)) (
              field "decision" (str (if decision.allowed then "allow" else "deny")) (
                field "subject_at_decision" (object (payment_subject_at_decision s)) (
                  field "resource_context" (object resource_context) (
                    field "allow_basis"
                      (if decision.allowed then texts decision.allow_basis else array nil)
                      (field "violations"
                        (if decision.allowed then array nil else texts decision.violations)
                        (field "is_alert" (flag (not decision.allowed && decision.is_alert))
                          (field "summary" (str summary) end)))))))));
    }

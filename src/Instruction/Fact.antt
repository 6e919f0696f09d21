-- ===== src/Instruction/Fact.antt =====
-- Facts for the indexer and their validation (instruction-service/src/inst/models/instruction_fact.py
-- and fact_validation.py).
use security_event_rag_demo.Base.{
  ℕ, String, ◌<>◌, Bool, true, false, not, ◌||◌, Option, none, some, List, [], ◌∷◌, str_eq, ltb,
  if◌then◌else◌, ◌&&◌,
}
use security_event_rag_demo.Base.Exec.{Error, Result, ok, err}
use security_event_rag_demo.Base.Json.{
  Value, Fields, Items, null, str, array, object, nil, cons, field, end, optional, texts, get,
}
use security_event_rag_demo.Instruction.Enums.{LifecycleAction, action_value, status_value}
use security_event_rag_demo.Instruction.Parties.{UserReference, LifecycleEvent}
use security_event_rag_demo.Instruction.Subject.{Subject}
use security_event_rag_demo.Instruction.Model.{CashSettlementInstruction}

pub record InstructionFact : Type 0 where
  pub fact_id : String
  pub instruction_id : String
  pub version_number : ℕ
  pub action : String
  pub timestamp : ℕ
  pub actor_user_id : String
  pub actor_given_name : Option String
  pub actor_family_name : Option String
  pub actor_title : String
  pub actor_lob : Option String
  pub actor_roles : List String
  pub actor_supervisor_id : Option String
  pub instruction_snapshot : CashSettlementInstruction
  pub authorization : Value

module _ (json_datetime : ℕ → String) where
  dump_time : Option ℕ → Value
  dump_time none = null
  dump_time (some t) = str (json_datetime t)

  dump_user : UserReference → Value
  dump_user u = object (
      field "user_id" (str u.user_id) (
        field "given_name" (optional u.given_name) (
          field "family_name" (optional u.family_name) (
            field "title" (str u.title) (
              field "lob" (optional u.lob) (
                field "roles" (texts u.roles)
                  (field "supervisor_id" (optional u.supervisor_id) end)))))))

  dump_user_opt : Option UserReference → Value
  dump_user_opt none = null
  dump_user_opt (some u) = dump_user u

  dump_events : List LifecycleEvent → Items
  dump_events [] = nil
  dump_events (e ∷ rest) =
      cons
        (object (
          field "event_id" (str e.event_id) (
            field "action" (str e.action) (
              field "actor_user_id" (str e.actor_user_id) (
                field "timestamp" (str (json_datetime e.timestamp))
                  (field "details" (object e.details) end))))))
        (dump_events rest)

  -- The entries of `instruction.model_dump(mode="json")` that the validation reads.
  unfoldable pub snapshot : CashSettlementInstruction → Fields
  unfolding dump_time dump_user dump_user_opt dump_events
  snapshot i = field "instruction_id" (str i.instruction_id) (
      field "status" (str (status_value i.status)) (
        field "effective_date" (str (json_datetime i.effective_date)) (
          field "end_date" (str (json_datetime i.end_date)) (
            field "created_by" (dump_user i.created_by) (
              field "submitted_at" (dump_time i.submitted_at) (
                field "approved_by" (dump_user_opt i.approved_by) (
                  field "approved_at" (dump_time i.approved_at) (
                    field "rejected_by" (dump_user_opt i.rejected_by) (
                      field "rejected_at" (dump_time i.rejected_at) (
                        field "rejection_reason" (optional i.rejection_reason) (
                          field "suspended_by" (optional i.suspended_by) (
                            field "suspended_at" (dump_time i.suspended_at) (
                              field "lifecycle_events" (array (dump_events i.lifecycle_events))
                                end)))))))))))))

-- `value is None or value == "" or value == []`
unfoldable pub is_missing : Value → Bool
is_missing null = true
is_missing (str s) = str_eq s ""
is_missing (array nil) = true
is_missing _ = false

-- `not isinstance(user, dict) or not user.get("user_id")`
unfoldable pub lacks_user_id : Value → Bool
unfolding get
lacks_user_id (object d) = elim (get "user_id" d) [ str s ↦ str_eq s "" | _ ↦ true ]
lacks_user_id _ = true

infixl 5 ◌>>◌
abbrev ◌>>◌ : Result (Unit {0}) → Result (Unit {0}) → Result (Unit {0})
(ok u) >> k = k
(err e) >> k = err e

module _ (entries : Fields) (action : String) where
  require : String → Result (Unit {0})
  unfolding is_missing
  require f =
      if is_missing (get f entries)
      then err (
          Error.value_error
            ("instruction fact missing required field '" <> f <> "' for action " <> action))
      else ok tt

  require_all : List String → Result (Unit {0})
  unfolding require
  require_all [] = ok tt
  require_all (f ∷ fs) = require f >> require_all fs

  require_user_ref : String → Result (Unit {0})
  unfolding require lacks_user_id
  require_user_ref f =
      require f
      >> (if lacks_user_id (get f entries)
          then err (
              Error.value_error
                ("instruction fact " <> f <> ".user_id required for action " <> action))
          else ok tt)

  -- `isinstance(events, list) and events`
  require_events : Value → Result (Unit {0})
  require_events (array (cons _ _)) = ok tt
  require_events _ =
      err (Error.value_error "instruction fact lifecycle_events must be a non-empty list")

  require_user_ref_if : Bool → String → Result (Unit {0})
  unfolding require_user_ref
  require_user_ref_if b f = if b then require_user_ref f else ok tt

-- `action_fields.get(action, [])`
unfoldable pub action_fields : String → List String
action_fields action =
    if str_eq action "SUBMIT"
    then "submitted_at" ∷ []
    else if str_eq action "APPROVE"
    then "approved_by" ∷ "approved_at" ∷ []
    else if str_eq action "REJECT"
    then "rejected_by" ∷ "rejected_at" ∷ "rejection_reason" ∷ []
    else if str_eq action "SUSPEND"
    then "suspended_by" ∷ "suspended_at" ∷ []
    else []

abbrev is_null : Value → Bool
is_null null = true
is_null _ = false

abbrev keeps_approval : String → Bool
keeps_approval action =
    str_eq action "UPDATE"
    || str_eq action "SUSPEND"
    || str_eq action "REACTIVATE"
    || str_eq action "USE"
    || str_eq action "DELETE"

-- `validate_instruction_snapshot`
unfoldable pub validate_instruction_snapshot : Fields → String → ℕ → Result (Unit {0})
unfolding require_all require_user_ref_if require_events action_fields
validate_instruction_snapshot s action version_number =
    require_all s action (
      "instruction_id" ∷ "status" ∷ "created_by" ∷ "lifecycle_events" ∷ "effective_date"
      ∷ "end_date" ∷ [])
    >> require_user_ref s action "created_by"
    >> require_events s action (get "lifecycle_events" s)
    >> (if ltb version_number 1
        then err (Error.value_error "instruction fact version_number must be >= 1")
        else ok tt)
    >> require_all s action (action_fields action)
    >> require_user_ref_if s action (str_eq action "APPROVE") "approved_by"
    >> require_user_ref_if s action (str_eq action "REJECT") "rejected_by"
    >> require_user_ref_if s action (keeps_approval action && not (is_null (get "approved_by" s)))
        "approved_by"

-- `InstructionFact.from_instruction`, with a fresh id and the time of the call.
unfoldable pub from_instruction :
    (ℕ → String)
    → LifecycleAction
    → Subject
    → CashSettlementInstruction
    → ℕ
    → Value
    → String
    → ℕ
    → Result InstructionFact
from_instruction json_datetime action subject i version_number authorization fact_id now =
    elim (validate_instruction_snapshot (snapshot json_datetime i) (action_value action)
      version_number) [
        | err e ↦ err e
        | ok _ ↦ ok (record {
          fact_id = fact_id;
          instruction_id = i.instruction_id;
          version_number = version_number;
          action = action_value action;
          timestamp = now;
          actor_user_id = subject.user_id;
          actor_given_name = subject.given_name;
          actor_family_name = subject.family_name;
          actor_title = subject.title;
          actor_lob = subject.lob;
          actor_roles = subject.roles;
          actor_supervisor_id = subject.supervisor_id;
          instruction_snapshot = i;
          authorization = authorization;
        })
      ]

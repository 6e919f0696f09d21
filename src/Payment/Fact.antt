-- ===== src/Payment/Fact.antt =====
-- Payment facts for the indexer and their validation (payment-service/src/ps/models/payment_fact.py and
-- fact_validation.py). What is missing of a field is the instruction service's test, word for word.
pub mod Entries
pub mod Complete
use security_event_rag_demo.Base.{
  ℕ, suc, String, ◌<>◌, ◌==◌, Bool, true, false, not, ◌||◌, ◌&&◌, Option, none, some, List, [], ◌∷◌,
  str_eq, ltb, if◌then◌else◌,
}
use security_event_rag_demo.Base.Exec.{Error, Result, ok, err}
use security_event_rag_demo.Base.Json.{
  Value, Fields, Items, null, str, number, real, flag, array, object, nil, cons, field, end,
  optional, texts, get,
}
use security_event_rag_demo.Clients.Http.{truth}
use security_event_rag_demo.Instruction.Parties.{UserReference}
use security_event_rag_demo.Instruction.Fact.{is_missing, lacks_user_id}
use security_event_rag_demo.Payment.Enums.{
  PaymentAction, payment_action_value, payment_status_value,
}
use security_event_rag_demo.Payment.Model.{
  PaymentSubject, PaymentLifecycleEvent, Payment, sync_version_number,
}

pub record PaymentFact : Type 0 where
  pub fact_id : String
  pub payment_id : String
  pub version_number : ℕ
  pub action : String
  pub timestamp : ℕ
  pub actor_user_id : String
  pub actor_given_name : Option String
  pub actor_family_name : Option String
  pub actor_title : Option String
  pub actor_lob : Option String
  pub authorization : Value
  pub payment_snapshot : Payment

unfoldable pub dump_reference : UserReference → Value
dump_reference u = object (
    field "user_id" (str u.user_id) (
      field "given_name" (optional u.given_name) (
        field "family_name" (optional u.family_name) (
          field "title" (str u.title) (
            field "lob" (optional u.lob) (
              field "roles" (texts u.roles)
                (field "supervisor_id" (optional u.supervisor_id) end)))))))

unfoldable pub dump_reference_opt : Option UserReference → Value
unfolding dump_reference
dump_reference_opt none = null
dump_reference_opt (some u) = dump_reference u

unfoldable pub dump_payment_events : List PaymentLifecycleEvent → Items
dump_payment_events [] = nil
dump_payment_events (e ∷ rest) =
    cons
      (object (
        field "event_id" (str e.event_id) (
          field "action" (str e.action) (
            field "actor_user_id" (str e.actor_user_id)
              (field "timestamp" (str e.timestamp) (field "details" (object e.details) end))))))
      (dump_payment_events rest)

-- `payment.model_dump(mode="json")`
unfoldable pub dump_payment : (ℕ → String) → Payment → Fields
unfolding dump_reference dump_reference_opt dump_payment_events
dump_payment json_datetime p = field "payment_id" (str p.payment_id) (
    field "instruction_id" (str p.instruction_id) (
      field "instruction_version" (number p.instruction_version) (
        field "version_number" (number p.version_number) (
          field "status" (str (payment_status_value p.status)) (
            field "amount" (real p.amount) (
              field "currency" (str p.currency) (
                field "value_date" (str p.value_date) (
                  field "owning_lob" (str p.owning_lob) (
                    field "instruction_type" (str p.instruction_type) (
                      field "created_by" (dump_reference p.created_by) (
                        field "submitted_by" (dump_reference_opt p.submitted_by) (
                          field "approved_by" (dump_reference_opt p.approved_by) (
                            field "rejected_by" (dump_reference_opt p.rejected_by) (
                              field "cancelled_by" (dump_reference_opt p.cancelled_by) (
                                field "rejection_reason" (optional p.rejection_reason) (
                                  field "cancellation_reason" (optional p.cancellation_reason) (
                                    field "created_at" (str (json_datetime p.created_at)) (
                                      field "updated_at" (str (json_datetime p.updated_at)) (
                                        field "lifecycle_events"
                                          (array (dump_payment_events p.lifecycle_events))
                                          end)))))))))))))))))))

infixl 5 ◌>>◌
abbrev pub ◌>>◌ : Result (Unit {0}) → Result (Unit {0}) → Result (Unit {0})
(ok u) >> k = k
(err e) >> k = err e

module _ (doc : Fields) (action : String) where
  -- `_require`
  unfoldable pub require_entry : String → Result (Unit {0})
  require_entry f =
      if is_missing (get f doc)
      then err (
          Error.value_error
            ("payment fact missing required field '" <> f <> "' for action " <> action))
      else ok tt

  unfoldable pub require_entries : List String → Result (Unit {0})
  require_entries [] = ok tt
  require_entries (f ∷ fs) = require_entry f >> require_entries fs

  -- `_require_user_ref`
  unfoldable pub require_reference : String → Result (Unit {0})
  require_reference f =
      require_entry f
      >> (if lacks_user_id (get f doc)
          then err (
              Error.value_error ("payment fact " <> f <> ".user_id required for action " <> action))
          else ok tt)

-- `isinstance(events, list) and events`, and `len(events)` of it
abbrev pub items_length : Items → ℕ
items_length nil = 0
items_length (cons _ rest) = suc (items_length rest)

abbrev version_error : Error
version_error = Error.value_error "payment fact version_number must be a positive integer"

-- `isinstance(version_number, int)`, which a `bool` is too.
unfoldable pub check_count : Value → ℕ → Result (Unit {0})
check_count (number n) events =
    if ltb n 1
    then err version_error
    else if n == events
    then ok tt
    else err (Error.value_error "payment fact version_number must equal len(lifecycle_events)")
check_count (flag true) events =
    if 1 == events
    then ok tt
    else err (Error.value_error "payment fact version_number must equal len(lifecycle_events)")
check_count _ events = err version_error

unfoldable pub check_events : Value → Value → Result (Unit {0})
check_events (array (cons e rest)) version = check_count version (items_length (cons e rest))
check_events _ version =
    err (Error.value_error "payment fact lifecycle_events must be a non-empty list")

-- `action_fields.get(action, [])`, each required in turn.
unfoldable pub require_for_action : Fields → String → Result (Unit {0})
require_for_action doc action =
    if str_eq action "SUBMIT_PAYMENT"
    then require_reference doc action "submitted_by"
    else if str_eq action "APPROVE_PAYMENT"
    then require_reference doc action "approved_by" >> require_reference doc action "created_by"
    else if str_eq action "REJECT_PAYMENT"
    then require_reference doc action "rejected_by" >> require_entry doc action "rejection_reason"
    else if str_eq action "CANCEL_PAYMENT"
    then require_reference doc action "cancelled_by"
      >> require_entry doc action "cancellation_reason"
    else ok tt

abbrev decides : String → Bool
decides action =
    str_eq action "REJECT_PAYMENT"
    || str_eq action "CANCEL_PAYMENT"
    || str_eq action "APPROVE_PAYMENT"

-- The references of earlier actions, which must remain.
unfoldable pub require_kept : Fields → String → Result (Unit {0})
require_kept doc action =
    (if decides action || str_eq action "SUBMIT_PAYMENT"
      then require_reference doc action "created_by"
      else ok tt)
    >> (if decides action && truth (get "submitted_by" doc)
        then require_reference doc action "submitted_by"
        else ok tt)

abbrev pub required_entries : List String
required_entries =
    "payment_id" ∷ "instruction_id" ∷ "instruction_version" ∷ "version_number" ∷ "status" ∷ "amount"
    ∷ "currency" ∷ "value_date" ∷ "owning_lob" ∷ "instruction_type" ∷ "created_by"
    ∷ "lifecycle_events" ∷ "created_at" ∷ "updated_at" ∷ []

unfoldable pub validate_payment_document : Fields → String → Result (Unit {0})
validate_payment_document doc action =
    require_entries doc action required_entries
    >> require_reference doc action "created_by"
    >> check_events (get "lifecycle_events" doc) (get "version_number" doc)
    >> require_for_action doc action
    >> require_kept doc action

-- The fact of a payment whose document is valid.
abbrev fact_of :
    PaymentAction
    → PaymentSubject
    → Payment
    → Value
    → String
    → ℕ
    → Result (Unit {0})
    → Result PaymentFact
fact_of action subject p authorization fact_id now (err e) = err e
fact_of action subject p authorization fact_id now (ok u) = ok (record {
  fact_id = fact_id;
  payment_id = p.payment_id;
  version_number = p.version_number;
  action = payment_action_value action;
  timestamp = now;
  actor_user_id = subject.user_id;
  actor_given_name = subject.given_name;
  actor_family_name = subject.family_name;
  actor_title = some subject.title;
  actor_lob = subject.lob;
  authorization = authorization;
  payment_snapshot = p;
})

-- `PaymentFact.from_payment`, with a fresh id and the time of the call.
unfoldable pub from_payment :
    (ℕ → String)
    → PaymentAction
    → PaymentSubject
    → Payment
    → Value
    → String
    → ℕ
    → Result PaymentFact
from_payment json_datetime action subject payment authorization fact_id now =
    let p = sync_version_number payment in
    fact_of action subject p authorization fact_id now
      (validate_payment_document (dump_payment json_datetime p) (payment_action_value action))

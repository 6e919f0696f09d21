-- ===== src/Payment/Routes.antt =====
-- The requests on payments as HTTP sees them (payment-service/src/ps/routes.py).
pub mod Conflicts
use security_event_rag_demo.Base.{
  ℕ, String, ◌<>◌, Option, none, some, List, map, truthy, or_empty, ◌&&◌, if◌then◌else◌,
}
use security_event_rag_demo.Base.Exec.{Error, Exec, pure, raise, catch, ◌>>=◌}
use security_event_rag_demo.Base.Json.{Fields}
use security_event_rag_demo.Instruction.Service.Persist.{Caller}
use security_event_rag_demo.Payment.Enums.{payment_status_value}
use security_event_rag_demo.Instruction.Parties.{UserReference}
use security_event_rag_demo.Payment.Model.{
  PaymentSubject, CreatePaymentRequest, Payment, PaymentLifecycleEvent, Float,
}
use security_event_rag_demo.Payment.Platform.{PaymentPlatform, PaymentSettings, PaymentCall}
use security_event_rag_demo.Payment.Service.Operations.{create_payment}
use security_event_rag_demo.Payment.Service.Queries.{get_payment, list_payments}
use security_event_rag_demo.Payment.Requests.{PaymentRequest, perform_payment}
use security_event_rag_demo.Payment.Access.{has_bearer, token_of}

pub record PaymentResponse : Type 0 where
  pub payment_id : String
  pub instruction_id : String
  pub instruction_version : ℕ
  pub status : String
  pub amount : Float
  pub currency : String
  pub value_date : String
  pub owning_lob : String
  pub instruction_type : String
  pub created_by : UserReference
  pub submitted_by : Option UserReference
  pub approved_by : Option UserReference
  pub rejected_by : Option UserReference
  pub cancelled_by : Option UserReference
  pub rejection_reason : Option String
  pub cancellation_reason : Option String
  pub created_at : String
  pub updated_at : String
  pub lifecycle_events : List PaymentLifecycleEvent

-- `_bearer_token`
unfoldable pub bearer_token : Option String → Option String
unfolding has_bearer token_of
bearer_token a = if truthy a && has_bearer a then some (token_of a) else none

unfoldable pub caller_of : Option String → Option String → Caller
unfolding bearer_token
caller_of authorization x_session_id = record {
  bearer_token = bearer_token authorization;
  session_id = x_session_id;
}

-- The `except` clauses of a route; what they do not name goes on. A `KeyError` is a `LookupError`,
-- and its text has quotes; pydantic's `ValidationError` is a `ValueError`.
unfoldable pub lookup_status : Error → Error
lookup_status (Error.lookup_error m) = Error.http_exception 404 m
lookup_status (Error.key_error key) = Error.http_exception 404 ("'" <> key <> "'")
lookup_status (Error.permission_error m) = Error.http_exception 403 m
lookup_status e = e

unfoldable pub change_status : Error → Error
unfolding lookup_status
change_status (Error.value_error m) = Error.http_exception 409 m
change_status (Error.validation_error m) = Error.http_exception 409 m
change_status e = lookup_status e

unfoldable pub create_status : Error → Error
create_status (Error.instruction_not_found m) = Error.http_exception 404 m
create_status (Error.permission_error m) = Error.http_exception 403 m
create_status (Error.value_error m) = Error.http_exception 409 m
create_status (Error.validation_error m) = Error.http_exception 409 m
create_status (Error.runtime_error m) = Error.http_exception 502 m
create_status e = e

module _ (p : PaymentPlatform) where
  -- `_to_response`
  unfoldable pub payment_response : Payment → PaymentResponse
  payment_response d = record {
    payment_id = d.payment_id;
    instruction_id = d.instruction_id;
    instruction_version = d.instruction_version;
    status = payment_status_value d.status;
    amount = d.amount;
    currency = d.currency;
    value_date = d.value_date;
    owning_lob = d.owning_lob;
    instruction_type = d.instruction_type;
    created_by = d.created_by;
    submitted_by = d.submitted_by;
    approved_by = d.approved_by;
    rejected_by = d.rejected_by;
    cancelled_by = d.cancelled_by;
    rejection_reason = d.rejection_reason;
    cancellation_reason = d.cancellation_reason;
    created_at = p.isoformat d.created_at;
    updated_at = p.isoformat d.updated_at;
    lifecycle_events = d.lifecycle_events;
  }

  -- A route's answer: the payment as a response, or the error that its clauses make.
  abbrev pub answered : (Error → Error) → PaymentCall p Payment → PaymentCall p PaymentResponse
  unfolding payment_response
  answered status m = catch (m >>= λ d. pure (payment_response d)) (λ e. raise (status e))

  module _ (cfg : PaymentSettings) where
    unfoldable pub create_payment_route :
        CreatePaymentRequest
        → PaymentSubject
        → Option String
        → Option String
        → PaymentCall p PaymentResponse
    unfolding create_status caller_of
    create_payment_route r u authorization session =
        answered create_status (create_payment p cfg r u (caller_of authorization session))

    unfoldable pub get_payment_route : String → PaymentSubject → PaymentCall p PaymentResponse
    unfolding lookup_status
    get_payment_route id u = answered lookup_status (get_payment p cfg id u)

    unfoldable pub list_payments_route :
        PaymentSubject → Option String → Option String → ℕ → PaymentCall p (List PaymentResponse)
    unfolding payment_response
    list_payments_route u instruction_id status limit =
        list_payments p cfg u instruction_id status limit >>= λ ds. pure (map payment_response ds)

    -- `submit_payment`, `approve_payment` and `reject_payment`
    unfoldable pub change_payment_route :
        PaymentRequest
        → String
        → PaymentSubject
        → Option String
        → Option String
        → PaymentCall p PaymentResponse
    unfolding change_status caller_of
    change_payment_route q id u authorization session =
        answered change_status (perform_payment p cfg q id u (caller_of authorization session))

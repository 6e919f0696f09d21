-- ===== src/Payment/SecurityEvent.antt =====
-- Security events of payments (payment-service/src/ps/models/security_event.py). The context and the
-- source of an event are the instruction service's, word for word; a snapshot is the payment itself.
use security_event_rag_demo.Base.{ℕ, String, ◌<>◌, Option, some, List, [], ◌∷◌, or_default}
use security_event_rag_demo.Base.Json.{Fields, end, str, get, put, fields_of, text_of}
use security_event_rag_demo.Instruction.Enums.{SecurityEventSeverity, SecurityEventOutcome}
use security_event_rag_demo.Instruction.SecurityEvent.{SecurityEventContext, SecurityEventSource}
use security_event_rag_demo.Payment.Enums.{
  PaymentAction, payment_action_value, payment_status_value,
}
use security_event_rag_demo.Payment.Model.{PaymentSubject, Payment, Float}

pub record PaymentEventActor : Type 0 where
  pub user_id : String
  pub given_name : Option String
  pub family_name : Option String
  pub title : String
  pub roles : List String
  pub groups : List String
  pub covering_lobs : List String
  pub lob : Option String
  pub supervisor_id : Option String

pub record PaymentEventResource : Type 0 where
  pub type : String
  pub id : String
  pub instruction_id : String
  pub owning_lob : String
  pub status : String
  pub amount : Float
  pub currency : String

pub record PaymentSecurityEvent : Type 0 where
  pub event_id : String
  pub timestamp : ℕ
  pub severity : SecurityEventSeverity
  pub message : String
  pub event : SecurityEventContext
  pub actor : PaymentEventActor
  pub resource : PaymentEventResource
  pub source : SecurityEventSource
  pub details : Fields
  pub payment_snapshot : Option Payment

-- `_actor`
unfoldable pub payment_event_actor : PaymentSubject → PaymentEventActor
payment_event_actor s = record {
  user_id = s.user_id;
  given_name = s.given_name;
  family_name = s.family_name;
  title = s.title;
  roles = s.roles;
  groups = s.groups;
  covering_lobs = s.covering_lobs;
  lob = s.lob;
  supervisor_id = s.supervisor_id;
}

-- `_resource`
unfoldable pub payment_event_resource : Payment → PaymentEventResource
payment_event_resource p = record {
  type = "cash_payment";
  id = p.payment_id;
  instruction_id = p.instruction_id;
  owning_lob = p.owning_lob;
  status = payment_status_value p.status;
  amount = p.amount;
  currency = p.currency;
}

-- `_event_types_for_action`
unfoldable pub payment_event_types : PaymentAction → List String
payment_event_types PaymentAction.create_payment = "creation" ∷ []
payment_event_types _ = "change" ∷ []

module _ (src : SecurityEventSource) where
  -- `PaymentSecurityEvent.authorized_action`, at the time of the call.
  unfoldable pub payment_authorized :
      PaymentAction → PaymentSubject → Payment → String → Option Fields → ℕ → PaymentSecurityEvent
  unfolding payment_event_actor payment_event_resource payment_event_types get
  payment_authorized action subject p event_id details now = record {
    event_id = event_id;
    timestamp = now;
    severity = SecurityEventSeverity.info;
    message =
        "Authorized "
        <> payment_action_value action
        <> " on payment "
        <> p.payment_id
        <> " by "
        <> subject.user_id;
    event = record {
      kind = "event";
      category = "iam" ∷ [];
      type = payment_event_types action;
      action = payment_action_value action;
      outcome = SecurityEventOutcome.success;
      reason = text_of (get "summary" (fields_of (get "authorization" (or_default details end))));
    };
    actor = payment_event_actor subject;
    resource = payment_event_resource p;
    source = src;
    details = or_default details end;
    payment_snapshot = some p;
  }

  -- `PaymentSecurityEvent.policy_denial`, which every caller leaves at its default severity.
  unfoldable pub payment_denial :
      PaymentAction
      → PaymentSubject
      → Payment
      → String
      → String
      → Option Fields
      → ℕ
      → PaymentSecurityEvent
  unfolding payment_event_actor payment_event_resource put
  payment_denial action subject p event_id reason details now = record {
    event_id = event_id;
    timestamp = now;
    severity = SecurityEventSeverity.alert;
    message =
        "Policy denied "
        <> payment_action_value action
        <> " on payment "
        <> p.payment_id
        <> " by "
        <> subject.user_id;
    event = record {
      kind = "event";
      category = "iam" ∷ [];
      type = "access" ∷ "denied" ∷ [];
      action = payment_action_value action;
      outcome = SecurityEventOutcome.failure;
      reason = some reason;
    };
    actor = payment_event_actor subject;
    resource = payment_event_resource p;
    source = src;
    details = put "policy_engine" (str "opa") (or_default details end);
    payment_snapshot = some p;
  }

-- ===== src/Instruction/SecurityEvent.antt =====
-- Security events (instruction-service/src/inst/models/security_event.py). A snapshot is the
-- instruction itself: `model_dump` writes its fields out one by one.
pub mod Reason
use security_event_rag_demo.Base.{
  ℕ, String, ◌<>◌, not, Option, none, some, List, [], ◌∷◌, truthy, or_empty, or_default,
  if◌then◌else◌,
}
use security_event_rag_demo.Base.Json.{Fields, field, end, str, get, put, merge, fields_of, text_of}
use security_event_rag_demo.Instruction.Enums.{
  LifecycleAction, SecurityEventSeverity, SecurityEventOutcome, action_value, status_value,
  type_value,
}
use security_event_rag_demo.Instruction.Subject.{Subject}
use security_event_rag_demo.Instruction.Model.{CashSettlementInstruction}

pub record SecurityEventActor : Type 0 where
  pub user_id : String
  pub given_name : Option String
  pub family_name : Option String
  pub title : String
  pub roles : List String
  pub groups : List String
  pub lob : Option String
  pub supervisor_id : Option String
  pub delegated_by : Option String

pub record SecurityEventResource : Type 0 where
  pub type : String
  pub id : String
  pub owning_lob : String
  pub status : String
  pub instruction_type : Option String
  pub version_number : Option ℕ

pub record SecurityEventContext : Type 0 where
  pub kind : String
  pub category : List String
  pub type : List String
  pub action : String
  pub outcome : SecurityEventOutcome
  pub reason : Option String

pub record SecurityEventSource : Type 0 where
  pub application : String
  pub service : String
  pub version : String

pub record SecurityEvent : Type 0 where
  pub event_id : String
  pub timestamp : ℕ
  pub severity : SecurityEventSeverity
  pub message : String
  pub event : SecurityEventContext
  pub actor : SecurityEventActor
  pub resource : SecurityEventResource
  pub source : SecurityEventSource
  pub details : Fields
  pub instruction_snapshot : Option CashSettlementInstruction

-- `_actor_from_subject`
unfoldable pub actor_from_subject : Subject → SecurityEventActor
actor_from_subject s = record {
  user_id = s.user_id;
  given_name = s.given_name;
  family_name = s.family_name;
  title = s.title;
  roles = s.roles;
  groups = s.groups;
  lob = s.lob;
  supervisor_id = s.supervisor_id;
  delegated_by = s.delegated_by;
}

-- `_resource_from_instruction`
unfoldable pub resource_from_instruction :
    CashSettlementInstruction → Option ℕ → SecurityEventResource
resource_from_instruction i version_number = record {
  type = "cash_settlement_instruction";
  id = i.instruction_id;
  owning_lob = i.owning_lob;
  status = status_value i.status;
  instruction_type = some (type_value i.instruction_type);
  version_number = version_number;
}

-- `_event_types_for_action`
unfoldable pub event_types_for_action : LifecycleAction → List String
event_types_for_action LifecycleAction.create = "creation" ∷ []
event_types_for_action LifecycleAction.delete = "deletion" ∷ []
event_types_for_action LifecycleAction.view = "access" ∷ []
event_types_for_action _ = "change" ∷ []

-- `_delegation_details`
unfoldable pub delegation_details : Subject → Fields
delegation_details s =
    if not (truthy s.delegated_by)
    then end
    else field "delegated_by" (str (or_empty s.delegated_by))
        (field "delegation" (str "on_behalf_of") end)

-- The end of a message: `f" via {delegated_by}" if delegated_by else ""`.
via : Subject → String
via s = if truthy s.delegated_by then " via " <> or_empty s.delegated_by else ""

-- The part of `settings` and the package version that events carry.
unfoldable pub source : String → String → SecurityEventSource
source application version = record {
  application = application;
  service = application;
  version = version;
}

module _ (src : SecurityEventSource) where
  -- `SecurityEvent.authorized_action`, at the time of the call.
  unfoldable pub authorized_action :
      LifecycleAction
      → Subject
      → CashSettlementInstruction
      → String
      → Option ℕ
      → Option Fields
      → ℕ
      → SecurityEvent
  unfolding via actor_from_subject resource_from_instruction
  authorized_action action subject i event_id version_number details now =
      let event_details : Fields = merge (delegation_details subject) (or_default details end) in
      record {
        event_id = event_id;
        timestamp = now;
        severity = SecurityEventSeverity.info;
        message =
            "Authorized "
            <> action_value action
            <> " on instruction "
            <> i.instruction_id
            <> " by "
            <> subject.user_id
            <> via subject;
        event = record {
          kind = "event";
          category = "iam" ∷ [];
          type = event_types_for_action action;
          action = action_value action;
          outcome = SecurityEventOutcome.success;
          reason = text_of (get "summary" (fields_of (get "authorization" event_details)));
        };
        actor = actor_from_subject subject;
        resource = resource_from_instruction i version_number;
        source = src;
        details = event_details;
        instruction_snapshot = some i;
      }

  -- `SecurityEvent.policy_denial`, with the default severity.
  unfoldable pub policy_denial :
      LifecycleAction
      → Subject
      → CashSettlementInstruction
      → String
      → String
      → Option Fields
      → ℕ
      → SecurityEvent
  unfolding via actor_from_subject resource_from_instruction
  policy_denial action subject i event_id reason details now = record {
    event_id = event_id;
    timestamp = now;
    severity = SecurityEventSeverity.alert;
    message =
        "Policy denied "
        <> action_value action
        <> " on instruction "
        <> i.instruction_id
        <> " by "
        <> subject.user_id
        <> via subject;
    event = record {
      kind = "event";
      category = "iam" ∷ [];
      type = "access" ∷ "denied" ∷ [];
      action = action_value action;
      outcome = SecurityEventOutcome.failure;
      reason = some reason;
    };
    actor = actor_from_subject subject;
    resource = resource_from_instruction i none;
    source = src;
    details =
        put "policy_engine" (str "opa")
          (merge (delegation_details subject) (or_default details end));
    instruction_snapshot = some i;
  }

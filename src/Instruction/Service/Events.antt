-- ===== src/Instruction/Service/Events.antt =====
-- `SecurityEventRepository` (instruction-service/src/inst/security_event_repository.py) and the
-- Kafka publisher (kafka_publisher.py).
use security_event_rag_demo.Base.{
  ℕ, String, ◌<>◌, Bool, Option, none, some, [], ◌∷◌, ◌++◌, is_nonempty, if◌then◌else◌,
}
use security_event_rag_demo.Base.Exec.{Error, Result, ok, err, Exec, raise, catch, ◌>>=◌, ◌>>◌}
use security_event_rag_demo.Base.Json.{Fields}
use security_event_rag_demo.Clients.Sequence.{next_security_event_id}
use security_event_rag_demo.Instruction.Enums.{LifecycleAction}
use security_event_rag_demo.Instruction.Subject.{Subject}
use security_event_rag_demo.Instruction.Model.{CashSettlementInstruction}
use security_event_rag_demo.Instruction.SecurityEvent.{
  SecurityEvent, SecurityEventSource, authorized_action, policy_denial, source,
}
use security_event_rag_demo.Instruction.Fact.{InstructionFact}
use security_event_rag_demo.Instruction.Platform.{Platform, Settings, State, Action, clock}

-- `except SequenceClientError`, of which `SequenceServiceUnavailable` is a subclass.
abbrev pub wrap_sequence_error : String → Error → Error
wrap_sequence_error prefix (Error.sequence_client_error m) = Error.runtime_error (prefix <> m)
wrap_sequence_error prefix (Error.sequence_service_unavailable m) =
    Error.runtime_error (prefix <> m)
wrap_sequence_error prefix e = e

-- `key or None`
abbrev pub message_key : String → Option String
message_key s = if is_nonempty s then some s else none

module _ (p : Platform) (cfg : Settings) where
  -- A call of a client, over the world outside.
  abbrev pub remote : {A : Type 0} → Exec p.Outside A → Action p A
  remote m s = ((m s.outside).0, record s { outside = (m s.outside).1 })

  unfoldable pub allocate_event_id : String → Action p String
  allocate_event_id resource_id =
      catch
        (remote (next_security_event_id p.post p.python_str cfg.sequence_service_url resource_id))
        (λ e. raise (wrap_sequence_error "security event sequence allocation failed: " e))

  abbrev stored : State p → Result (String × p.events.Coll) → Result (Unit {0}) × State p
  stored s (ok (_, c)) = (ok tt, record s { events = c })
  stored s (err e) = (err e, s)

  unfoldable pub insert_document : SecurityEvent → Action p (Unit {0})
  insert_document e s = stored s (p.events.insert_one e s.events)

  abbrev pub kafka_send : String → String → State p → Bool × p.Outside
  kafka_send topic key s = p.send topic (message_key key) s.outside

  -- `publish`: nothing before the producer is started, and an exception is only logged.
  unfoldable pub publish : SecurityEvent → Action p (Unit {0})
  publish e s =
      if s.producer_started
      then (let sent = kafka_send cfg.kafka_security_events_topic e.event_id s in
          (
            ok tt,
            record s {
              outside = sent.1;
              published = if sent.0 then s.published ++ (e ∷ []) else s.published;
            },
          ))
      else (ok tt, s)

  -- `publish_instruction_fact`
  unfoldable pub publish_instruction_fact : InstructionFact → Action p (Unit {0})
  publish_instruction_fact f s =
      if s.producer_started
      then (let sent = kafka_send cfg.kafka_instruction_topic f.actor_user_id s in
          (
            ok tt,
            record s { outside = sent.1; facts = if sent.0 then s.facts ++ (f ∷ []) else s.facts },
          ))
      else (ok tt, s)

  abbrev pub event_source : SecurityEventSource
  event_source = source cfg.application_name cfg.version

  unfoldable pub record_authorized_action :
      LifecycleAction
      → Subject
      → CashSettlementInstruction
      → Option ℕ
      → Option Fields
      → Action p (Unit {0})
  unfolding allocate_event_id insert_document publish
  record_authorized_action action subject instruction version_number details = do
    event_id ← allocate_event_id instruction.instruction_id
    now ← clock p
    let event =
        authorized_action event_source action subject instruction event_id version_number details
          now
    insert_document event
    publish event

  unfoldable pub record_policy_denial :
      LifecycleAction
      → Subject
      → CashSettlementInstruction
      → String
      → Option Fields
      → Action p (Unit {0})
  unfolding allocate_event_id insert_document publish
  record_policy_denial action subject instruction reason details = do
    event_id ← allocate_event_id instruction.instruction_id
    now ← clock p
    let event = policy_denial event_source action subject instruction event_id reason details now
    insert_document event
    publish event

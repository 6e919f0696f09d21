-- ===== src/Payment/Events.antt =====
-- `SecurityEventRepository` of the payment service (payment-service/src/ps/security_event_repository.py)
-- and its Kafka publisher (kafka_publisher.py).
use security_event_rag_demo.Base.{String, Bool, Option, [], ◌∷◌, ◌++◌, if◌then◌else◌}
use security_event_rag_demo.Base.Exec.{Result, ok, err, raise, catch, ◌>>=◌, ◌>>◌}
use security_event_rag_demo.Base.Json.{Fields}
use security_event_rag_demo.Clients.Sequence.{next_security_event_id}
use security_event_rag_demo.Instruction.SecurityEvent.{SecurityEventSource, source}
use security_event_rag_demo.Instruction.Service.Events.{wrap_sequence_error, message_key}
use security_event_rag_demo.Payment.Enums.{PaymentAction}
use security_event_rag_demo.Payment.Model.{PaymentSubject, Payment}
use security_event_rag_demo.Payment.SecurityEvent.{
  PaymentSecurityEvent, payment_authorized, payment_denial,
}
use security_event_rag_demo.Payment.Platform.{
  PaymentPlatform, PaymentSettings, Session, PaymentState, PaymentCall, within_session, beyond,
  current_time,
}

module _ (p : PaymentPlatform) (cfg : PaymentSettings) where
  unfoldable pub allocate_payment_event_id : String → PaymentCall p String
  allocate_payment_event_id resource_id =
      catch
        (within_session p (
          beyond p
            (next_security_event_id p.post p.python_str cfg.sequence_service_url resource_id)))
        (λ e. raise (wrap_sequence_error "security event sequence allocation failed: " e))

  abbrev stored_event :
      PaymentState p → Result (String × p.events.Coll) → Result (Unit {0}) × PaymentState p
  stored_event s (ok (_, c)) = (ok tt, record s { events = c })
  stored_event s (err e) = (err e, s)

  unfoldable pub insert_payment_event : PaymentSecurityEvent → PaymentCall p (Unit {0})
  insert_payment_event e s = stored_event s (p.events.insert_one e s.events)

  abbrev send_to : String → String → PaymentState p → Bool × p.Outside
  send_to topic key s = p.send topic (message_key key) s.session.outside

  abbrev with_outside : PaymentState p → p.Outside → Session p.Outside
  with_outside s o = record (s.session) { outside = o }

  -- `publish_security_event`: nothing before the producer is started; an exception is only logged.
  unfoldable pub publish_payment_event : PaymentSecurityEvent → PaymentCall p (Unit {0})
  publish_payment_event e s =
      if s.producer_started
      then (let sent = send_to cfg.kafka_security_events_topic e.event_id s in
          (
            ok tt,
            record s {
              session = with_outside s sent.1;
              published = if sent.0 then s.published ++ (e ∷ []) else s.published;
            },
          ))
      else (ok tt, s)

  -- `publish_payment`, of the flat snapshot.
  unfoldable pub publish_payment : Payment → PaymentCall p (Unit {0})
  publish_payment d s =
      if s.producer_started
      then (let sent = send_to cfg.kafka_payments_topic d.payment_id s in
          (
            ok tt,
            record s {
              session = with_outside s sent.1;
              facts = if sent.0 then s.facts ++ (d ∷ []) else s.facts;
            },
          ))
      else (ok tt, s)

  abbrev pub payment_event_source : SecurityEventSource
  payment_event_source = source cfg.application_name cfg.version

  -- `insert`; what `publish` logs, it does not raise.
  unfoldable pub save_payment_event : PaymentSecurityEvent → PaymentCall p (Unit {0})
  save_payment_event e = do insert_payment_event e; publish_payment_event e

  unfoldable pub record_payment_authorized :
      PaymentAction → PaymentSubject → Payment → Option Fields → PaymentCall p (Unit {0})
  record_payment_authorized action subject d details = do
    event_id ← allocate_payment_event_id d.payment_id
    now ← current_time p
    save_payment_event
        (payment_authorized payment_event_source action subject d event_id details now)

  unfoldable pub record_payment_denial :
      PaymentAction → PaymentSubject → Payment → String → Option Fields → PaymentCall p (Unit {0})
  record_payment_denial action subject d reason details = do
    event_id ← allocate_payment_event_id d.payment_id
    now ← current_time p
    save_payment_event
        (payment_denial payment_event_source action subject d event_id reason details now)

-- ===== src/Payment/Platform.antt =====
-- What the payment service calls outside this repository: MongoDB, Kafka, HTTP, the clock. The
-- collections are those of the instruction service's platform, and payments are replaced whole.
use security_event_rag_demo.Base.{ℕ, String, ◌≡◌, Bool, Option, List, update_first, or_default}
use security_event_rag_demo.Base.Exec.{Exec, Result, ok}
use security_event_rag_demo.Base.Json.{Value, Fields}
use security_event_rag_demo.Clients.Http.{HttpResponse, Transport}
use security_event_rag_demo.Instruction.Platform.{Stored, Collection, set_fields}
use security_event_rag_demo.Payment.Model.{Payment}
use security_event_rag_demo.Payment.SecurityEvent.{PaymentSecurityEvent}

-- `replace_one`, of a collection. It may fail.
abbrev pub ReplaceOne : {D : Type 0} → Collection D → Type 0
ReplaceOne {D} c = (Stored D → Bool) → D → c.Coll → Result (ℕ × c.Coll)

-- A successful replacement changes the first match alone, and keeps its `_id`.
pub record ReplaceLaws {D : Type 0} (c : Collection D) (replace_one : ReplaceOne c) : Type 0 where
  pub replace_one_first :
      (q : Stored D → Bool) (d : D) (s s' : c.Coll) (n : ℕ)
      → replace_one q d s ≡ ok (n, s')
      → c.documents s' ≡ update_first q (set_fields (λ _. d)) (c.documents s)

-- A `datetime` that was read from a text: what its clock shows, and the UTC time if it has an offset.
pub record Datetime : Type 0 where
  pub clock_time : ℕ
  pub utc : Option ℕ

-- `dt.replace(tzinfo=None)`, and `dt` in UTC where a naive one is taken as UTC.
abbrev pub as_naive : Datetime → ℕ
as_naive d = d.clock_time

abbrev pub as_utc : Datetime → ℕ
as_utc d = or_default d.utc d.clock_time

pub record PaymentPlatform : Type 1 where
  pub payments : Collection Payment
  pub replace_one : ReplaceOne payments
  pub events : Collection PaymentSecurityEvent
  pub isoformat : ℕ → String
  pub fromisoformat : String → Option Datetime
  -- How pydantic writes a `datetime` as JSON, and the ISO form of its UTC date.
  pub json_datetime : ℕ → String
  pub utc_date : ℕ → String
  -- `str(value)` of a JSON value that is no text.
  pub python_str : Value → String
  pub Outside : Type 0
  -- `datetime.now(timezone.utc)`; `uuid4()`
  pub now : Outside → ℕ × Outside
  pub uuid4 : Outside → String × Outside
  -- HTTP calls; `none` is an `httpx.HTTPError`.
  pub get : String → Fields → Outside → Option HttpResponse × Outside
  pub post : Transport Outside
  -- `producer.send_and_wait(topic, key=…)`: `false` is an exception.
  pub send : String → Option String → Outside → Bool × Outside

-- The part of `settings` that the service reads (config.py).
pub record PaymentSettings : Type 0 where
  pub authorization_service_url : String
  pub ilm_url : String
  pub sequence_service_url : String
  pub application_name : String
  pub version : String
  pub kafka_payments_topic : String
  pub kafka_security_events_topic : String
  pub zitadel_service_pat : Option String
  pub zitadel_url : Option String
  pub zitadel_host_header : Fields
  pub service_user_id : String
  pub service_user_password : String

-- The service's own session, with the world outside.
pub record Session (O : Type 0) : Type 0 where
  pub token : Option String
  pub session_id : Option String
  pub outside : O

-- The service: its collections, its session, its Kafka producer, and what it has sent.
pub record PaymentState (p : PaymentPlatform) : Type 0 where
  pub payments : p.payments.Coll
  pub events : p.events.Coll
  pub session : Session p.Outside
  pub producer_started : Bool
  pub published : List PaymentSecurityEvent
  pub facts : List Payment

module _ (p : PaymentPlatform) where
  abbrev pub PaymentCall : Type 0 → Type 0
  PaymentCall = Exec (PaymentState p)

  -- An action of the session, as one of the service.
  abbrev pub within_session : {A : Type 0} → Exec (Session p.Outside) A → PaymentCall A
  within_session m s = ((m s.session).0, record s { session = (m s.session).1 })

  -- A call of something outside.
  abbrev pub beyond : {A : Type 0} → Exec p.Outside A → Exec (Session p.Outside) A
  beyond m t = ((m t.outside).0, record t { outside = (m t.outside).1 })

  -- A call that always answers.
  abbrev pub answering : {A : Type 0} → (p.Outside → A × p.Outside) → Exec p.Outside A
  answering f o = (ok (f o).0, (f o).1)

  abbrev pub current_time : PaymentCall ℕ
  current_time = within_session (beyond (answering p.now))

  abbrev pub fresh_id : PaymentCall String
  fresh_id = within_session (beyond (answering p.uuid4))

-- ===== src/Instruction/Platform.antt =====
-- What the instruction service calls outside this repository: MongoDB, Kafka, HTTP, the clock.
-- Each is an operation over an unknown state; what is documented of MongoDB is `CollectionLaws`.
use security_event_rag_demo.Base.{
  ℕ, String, ◌≡◌, Bool, true, false, Option, List, [], ◌∷◌, ◌++◌, first, update_first, any,
  if◌then◌else◌,
}
use security_event_rag_demo.Base.Exec.{Error, Exec, Result, ok, err}
use security_event_rag_demo.Base.Json.{Value, Fields}
use security_event_rag_demo.Clients.Http.{Transport}
use security_event_rag_demo.Instruction.Storage.{Document, Iso}
use security_event_rag_demo.Instruction.SecurityEvent.{SecurityEvent}
use security_event_rag_demo.Instruction.Fact.{InstructionFact}

-- A document with its `_id`.
abbrev pub Stored : Type 0 → Type 0
Stored D = String × D

-- A MongoDB collection. A write may fail (a duplicate key, an operation failure).
pub record Collection (D : Type 0) : Type 1 where
  pub Coll : Type 0
  pub documents : Coll → List (Stored D)
  pub find_one : (Stored D → Bool) → Coll → Option (Stored D)
  pub find : (D → Bool) → (D → D → Bool) → Option ℕ → Coll → List D
  pub insert_one : D → Coll → Result (String × Coll)
  pub update_one : (Stored D → Bool) → (D → D) → Coll → Result (ℕ × Coll)

abbrev pub set_fields : {D : Type 0} → (D → D) → Stored D → Stored D
set_fields f (k, d) = (k, f d)

pub record CollectionLaws {D : Type 0} (c : Collection D) : Type 0 where
  -- `find_one` returns the first match in the collection's order.
  pub find_one_first : (q : Stored D → Bool) (s : c.Coll) → c.find_one q s ≡ first q (c.documents s)
  -- A successful insert adds the document under a new `_id`, and nothing else changes.
  pub insert_one_appends :
      (d : D) (s s' : c.Coll) (k : String)
      → c.insert_one d s ≡ ok (k, s')
      → c.documents s' ≡ c.documents s ++ ((k, d) ∷ [])
  -- A successful update changes the first match alone, and counts it.
  pub update_one_first :
      (q : Stored D → Bool) (f : D → D) (s s' : c.Coll) (n : ℕ)
      → c.update_one q f s ≡ ok (n, s')
      → (c.documents s' ≡ update_first q (set_fields f) (c.documents s))
        × (n ≡ (if any q (c.documents s) then 1 else 0))

-- How a commit ends: it is done; it raises and the transaction is rolled back; or it raises and its
-- result is not known to the caller, who cannot tell whether the transaction was applied.
pub data CommitResult : Type 0 where
  committed : CommitResult
  rolled_back : Error → CommitResult
  unknown_result : Error → Bool → CommitResult

pub record Platform : Type 1 where
  -- `str(value)` of a JSON value that is no text.
  pub python_str : Value → String
  pub instructions : Collection Document
  pub events : Collection SecurityEvent
  pub iso : Iso
  -- How pydantic writes a `datetime` as JSON, and the ISO form of its UTC date.
  pub json_datetime : ℕ → String
  pub utc_date : ℕ → String
  pub Outside : Type 0
  -- `datetime.utcnow()` or `datetime.now(timezone.utc)`; `uuid4()`
  pub now : Outside → ℕ × Outside
  pub uuid4 : Outside → String × Outside
  -- The commit at the end of a transaction.
  pub commit : Outside → CommitResult × Outside
  -- HTTP calls.
  pub post : Transport Outside
  -- `producer.send_and_wait(topic, key=…)`: `false` is an exception.
  pub send : String → Option String → Outside → Bool × Outside

-- The part of `settings` that the service reads.
pub record Settings : Type 0 where
  pub authorization_service_url : String
  pub sequence_service_url : String
  pub application_name : String
  pub version : String
  pub security_event_excluded_user_ids : String
  pub kafka_security_events_topic : String
  pub kafka_instruction_topic : String
  pub zitadel_service_pat : Option String
  pub zitadel_url : Option String
  pub zitadel_host_header : Fields
  pub service_user_id : String
  pub service_user_password : String

-- The service: its collections, its own session, its Kafka producer, and what it has sent.
pub record State (p : Platform) : Type 0 where
  pub instructions : p.instructions.Coll
  pub events : p.events.Coll
  pub session_token : Option String
  pub session_id : Option String
  pub producer_started : Bool
  pub published : List SecurityEvent
  pub facts : List InstructionFact
  pub outside : p.Outside

module _ (p : Platform) where
  abbrev pub Action : Type 0 → Type 0
  Action = Exec (State p)

  -- A call of something outside, which leaves the service's own state alone.
  abbrev pub external : {A : Type 0} → (p.Outside → A × p.Outside) → Action A
  external f s = (ok (f s.outside).0, record s { outside = (f s.outside).1 })

  abbrev pub clock : Action ℕ
  clock = external p.now

  -- `mongo_transaction`: the collections are as before if the block raises or the commit is rolled
  -- back. A commit whose result is unknown raises, applied or not.
  abbrev pub finish :
      {A : Type 0} → State p → A → CommitResult × p.Outside → State p → Result A × State p
  finish s a (CommitResult.committed, o) s' = (ok a, record s' { outside = o })
  finish s a (CommitResult.rolled_back e, o) s' =
      (err e, record s' { instructions = s.instructions; events = s.events; outside = o })
  finish s a (CommitResult.unknown_result e true, o) s' = (err e, record s' { outside = o })
  finish s a (CommitResult.unknown_result e false, o) s' =
      (err e, record s' { instructions = s.instructions; events = s.events; outside = o })

  abbrev pub close : {A : Type 0} → State p → Result A × State p → Result A × State p
  close s (ok a, s') = finish s a (p.commit s'.outside) s'
  close s (err e, s') = (err e, record s' { instructions = s.instructions; events = s.events })

  abbrev pub mongo_transaction : {A : Type 0} → Action A → Action A
  mongo_transaction m s = close s (m s)

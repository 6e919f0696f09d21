-- ===== src/Sequence/Service.antt =====
-- The counters and the requests of the sequence service (sequence-service/src/seq: repository.py,
-- service.py, models.py). MongoDB and the Unicode tables behind `upper` and `isalnum` are parameters.
use Prim.Native.Char.{Char, code}
use Prim.Native.String.{◌∷◌}
use security_event_rag_demo.Base.{
  ℕ, suc, String, ◌≡◌, ◌≤◌, ◌==◌, Bool, true, not, ◌&&◌, ◌||◌, Option, none, some, is_nonempty,
  if◌then◌else◌,
}
use security_event_rag_demo.Base.Text.{strip}
use security_event_rag_demo.Base.Exec.{Error, Result, ok, err, Exec, pure, ◌>>=◌}
use security_event_rag_demo.Sequence.Formatting.{
  EntityType, BusinessDate, build_counter_key, build_sequence_id, build_security_event_counter_key,
  build_security_event_sequence_id,
}

-- `str.upper` and `str.isalnum`, which follow the Unicode tables.
pub record Unicode : Type 0 where
  pub upper : String → String
  pub is_alnum : Char → Bool

pub record NextSequenceRequest : Type 0 where
  pub business_date : BusinessDate
  pub owning_lob : String
  pub entity_type : EntityType

pub record NextSequenceResponse : Type 0 where
  pub sequence_id : String
  pub business_date : BusinessDate
  pub owning_lob : String
  pub entity_type : EntityType
  pub sequence_number : ℕ
  pub counter_key : String

pub record NextSecurityEventSequenceRequest : Type 0 where
  pub resource_id : String

pub record NextSecurityEventSequenceResponse : Type 0 where
  pub sequence_id : String
  pub resource_id : String
  pub sequence_number : ℕ
  pub counter_key : String

-- `all(ch.isalnum() or ch == "_" for ch in s)`
unfoldable pub all_word : Unicode → String → Bool
all_word unicode String.[] = true
all_word unicode (c ∷ s) = (unicode.is_alnum c || code c == b'_') && all_word unicode s

-- `validate_owning_lob`
unfoldable pub validate_owning_lob : Unicode → String → Result String
validate_owning_lob unicode value =
    let normalized = unicode.upper (strip value) in
    if not (is_nonempty normalized)
    then err (Error.validation_error "owning_lob must not be blank")
    else if not (all_word unicode normalized)
    then err (Error.validation_error "owning_lob may only contain letters, digits, and underscores")
    else ok normalized

-- `validate_resource_id`
unfoldable pub validate_resource_id : String → Result String
validate_resource_id value =
    if is_nonempty (strip value)
    then ok (strip value)
    else err (Error.validation_error "resource_id must not be blank")

-- The collection of counters. `increment key c` is `find_one_and_update` with `$inc` and `upsert`: its
-- answer is the `seq` after it, or nothing if no document comes back, or a `PyMongoError`.
pub record Counters : Type 1 where
  pub Coll : Type 0
  pub increment : String → Coll → Result (Option ℕ) × Coll

-- A counter that is not there stands at 0. An increment that answers is atomic; one that fails may
-- have been applied, and no counter ever goes down.
pub record CounterLaws (k : Counters) : Type 0 where
  pub seq_of : String → k.Coll → ℕ
  pub answers_next :
      (key : String) (c : k.Coll) (n : ℕ)
      → (k.increment key c).0 ≡ ok (some n)
      → (n ≡ suc (seq_of key c)) × (seq_of key (k.increment key c).1 ≡ n)
  pub never_down :
      (key other : String) (c : k.Coll) → seq_of other c ≤ seq_of other (k.increment key c).1

module _ (k : Counters) where
  abbrev pub counter_answer : Result (Option ℕ) → Result ℕ
  counter_answer (err e) = err (Error.runtime_error "sequence allocation failed")
  counter_answer (ok none) = err (Error.runtime_error "sequence allocation returned no counter")
  counter_answer (ok (some n)) = ok n

  -- `SequenceRepository.allocate_next`
  unfoldable pub allocate_next : String → Exec k.Coll ℕ
  allocate_next key c = (counter_answer (k.increment key c).0, (k.increment key c).1)

  -- `SequenceService.next_sequence`, of a request whose `owning_lob` was validated.
  unfoldable pub next_sequence : NextSequenceRequest → Exec k.Coll NextSequenceResponse
  next_sequence r = do
    let counter_key = build_counter_key r.business_date r.owning_lob r.entity_type
    n ← allocate_next counter_key
    pure (record {
      sequence_id = build_sequence_id counter_key n;
      business_date = r.business_date;
      owning_lob = r.owning_lob;
      entity_type = r.entity_type;
      sequence_number = n;
      counter_key = counter_key;
    })

  unfoldable pub next_security_event_sequence :
      NextSecurityEventSequenceRequest → Exec k.Coll NextSecurityEventSequenceResponse
  next_security_event_sequence r = do
    let counter_key = build_security_event_counter_key r.resource_id
    n ← allocate_next counter_key
    pure (record {
      sequence_id = build_security_event_sequence_id r.resource_id n;
      resource_id = r.resource_id;
      sequence_number = n;
      counter_key = counter_key;
    })

-- ===== src/Sequence/Formatting.antt =====
-- The ids (sequence-service/src/seq/formatting.py). A year is one of four digits, which `%Y` writes out.
use security_event_rag_demo.Base.{ℕ, String, ◌<>◌, ltb, if◌then◌else◌}
use security_event_rag_demo.Base.Decimal.{decimal}

pub data EntityType : Type 0 where
  instruction payment : EntityType

-- A `date`.
pub record BusinessDate : Type 0 where
  pub year : ℕ
  pub month : ℕ
  pub day : ℕ

-- `%m` and `%d`
abbrev two_digits : ℕ → String
two_digits n = if ltb n 10 then "0" <> decimal n else decimal n

unfoldable pub compact_business_date : BusinessDate → String
compact_business_date d = decimal d.year <> two_digits d.month <> two_digits d.day

abbrev pub entity_type_code : EntityType → String
entity_type_code EntityType.instruction = "I"
entity_type_code EntityType.payment = "P"

unfoldable pub build_counter_key : BusinessDate → String → EntityType → String
build_counter_key d owning_lob t =
    compact_business_date d <> "-" <> owning_lob <> "-" <> entity_type_code t

unfoldable pub build_sequence_id : String → ℕ → String
build_sequence_id counter_key n = counter_key <> "-" <> decimal n

unfoldable pub build_security_event_counter_key : String → String
build_security_event_counter_key resource_id = resource_id <> "-SE"

unfoldable pub build_security_event_sequence_id : String → ℕ → String
build_security_event_sequence_id resource_id n =
    build_security_event_counter_key resource_id <> "-" <> decimal n

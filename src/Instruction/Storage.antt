-- ===== src/Instruction/Storage.antt =====
-- Bitemporal documents (instruction-service/src/inst/storage.py). The payload stands for the
-- instruction that pydantic reads from its JSON form: pydantic's `model_dump(mode="json")` and its
-- parsing of the fields are not modelled. Building an instruction from a document runs the
-- constraints of the fields and the validators of its class again.
pub mod Payload
use security_event_rag_demo.Base.{ℕ, String, ◌<>◌, ◌≡◌, Option, none, some}
use security_event_rag_demo.Base.Text.{replace_z}
use security_event_rag_demo.Base.Exec.{Error, Result, ok, err}
use security_event_rag_demo.Instruction.Enums.{status_value, wire_scope_value}
use security_event_rag_demo.Instruction.Model.{CashSettlementInstruction, model_validate}

pub record VersionedInstruction : Type 0 where
  pub instruction : CashSettlementInstruction
  pub version_number : ℕ
  pub valid_in : ℕ
  pub valid_out : Option ℕ

-- A document of the `instructions` collection; `in_` is its key "in".
pub record Document : Type 0 where
  pub instruction_id : String
  pub version_number : ℕ
  pub in_ : String
  pub out : Option String
  pub status : String
  pub owning_lob : String
  pub wire_scope : String
  pub payload : CashSettlementInstruction

-- `datetime.isoformat`, and the clock time that `datetime.fromisoformat` reads, without its offset
-- (`.replace(tzinfo=None)`), which fails on other texts.
pub record Iso : Type 0 where
  pub isoformat : ℕ → String
  pub fromisoformat : String → Option ℕ

module _ (iso : Iso) where
  unfoldable pub format_timestamp : ℕ → String
  format_timestamp t = iso.isoformat t <> "Z"

  abbrev format_opt : Option ℕ → Option String
  format_opt none = none
  format_opt (some t) = some (iso.isoformat t <> "Z")

  abbrev parsed : Option ℕ → Result ℕ
  parsed none = err (Error.value_error "Invalid isoformat string")
  parsed (some t) = ok t

  unfoldable pub parse_timestamp : String → Result ℕ
  parse_timestamp value = parsed (iso.fromisoformat (replace_z value))

  abbrev as_some : Result ℕ → Result (Option ℕ)
  as_some (ok t) = ok (some t)
  as_some (err e) = err e

  abbrev parse_opt : Option String → Result (Option ℕ)
  parse_opt none = ok none
  parse_opt (some s) = as_some (parse_timestamp s)

  unfoldable pub versioned_instruction_to_document :
      CashSettlementInstruction → ℕ → ℕ → Option ℕ → Document
  unfolding format_timestamp
  versioned_instruction_to_document i version_number valid_in valid_out = record {
    instruction_id = i.instruction_id;
    version_number = version_number;
    in_ = format_timestamp valid_in;
    out = format_opt valid_out;
    status = status_value i.status;
    owning_lob = i.owning_lob;
    wire_scope = wire_scope_value i.wire_scope;
    payload = i;
  }

  abbrev pub assemble :
      Document
      → Result CashSettlementInstruction
      → Result ℕ
      → Result (Option ℕ)
      → Result VersionedInstruction
  assemble d (err e) _ _ = err e
  assemble d (ok i) (err e) _ = err e
  assemble d (ok i) (ok t) (err e) = err e
  assemble d (ok i) (ok t) (ok u) =
      ok
        (record { instruction = i; version_number = d.version_number; valid_in = t; valid_out = u })

  -- The key "in" holds a text, and a time that was read is true, so `or instruction.created_at` is
  -- never used.
  unfoldable pub document_to_versioned_instruction : Document → Result VersionedInstruction
  unfolding parse_timestamp
  document_to_versioned_instruction d =
      assemble d (model_validate d.payload) (parse_timestamp d.in_) (parse_opt d.out)

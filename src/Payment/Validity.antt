-- ===== src/Payment/Validity.antt =====
-- The checks of the backing instruction (service.py: _validate_instruction_at_create and
-- _check_instruction_validity_for_approval). The instruction is the body of an HTTP response, whose
-- entries are texts and an integer version (`InstructionResponse` of the instruction service).
pub mod Approvable
pub mod Usable
pub mod Reasons
use security_event_rag_demo.Base.{
  ℕ, String, ◌<>◌, ◌==◌, Bool, not, ◌&&◌, ◌||◌, Option, none, some, str_eq, is_nonempty, or_empty,
  ltb, if◌then◌else◌,
}
use security_event_rag_demo.Base.Decimal.{decimal}
use security_event_rag_demo.Base.Text.{replace_z}
use security_event_rag_demo.Base.Exec.{Error, Result, ok, err}
use security_event_rag_demo.Base.Json.{Value, Fields, number, get, text_of}
use security_event_rag_demo.Payment.Model.{Payment}
use security_event_rag_demo.Payment.Platform.{PaymentPlatform, Datetime, as_naive, as_utc}

-- `instruction.get(key) or ""`, which is `instruction.get(key, "")` too.
abbrev pub text_at : String → Fields → String
text_at key instruction = or_empty (text_of (get key instruction))

-- `int(value or d)`
abbrev pub int_or : ℕ → Value → ℕ
int_or d (number n) = if n == 0 then d else n
int_or d _ = d

-- `status in _APPROVED_STATUSES`
abbrev pub is_approved_status : String → Bool
is_approved_status status = str_eq status "STANDING" || str_eq status "SINGLE_USE"

-- `!r` of a text without quotes or escapes.
abbrev quoted : String → String
quoted s = "'" <> s <> "'"

abbrev pub version_drift : ℕ → ℕ → String
version_drift created_against current =
    "instruction was modified after payment creation — payment was created against version "
    <> decimal created_against
    <> " but the current version is "
    <> decimal current
    <> "; please review the instruction changes and create a new payment if still valid"

abbrev pub not_approvable : String → String
not_approvable status =
    "instruction is no longer in an approvable state (current status="
    <> quoted status
    <> "); it must be STANDING or SINGLE_USE to approve a payment"

abbrev pub has_expired : String → String
has_expired raw =
    "instruction has expired (end_date=" <> raw
    <> "); the payment cannot be approved against an expired instruction"

abbrev pub not_yet_effective : String → String
not_yet_effective raw =
    "instruction is not yet effective (effective_date=" <> raw
    <> "); payments cannot be approved before the instruction becomes active"

abbrev pub unparseable : String → String → String
unparseable name raw = "instruction has an unparseable " <> name <> " value: " <> quoted raw

abbrev pub type_changed : String → String → String
type_changed at_creation current =
    "instruction type changed since payment creation (payment snapshot="
    <> quoted at_creation
    <> ", current="
    <> quoted current
    <> ")"

-- The first reason of two checks in order.
abbrev pub or_else : Option String → Option String → Option String
or_else (some reason) later = some reason
or_else none later = later

module _ (p : PaymentPlatform) where
  abbrev pub parse_iso : String → Option Datetime
  parse_iso raw = p.fromisoformat (replace_z raw)

  -- What the end date of an instruction says at its approval, if it has one.
  abbrev pub expiry_reason : ℕ → String → Option Datetime → Option String
  expiry_reason now raw none = some (unparseable "end_date" raw)
  expiry_reason now raw (some d) = if ltb (as_utc d) now then some (has_expired raw) else none

  abbrev pub effective_reason : ℕ → String → Option Datetime → Option String
  effective_reason now raw none = some (unparseable "effective_date" raw)
  effective_reason now raw (some d) =
      if ltb now (as_utc d) then some (not_yet_effective raw) else none

  unfoldable pub check_expiry : ℕ → String → Option String
  check_expiry now raw = if is_nonempty raw then expiry_reason now raw (parse_iso raw) else none

  unfoldable pub check_effective : ℕ → String → Option String
  check_effective now raw =
      if is_nonempty raw then effective_reason now raw (parse_iso raw) else none

  unfoldable pub check_version : ℕ → ℕ → Option String
  check_version created_against current =
      if not (current == created_against)
      then some (version_drift created_against current)
      else none

  unfoldable pub check_status : String → Option String
  check_status status =
      if not (is_approved_status status) then some (not_approvable status) else none

  unfoldable pub check_type : String → String → Option String
  check_type at_creation current =
      if is_nonempty current && is_nonempty at_creation && not (str_eq current at_creation)
      then some (type_changed at_creation current)
      else none

  -- `instruction.get("instruction_type") or instruction.get("status") or ""`
  abbrev pub current_type : Fields → String
  current_type instruction =
      if is_nonempty (text_at "instruction_type" instruction)
      then text_at "instruction_type" instruction
      else text_at "status" instruction

  -- `_check_instruction_validity_for_approval`, at the time `now`.
  unfoldable pub check_instruction_validity : ℕ → Payment → Fields → Option String
  check_instruction_validity now payment instruction =
      or_else
        (check_version payment.instruction_version (int_or 0 (get "version_number" instruction)))
        (or_else (check_status (text_at "status" instruction)) (
          or_else (check_expiry now (text_at "end_date" instruction)) (
            or_else (check_effective now (text_at "effective_date" instruction))
              (check_type payment.instruction_type (current_type instruction)))))

  -- The end date at creation, whose offset is dropped.
  abbrev pub end_date_result : ℕ → String → Option Datetime → Result (Unit {0})
  end_date_result now raw none = err (Error.value_error "Invalid isoformat string")
  end_date_result now raw (some d) =
      if ltb (as_naive d) now
      then err (Error.value_error ("instruction has expired (end_date=" <> raw <> ")"))
      else ok tt

  -- `_validate_instruction_at_create`
  unfoldable pub validate_instruction_at_create : ℕ → Fields → Result (Unit {0})
  validate_instruction_at_create now instruction =
      let status = text_at "status" instruction in
      let raw = text_at "end_date" instruction in
      if not (is_approved_status status)
      then err (
          Error.value_error (
            "instruction is not in an approved state (status=" <> status
            <> "). Only STANDING or SINGLE_USE instructions can be used for payments."))
      else if is_nonempty raw
      then end_date_result now raw (parse_iso raw)
      else ok tt

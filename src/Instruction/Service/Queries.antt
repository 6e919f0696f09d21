-- ===== src/Instruction/Service/Queries.antt =====
-- The operations of `InstructionService` that read (service.py: get, list_versions, list). Each read
-- of an instruction is authorized and recorded.
pub mod Visible
use security_event_rag_demo.Base.{
  ℕ, String, Bool, true, false, not, ◌&&◌, Option, none, some, List, [], ◌∷◌, map, if◌then◌else◌,
}
use security_event_rag_demo.Base.Exec.{
  Error, Result, ok, err, pure, raise, catch, lift, ◌>>=◌, ◌>>◌,
}
use security_event_rag_demo.Instruction.Enums.{LifecycleAction, is_deleted, InstructionStatus}
use security_event_rag_demo.Instruction.Parties.{UserReference}
use security_event_rag_demo.Instruction.Subject.{Subject, CreateInstructionRequest}
use security_event_rag_demo.Instruction.Model.{CashSettlementInstruction, model_validate}
use security_event_rag_demo.Instruction.Authorization.{
  AuthorizationBlock, details_with_authorization,
}
use security_event_rag_demo.Instruction.Storage.{VersionedInstruction}
use security_event_rag_demo.Instruction.Platform.{Platform, Settings, State, Action}
use security_event_rag_demo.Instruction.Repository.{get_current, list_current, list_versions}
use security_event_rag_demo.Instruction.Service.Response.{InstructionResponse, to_response}
use security_event_rag_demo.Instruction.Service.Persist.{Caller, authorize, record_if_wanted}

module _ (p : Platform) (cfg : Settings) where
  -- `_record_authorized_action` of a view that was authorized.
  abbrev pub record_view : Subject → VersionedInstruction → AuthorizationBlock → Action p (Unit {0})
  record_view subject v authorization =
      record_if_wanted p cfg LifecycleAction.view subject v.instruction (some v.version_number)
        (some (details_with_authorization none authorization))

  unfoldable pub get_instruction : String → Subject → Caller → Action p InstructionResponse
  get_instruction instruction_id subject caller = do
    current ← get_current p instruction_id
    authorization ←
        authorize p cfg LifecycleAction.view subject current.instruction caller true none
    record_view subject current authorization
    pure (to_response p.iso current)

  unfoldable pub get_versions : String → Subject → Caller → Action p (List InstructionResponse)
  get_versions instruction_id subject caller = do
    got ← get_instruction instruction_id subject caller
    records ← list_versions p instruction_id
    pure (map (to_response p.iso) records)

  -- `except PermissionError: continue`, around a record's authorization.
  abbrev pub skip_denied :
      Result AuthorizationBlock × State p → Result (Option AuthorizationBlock) × State p
  skip_denied (ok b, t) = (ok (some b), t)
  skip_denied (err (Error.permission_error m), t) = (ok none, t)
  skip_denied (err e, t) = (err e, t)

  abbrev pub if_permitted :
      Subject → Caller → VersionedInstruction → Action p (Option AuthorizationBlock)
  if_permitted subject caller v s =
      skip_denied (authorize p cfg LifecycleAction.view subject v.instruction caller true none s)

  -- What a record adds to the records after it.
  abbrev pub add_visible :
      Subject
      → VersionedInstruction
      → Action p (List InstructionResponse)
      → Option AuthorizationBlock
      → Action p (List InstructionResponse)
  add_visible subject v rest none = rest
  add_visible subject v rest (some authorization) = do
    record_view subject v authorization
    others ← rest
    pure (to_response p.iso v ∷ others)

  -- The loop of `list`.
  unfoldable pub visible :
      Bool → Subject → Caller → List VersionedInstruction → Action p (List InstructionResponse)
  visible include_deleted subject caller [] = pure []
  visible include_deleted subject caller (v ∷ records) =
      let rest = visible include_deleted subject caller records in
      if not include_deleted && is_deleted v.instruction.status
      then rest
      else if_permitted subject caller v >>= add_visible subject v rest

  unfoldable pub list_instructions :
      Option String
      → Option String
      → ℕ
      → Bool
      → Subject
      → Caller
      → Action p (List InstructionResponse)
  list_instructions owning_lob status limit include_deleted subject caller = do
    records ← list_current p owning_lob status limit
    visible include_deleted subject caller records

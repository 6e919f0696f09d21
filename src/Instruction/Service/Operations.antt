-- ===== src/Instruction/Service/Operations.antt =====
-- The operations of `InstructionService` that change an instruction (service.py). Each reads the
-- current version and goes on in a function of its own, `…_from`, since other calls may run
-- between the read and the rest.
use security_event_rag_demo.Base.{String, true, not, Option, none, some}
use security_event_rag_demo.Base.Exec.{Error, pure, raise_if, raise, catch, ◌>>=◌, ◌>>◌}
use security_event_rag_demo.Base.Json.{Fields, field, end, str, optional}
use security_event_rag_demo.Clients.Sequence.{next_instruction_id}
use security_event_rag_demo.Instruction.Enums.{
  InstructionStatus, LifecycleAction, is_draft, is_pending, is_suspended, is_deleted,
  is_draft_or_pending, is_active,
}
use security_event_rag_demo.Instruction.Subject.{
  Subject, CreateInstructionRequest, DeleteInstructionRequest, RejectInstructionRequest,
  UseInstructionRequest,
}
use security_event_rag_demo.Instruction.Model.{CashSettlementInstruction}
use security_event_rag_demo.Instruction.Authorization.{details_with_authorization}
use security_event_rag_demo.Instruction.Storage.{VersionedInstruction}
use security_event_rag_demo.Instruction.Platform.{Platform, Settings, Action, clock}
use security_event_rag_demo.Instruction.Repository.{get_current}
use security_event_rag_demo.Instruction.Service.Events.{remote, wrap_sequence_error}
use security_event_rag_demo.Instruction.Service.Response.{InstructionResponse, to_response}
use security_event_rag_demo.Instruction.Service.Build.{instruction_from_request}
use security_event_rag_demo.Instruction.Service.Persist.{
  Caller, authorize, record_event, save_instruction_with_security_event, persist_authorized,
  persist_new_version,
}
use security_event_rag_demo.Instruction.Service.Changes.{
  delete_details, deleted, submitted, approved, rejected, suspended, reactivated, counted, used,
}

module _ (p : Platform) (cfg : Settings) where
  abbrev respond : VersionedInstruction → Action p InstructionResponse
  respond saved = pure (to_response p.iso saved)

  -- `try: … except SequenceClientError` around the allocation of an id.
  unfoldable pub allocate_instruction_id : String → Action p String
  allocate_instruction_id owning_lob = do
    now ← clock p
    catch
        (remote p cfg (
          next_instruction_id p.post p.python_str cfg.sequence_service_url (p.utc_date now)
            owning_lob))
        (λ e. raise (wrap_sequence_error "sequence allocation failed: " e))

  unfoldable pub create : CreateInstructionRequest → Subject → Caller → Action p InstructionResponse
  unfolding allocate_instruction_id
  create request subject caller = do
    instruction_id ← allocate_instruction_id request.owning_lob
    instruction ←
        instruction_from_request p request subject instruction_id InstructionStatus.draft none
    authorization ← authorize p cfg LifecycleAction.create subject instruction caller true none
    let details = details_with_authorization none authorization
    recorded ← record_event p cfg instruction LifecycleAction.create subject (some details)
    saved ←
        save_instruction_with_security_event p cfg recorded LifecycleAction.create subject
          (some details) true
    respond saved

  -- What an update keeps of the instruction that it replaces.
  abbrev pub carry_over :
      CashSettlementInstruction → CashSettlementInstruction → CashSettlementInstruction
  carry_over instruction updated = record updated {
    lifecycle_events = instruction.lifecycle_events;
    created_at = instruction.created_at;
    submitted_at = instruction.submitted_at;
    approved_by = instruction.approved_by;
    approved_at = instruction.approved_at;
    rejected_by = instruction.rejected_by;
    rejected_at = instruction.rejected_at;
    rejection_reason = instruction.rejection_reason;
    suspended_by = instruction.suspended_by;
    suspended_at = instruction.suspended_at;
    last_used_at = instruction.last_used_at;
    usage_count = instruction.usage_count;
  }

  unfoldable pub update_from :
      CreateInstructionRequest
      → Subject
      → Caller
      → VersionedInstruction
      → Action p InstructionResponse
  update_from request subject caller current = do
    let instruction = current.instruction
    raise_if (not (is_draft instruction.status))
        (Error.invalid_state_transition "only DRAFT instructions can be updated")
    updated ←
        instruction_from_request p request subject instruction.instruction_id instruction.status
          (some instruction.created_by)
    saved ←
        persist_new_version p cfg (carry_over instruction updated) LifecycleAction.update subject
          none caller
    respond saved

  unfoldable pub update :
      String → CreateInstructionRequest → Subject → Caller → Action p InstructionResponse
  update instruction_id request subject caller = do
    current ← get_current p instruction_id
    update_from request subject caller current

  -- The second guard of a deletion, and the rest. The status is `DELETED` before the policy is
  -- asked.
  abbrev pub soft_delete :
      Subject
      → Option DeleteInstructionRequest
      → Caller
      → CashSettlementInstruction
      → Action p InstructionResponse
  soft_delete subject request caller instruction = do
    raise_if (not (is_draft_or_pending instruction.status))
        (Error.invalid_state_transition "only DRAFT or PENDING instructions can be soft deleted")
    saved ←
        persist_new_version p cfg (deleted instruction) LifecycleAction.delete subject
          (some (delete_details request)) caller
    respond saved

  unfoldable pub delete_from :
      Subject
      → Option DeleteInstructionRequest
      → Caller
      → VersionedInstruction
      → Action p InstructionResponse
  delete_from subject request caller current = do
    raise_if (is_deleted current.instruction.status)
        (Error.invalid_state_transition "instruction is already deleted")
    soft_delete subject request caller current.instruction

  unfoldable pub delete :
      String → Subject → Option DeleteInstructionRequest → Caller → Action p InstructionResponse
  delete instruction_id subject request caller = do
    current ← get_current p instruction_id
    delete_from subject request caller current

  unfoldable pub submit_from :
      Subject → Caller → VersionedInstruction → Action p InstructionResponse
  submit_from subject caller current = do
    let instruction = current.instruction
    raise_if (not (is_draft instruction.status))
        (Error.invalid_state_transition "only DRAFT instructions can be submitted")
    authorization ← authorize p cfg LifecycleAction.submit subject instruction caller true none
    now ← clock p
    saved ←
        persist_authorized p cfg (submitted now instruction) LifecycleAction.submit subject
          (some (details_with_authorization none authorization))
    respond saved

  unfoldable pub submit : String → Subject → Caller → Action p InstructionResponse
  submit instruction_id subject caller = do
    current ← get_current p instruction_id
    submit_from subject caller current

  unfoldable pub approve_from :
      Subject → Caller → VersionedInstruction → Action p InstructionResponse
  approve_from subject caller current = do
    let instruction = current.instruction
    raise_if (not (is_pending instruction.status))
        (Error.invalid_state_transition "only PENDING instructions can be approved")
    authorization ← authorize p cfg LifecycleAction.approve subject instruction caller true none
    now ← clock p
    saved ←
        persist_authorized p cfg (approved subject now instruction) LifecycleAction.approve subject
          (some (details_with_authorization none authorization))
    respond saved

  unfoldable pub approve : String → Subject → Caller → Action p InstructionResponse
  approve instruction_id subject caller = do
    current ← get_current p instruction_id
    approve_from subject caller current

  unfoldable pub reject_from :
      Subject
      → RejectInstructionRequest
      → Caller
      → VersionedInstruction
      → Action p InstructionResponse
  reject_from subject request caller current = do
    let instruction = current.instruction
    raise_if (not (is_pending instruction.status))
        (Error.invalid_state_transition "only PENDING instructions can be rejected")
    let reason = field "reason" (str request.reason) end
    authorization ←
        authorize p cfg LifecycleAction.reject subject instruction caller true (some reason)
    now ← clock p
    saved ←
        persist_authorized p cfg (rejected subject request.reason now instruction)
          LifecycleAction.reject subject
          (some (details_with_authorization (some reason) authorization))
    respond saved

  unfoldable pub reject :
      String → Subject → RejectInstructionRequest → Caller → Action p InstructionResponse
  reject instruction_id subject request caller = do
    current ← get_current p instruction_id
    reject_from subject request caller current

  unfoldable pub suspend_from :
      Subject → Caller → VersionedInstruction → Action p InstructionResponse
  suspend_from subject caller current = do
    let instruction = current.instruction
    raise_if (not (is_active instruction.status)) (
        Error.invalid_state_transition
          "only active STANDING or SINGLE_USE instructions can be suspended")
    authorization ← authorize p cfg LifecycleAction.suspend subject instruction caller true none
    now ← clock p
    saved ←
        persist_authorized p cfg (suspended subject now instruction) LifecycleAction.suspend subject
          (some (details_with_authorization none authorization))
    respond saved

  unfoldable pub suspend : String → Subject → Caller → Action p InstructionResponse
  suspend instruction_id subject caller = do
    current ← get_current p instruction_id
    suspend_from subject caller current

  unfoldable pub reactivate_from :
      Subject → Caller → VersionedInstruction → Action p InstructionResponse
  reactivate_from subject caller current = do
    let instruction = current.instruction
    raise_if (not (is_suspended instruction.status))
        (Error.invalid_state_transition "only SUSPENDED instructions can be reactivated")
    authorization ← authorize p cfg LifecycleAction.reactivate subject instruction caller true none
    saved ←
        persist_authorized p cfg (reactivated instruction) LifecycleAction.reactivate subject
          (some (details_with_authorization none authorization))
    respond saved

  unfoldable pub reactivate : String → Subject → Caller → Action p InstructionResponse
  reactivate instruction_id subject caller = do
    current ← get_current p instruction_id
    reactivate_from subject caller current

  abbrev pub use_details : UseInstructionRequest → CashSettlementInstruction → Fields
  use_details request instruction = field "payment_reference" (str request.payment_reference) (
      field "end_to_end_identification" (optional request.end_to_end_identification)
        (field "currency" (str instruction.currency) end))

  -- The use is counted before the policy is asked.
  unfoldable pub use_from :
      Subject → UseInstructionRequest → Caller → VersionedInstruction → Action p InstructionResponse
  use_from subject request caller current = do
    raise_if (not (is_active current.instruction.status)) (
        Error.invalid_state_transition
          "only active STANDING or SINGLE_USE instructions can be used")
    now ← clock p
    let instruction = counted now current.instruction
    let details = use_details request instruction
    authorization ←
        authorize p cfg LifecycleAction.use_ subject instruction caller true (some details)
    saved ←
        persist_authorized p cfg (used instruction) LifecycleAction.use_ subject
          (some (details_with_authorization (some details) authorization))
    respond saved

  unfoldable pub use_instruction :
      String → Subject → UseInstructionRequest → Caller → Action p InstructionResponse
  use_instruction instruction_id subject request caller = do
    current ← get_current p instruction_id
    use_from subject request caller current

-- ===== src/Instruction/Service/Calls.antt =====
-- The requests that change an instruction (instruction-service/src/inst/routes.py).
pub mod Histories
pub mod Refusals
use security_event_rag_demo.Base.{String, Option}
use security_event_rag_demo.Instruction.Enums.{LifecycleAction}
use security_event_rag_demo.Instruction.Subject.{
  Subject, CreateInstructionRequest, DeleteInstructionRequest, RejectInstructionRequest,
  UseInstructionRequest,
}
use security_event_rag_demo.Instruction.Platform.{Platform, Settings, Action}
use security_event_rag_demo.Instruction.Service.Response.{InstructionResponse}
use security_event_rag_demo.Instruction.Service.Persist.{Caller}
use security_event_rag_demo.Instruction.Service.Operations.{
  update, delete, submit, approve, reject, suspend, reactivate, use_instruction,
}

-- A request on an instruction that exists.
pub data Call : Type 0 where
  update_call : CreateInstructionRequest → Call
  delete_call : Option DeleteInstructionRequest → Call
  submit_call : Call
  approve_call : Call
  reject_call : RejectInstructionRequest → Call
  suspend_call : Call
  reactivate_call : Call
  use_call : UseInstructionRequest → Call

abbrev pub action_of : Call → LifecycleAction
action_of (Call.update_call _) = LifecycleAction.update
action_of (Call.delete_call _) = LifecycleAction.delete
action_of Call.submit_call = LifecycleAction.submit
action_of Call.approve_call = LifecycleAction.approve
action_of (Call.reject_call _) = LifecycleAction.reject
action_of Call.suspend_call = LifecycleAction.suspend
action_of Call.reactivate_call = LifecycleAction.reactivate
action_of (Call.use_call _) = LifecycleAction.use_

abbrev pub perform :
    (p : Platform) → Settings → Call → String → Subject → Caller → Action p InstructionResponse
perform p cfg (Call.update_call r) id u k = update p cfg id r u k
perform p cfg (Call.delete_call r) id u k = delete p cfg id u r k
perform p cfg Call.submit_call id u k = submit p cfg id u k
perform p cfg Call.approve_call id u k = approve p cfg id u k
perform p cfg (Call.reject_call r) id u k = reject p cfg id u r k
perform p cfg Call.suspend_call id u k = suspend p cfg id u k
perform p cfg Call.reactivate_call id u k = reactivate p cfg id u k
perform p cfg (Call.use_call r) id u k = use_instruction p cfg id u r k

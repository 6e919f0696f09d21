-- ===== src/Instruction/Service/Build.antt =====
-- `_instruction_from_request` (service.py) and the validation of a create request (models/api.py).
pub mod Fields
use security_event_rag_demo.Base.{
  ℕ, String, Option, none, [], is_nonempty, or_default, if◌then◌else◌,
}
use security_event_rag_demo.Base.Exec.{pure, lift, ◌>>=◌}
use security_event_rag_demo.Instruction.Enums.{InstructionStatus}
use security_event_rag_demo.Instruction.Parties.{UserReference}
use security_event_rag_demo.Instruction.Subject.{Subject, CreateInstructionRequest, user_reference}
use security_event_rag_demo.Instruction.Model.{CashSettlementInstruction, model_validate}
use security_event_rag_demo.Instruction.Storage.{parse_timestamp}
use security_event_rag_demo.Instruction.Platform.{Platform, Action, clock, external}

-- The instruction that a request describes, with the default values of the other fields.
unfoldable pub draft_of :
    CreateInstructionRequest
    → String
    → InstructionStatus
    → UserReference
    → ℕ
    → ℕ
    → ℕ
    → ℕ
    → CashSettlementInstruction
draft_of request id status created_by effective_date end_date created_at updated_at = record {
  instruction_id = id;
  status = status;
  instruction_type = request.instruction_type;
  owning_lob = request.owning_lob;
  wire_scope = request.wire_scope;
  currency = request.currency;
  funding_account = request.funding_account;
  initiating_party = request.initiating_party;
  ultimate_debtor = request.ultimate_debtor;
  debtor = request.debtor;
  debtor_account = request.debtor_account;
  debtor_agent = request.debtor_agent;
  debtor_agent_account = request.debtor_agent_account;
  instructing_agent = request.instructing_agent;
  instructed_agent = request.instructed_agent;
  previous_instructing_agents = request.previous_instructing_agents;
  intermediary_agents = request.intermediary_agents;
  creditor_agent = request.creditor_agent;
  creditor_agent_account = request.creditor_agent_account;
  creditor = request.creditor;
  creditor_account = request.creditor_account;
  ultimate_creditor = request.ultimate_creditor;
  charge_bearer = request.charge_bearer;
  instructions_for_creditor_agent = request.instructions_for_creditor_agent;
  instructions_for_next_agent = request.instructions_for_next_agent;
  effective_date = effective_date;
  end_date = end_date;
  created_by = created_by;
  created_at = created_at;
  updated_at = updated_at;
  submitted_at = none;
  approved_by = none;
  approved_at = none;
  rejected_by = none;
  rejected_at = none;
  rejection_reason = none;
  suspended_by = none;
  suspended_at = none;
  last_used_at = none;
  usage_count = 0;
  lifecycle_events = [];
}

module _ (p : Platform) where
  -- `_instruction_from_request`: an unreadable date or an invalid instruction raises.
  unfoldable pub instruction_from_request :
      CreateInstructionRequest
      → Subject
      → String
      → InstructionStatus
      → Option UserReference
      → Action p CashSettlementInstruction
  instruction_from_request request subject instruction_id status created_by = do
    id ← (if is_nonempty instruction_id then pure instruction_id else external p p.uuid4)
    effective_date ← lift (parse_timestamp p.iso request.effective_date)
    end_date ← lift (parse_timestamp p.iso request.end_date)
    created_at ← clock p
    updated_at ← clock p
    let creator = or_default created_by (user_reference subject)
    lift (
        model_validate
          (draft_of request id status creator effective_date end_date created_at updated_at))

-- ===== src/Instruction/Service/Response.antt =====
-- `InstructionResponse` (models/api.py) and `_to_response` (service.py).
use security_event_rag_demo.Base.{ℕ, String, ◌<>◌, Option, none, some, List}
use security_event_rag_demo.Instruction.Enums.{
  type_value, status_value, wire_scope_value, charge_bearer_value,
}
use security_event_rag_demo.Instruction.Parties.{
  PartyIdentification, CashAccount, BranchAndFinancialInstitutionIdentification, AgentWithAccount,
  FundingAccount, InstructionForAgent, UserReference,
}
use security_event_rag_demo.Instruction.Storage.{Iso, VersionedInstruction}

pub record InstructionResponse : Type 0 where
  pub instruction_id : String
  pub version_number : ℕ
  pub record_in : String
  pub record_out : Option String
  pub instruction_type : String
  pub status : String
  pub owning_lob : String
  pub wire_scope : String
  pub currency : String
  pub funding_account : FundingAccount
  pub initiating_party : Option PartyIdentification
  pub ultimate_debtor : Option PartyIdentification
  pub debtor : PartyIdentification
  pub debtor_account : CashAccount
  pub debtor_agent : BranchAndFinancialInstitutionIdentification
  pub debtor_agent_account : Option CashAccount
  pub instructing_agent : Option BranchAndFinancialInstitutionIdentification
  pub instructed_agent : Option BranchAndFinancialInstitutionIdentification
  pub previous_instructing_agents : List AgentWithAccount
  pub intermediary_agents : List AgentWithAccount
  pub creditor_agent : BranchAndFinancialInstitutionIdentification
  pub creditor_agent_account : Option CashAccount
  pub creditor : PartyIdentification
  pub creditor_account : CashAccount
  pub ultimate_creditor : Option PartyIdentification
  pub charge_bearer : String
  pub instructions_for_creditor_agent : List InstructionForAgent
  pub instructions_for_next_agent : List InstructionForAgent
  pub effective_date : String
  pub end_date : String
  pub created_by : UserReference
  pub created_at : String
  pub updated_at : String
  pub submitted_at : Option String
  pub approved_by : Option UserReference
  pub approved_at : Option String
  pub rejected_by : Option UserReference
  pub rejected_at : Option String
  pub rejection_reason : Option String
  pub suspended_by : Option String
  pub suspended_at : Option String
  pub last_used_at : Option String
  pub usage_count : ℕ

module _ (iso : Iso) where
  -- `_fmt_datetime`, of a datetime and of an optional one.
  abbrev fmt_datetime : ℕ → String
  fmt_datetime t = iso.isoformat t <> "Z"

  abbrev fmt_opt : Option ℕ → Option String
  fmt_opt none = none
  fmt_opt (some t) = some (iso.isoformat t <> "Z")

  unfoldable pub to_response : VersionedInstruction → InstructionResponse
  to_response r =
      let i = r.instruction in
      record {
        instruction_id = i.instruction_id;
        version_number = r.version_number;
        record_in = fmt_datetime r.valid_in;
        record_out = fmt_opt r.valid_out;
        instruction_type = type_value i.instruction_type;
        status = status_value i.status;
        owning_lob = i.owning_lob;
        wire_scope = wire_scope_value i.wire_scope;
        currency = i.currency;
        funding_account = i.funding_account;
        initiating_party = i.initiating_party;
        ultimate_debtor = i.ultimate_debtor;
        debtor = i.debtor;
        debtor_account = i.debtor_account;
        debtor_agent = i.debtor_agent;
        debtor_agent_account = i.debtor_agent_account;
        instructing_agent = i.instructing_agent;
        instructed_agent = i.instructed_agent;
        previous_instructing_agents = i.previous_instructing_agents;
        intermediary_agents = i.intermediary_agents;
        creditor_agent = i.creditor_agent;
        creditor_agent_account = i.creditor_agent_account;
        creditor = i.creditor;
        creditor_account = i.creditor_account;
        ultimate_creditor = i.ultimate_creditor;
        charge_bearer = charge_bearer_value i.charge_bearer;
        instructions_for_creditor_agent = i.instructions_for_creditor_agent;
        instructions_for_next_agent = i.instructions_for_next_agent;
        effective_date = fmt_datetime i.effective_date;
        end_date = fmt_datetime i.end_date;
        created_by = i.created_by;
        created_at = fmt_datetime i.created_at;
        updated_at = fmt_datetime i.updated_at;
        submitted_at = fmt_opt i.submitted_at;
        approved_by = i.approved_by;
        approved_at = fmt_opt i.approved_at;
        rejected_by = i.rejected_by;
        rejected_at = fmt_opt i.rejected_at;
        rejection_reason = i.rejection_reason;
        suspended_by = i.suspended_by;
        suspended_at = fmt_opt i.suspended_at;
        last_used_at = fmt_opt i.last_used_at;
        usage_count = i.usage_count;
      }

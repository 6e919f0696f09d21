-- ===== src/Instruction/Subject.antt =====
-- The caller and the request bodies (instruction-service/src/inst/models/api.py).
use security_event_rag_demo.Base.{String, Bool, ◌&&◌, Option, none, some, List}
use security_event_rag_demo.Base.Json.{Fields, field, str, texts, end}
use security_event_rag_demo.Instruction.Enums.{InstructionType, WireScope, ChargeBearer}
use security_event_rag_demo.Instruction.Parties.{
  PartyIdentification, CashAccount, BranchAndFinancialInstitutionIdentification, AgentWithAccount,
  FundingAccount, InstructionForAgent, UserReference, within, within_opt,
}

pub record Subject : Type 0 where
  pub user_id : String
  pub given_name : Option String
  pub family_name : Option String
  pub title : String
  pub lob : Option String
  pub roles : List String
  pub groups : List String
  pub supervisor_id : Option String
  pub delegated_by : Option String
  pub delegated_by_roles : List String

-- `if x is not None: payload[key] = x`, in front of the entries that follow.
abbrev pub field_opt : String → Option String → Fields → Fields
field_opt key none rest = rest
field_opt key (some s) rest = field key (str s) rest

-- `Subject.to_opa_subject`
unfoldable pub to_opa_subject : Subject → Fields
to_opa_subject s = field "user_id" (str s.user_id) (
    field "title" (str s.title) (
      field "roles" (texts s.roles) (
        field "groups" (texts s.groups) (
          field_opt "lob" s.lob (
            field_opt "supervisor_id" s.supervisor_id
              (field "delegated_by_roles" (texts s.delegated_by_roles) end))))))

-- The reference to a caller that `approve`, `reject` and `_instruction_from_request` store.
unfoldable pub user_reference : Subject → UserReference
user_reference s = record {
  user_id = s.user_id;
  given_name = s.given_name;
  family_name = s.family_name;
  title = s.title;
  lob = s.lob;
  roles = s.roles;
  supervisor_id = s.supervisor_id;
}

pub record CreateInstructionRequest : Type 0 where
  pub instruction_type : InstructionType
  pub owning_lob : String
  pub wire_scope : WireScope
  pub currency : String
  pub funding_account : FundingAccount
  pub initiating_party : Option PartyIdentification
  pub ultimate_debtor : Option PartyIdentification
  pub debtor : PartyIdentification
  pub debtor_account : CashAccount
  pub debtor_agent : BranchAndFinancialInstitutionIdentification
  pub debtor_agent_account : Option CashAccount
  pub instructing_agent : Option BranchAndFinancialInstitutionIdentification
  pub instructed_agent : Option BranchAndFinancialInstitutionIdentification
  pub previous_instructing_agents : List AgentWithAccount
  pub intermediary_agents : List AgentWithAccount
  pub creditor_agent : BranchAndFinancialInstitutionIdentification
  pub creditor_agent_account : Option CashAccount
  pub creditor : PartyIdentification
  pub creditor_account : CashAccount
  pub ultimate_creditor : Option PartyIdentification
  pub charge_bearer : ChargeBearer
  pub instructions_for_creditor_agent : List InstructionForAgent
  pub instructions_for_next_agent : List InstructionForAgent
  pub effective_date : String
  pub end_date : String

pub record RejectInstructionRequest : Type 0 where
  pub reason : String

pub record UseInstructionRequest : Type 0 where
  pub payment_reference : String
  pub end_to_end_identification : Option String

pub record DeleteInstructionRequest : Type 0 where
  pub reason : Option String

-- The length constraints of the request bodies.
abbrev pub check_reject_request : RejectInstructionRequest → Bool
check_reject_request r = within 1 1024 r.reason

abbrev pub check_use_request : UseInstructionRequest → Bool
check_use_request r =
    within 1 128 r.payment_reference && within_opt 0 35 r.end_to_end_identification

abbrev pub check_delete_request : DeleteInstructionRequest → Bool
check_delete_request r = within_opt 0 1024 r.reason

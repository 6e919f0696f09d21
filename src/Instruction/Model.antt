-- ===== src/Instruction/Model.antt =====
-- `CashSettlementInstruction` of instruction-service/src/inst/models/instruction.py, its field
-- constraints and its route rules.
pub mod Rules
use security_event_rag_demo.Base.{
  ℕ, String, Bool, true, false, not, ◌&&◌, Option, none, some, List, [], ◌∷◌, ◌++◌, map, leb,
  length, all, truthy, str_eq, if◌then◌else◌, ◌<>◌,
}
use security_event_rag_demo.Base.Exec.{Error, Result, ok, err}
use security_event_rag_demo.Base.Json.{Fields, field, str, optional, object, end}
use security_event_rag_demo.Instruction.Enums.{
  InstructionType, InstructionStatus, WireScope, ChargeBearer, AccountIdentificationScheme,
  FinancialInstitutionIdScheme, status_value, type_value,
}
use security_event_rag_demo.Instruction.Parties.{
  PartyIdentification, CashAccount, BranchAndFinancialInstitutionIdentification, AgentWithAccount,
  FundingAccount, InstructionForAgent, UserReference, LifecycleEvent, within, check_opt,
  check_party, check_account, check_branch, check_hop, check_agent_instruction,
  check_funding_account, check_owning_lob, check_user,
}

pub record CashSettlementInstruction : Type 0 where
  pub instruction_id : String
  pub instruction_type : InstructionType
  pub status : InstructionStatus
  pub owning_lob : String
  pub wire_scope : WireScope
  pub currency : String
  pub funding_account : FundingAccount
  pub initiating_party : Option PartyIdentification
  pub ultimate_debtor : Option PartyIdentification
  pub debtor : PartyIdentification
  pub debtor_account : CashAccount
  pub debtor_agent : BranchAndFinancialInstitutionIdentification
  pub debtor_agent_account : Option CashAccount
  pub instructing_agent : Option BranchAndFinancialInstitutionIdentification
  pub instructed_agent : Option BranchAndFinancialInstitutionIdentification
  pub previous_instructing_agents : List AgentWithAccount
  pub intermediary_agents : List AgentWithAccount
  pub creditor_agent : BranchAndFinancialInstitutionIdentification
  pub creditor_agent_account : Option CashAccount
  pub creditor : PartyIdentification
  pub creditor_account : CashAccount
  pub ultimate_creditor : Option PartyIdentification
  pub charge_bearer : ChargeBearer
  pub instructions_for_creditor_agent : List InstructionForAgent
  pub instructions_for_next_agent : List InstructionForAgent
  pub effective_date : ℕ
  pub end_date : ℕ
  pub created_by : UserReference
  pub created_at : ℕ
  pub updated_at : ℕ
  pub submitted_at : Option ℕ
  pub approved_by : Option UserReference
  pub approved_at : Option ℕ
  pub rejected_by : Option UserReference
  pub rejected_at : Option ℕ
  pub rejection_reason : Option String
  pub suspended_by : Option String
  pub suspended_at : Option ℕ
  pub last_used_at : Option ℕ
  pub usage_count : ℕ
  pub lifecycle_events : List LifecycleEvent

-- The constraints of the fields, nested values included.
unfoldable pub check_fields : CashSettlementInstruction → Bool
check_fields i =
    check_owning_lob i.owning_lob
    && within 3 3 i.currency
    && check_funding_account i.funding_account
    && check_opt check_party i.initiating_party
    && check_opt check_party i.ultimate_debtor
    && check_party i.debtor
    && check_account i.debtor_account
    && check_branch i.debtor_agent
    && check_opt check_account i.debtor_agent_account
    && check_opt check_branch i.instructing_agent
    && check_opt check_branch i.instructed_agent
    && leb (length i.previous_instructing_agents) 3
    && all check_hop i.previous_instructing_agents
    && leb (length i.intermediary_agents) 3
    && all check_hop i.intermediary_agents
    && check_branch i.creditor_agent
    && check_opt check_account i.creditor_agent_account
    && check_party i.creditor
    && check_account i.creditor_account
    && check_opt check_party i.ultimate_creditor
    && all check_agent_instruction i.instructions_for_creditor_agent
    && all check_agent_instruction i.instructions_for_next_agent
    && check_user i.created_by
    && check_opt check_user i.approved_by
    && check_opt check_user i.rejected_by

abbrev is_bicfi : FinancialInstitutionIdScheme → Bool
is_bicfi FinancialInstitutionIdScheme.bicfi = true
is_bicfi _ = false

abbrev pub is_clearing_system : FinancialInstitutionIdScheme → Bool
is_clearing_system FinancialInstitutionIdScheme.clearing_system = true
is_clearing_system _ = false

-- `scheme in {IBAN, BBAN}`
abbrev pub is_iban_or_bban : AccountIdentificationScheme → Bool
is_iban_or_bban AccountIdentificationScheme.iban = true
is_iban_or_bban AccountIdentificationScheme.bban = true
is_iban_or_bban _ = false

-- `_agent_requires_bicfi`
unfoldable pub agent_requires_bicfi : BranchAndFinancialInstitutionIdentification → Bool
agent_requires_bicfi a = is_bicfi a.financial_institution.scheme

-- `if x is not None: agents.append(x)`
abbrev pub append_opt : {A : Type 0} → List A → Option A → List A
append_opt l none = l
append_opt l (some a) = l ++ (a ∷ [])

-- The agents that an international wire is checked for.
unfoldable pub international_agents :
    CashSettlementInstruction → List BranchAndFinancialInstitutionIdentification
international_agents i =
    append_opt
      (append_opt
        (i.debtor_agent
          ∷ i.creditor_agent
          ∷ (map (λ h. h.agent) i.intermediary_agents
              ++ map (λ h. h.agent) i.previous_instructing_agents))
        i.instructing_agent)
      i.instructed_agent

abbrev route_error : String → Result (Unit {0})
route_error m = err (Error.validation_error m)

abbrev check_scope : CashSettlementInstruction → WireScope → Result (Unit {0})
check_scope i WireScope.international =
    if not (all agent_requires_bicfi (international_agents i))
    then route_error "international wires require BICFI on all agents in the payment chain"
    else if is_iban_or_bban i.creditor_account.identification_scheme
    then ok tt
    else route_error "international wires require creditor_account IBAN or BBAN"
check_scope i WireScope.domestic =
    if is_clearing_system i.creditor_agent.financial_institution.scheme
      && not (truthy i.creditor_agent.financial_institution.clearing_system_id)
    then route_error "domestic wires with CLEARING_SYSTEM require clearing_system_id"
    else ok tt

-- `validate_route_rules`. A hop's `agent` is a required field, so the two loops that ask for a hop
-- with an account and no agent raise at no value of the type, and are left out.
unfoldable pub validate_route_rules : CashSettlementInstruction → Result (Unit {0})
unfolding international_agents agent_requires_bicfi
validate_route_rules i =
    if not (str_eq i.funding_account.owning_lob i.owning_lob)
    then route_error "funding_account.owning_lob must match instruction owning_lob"
    else check_scope i i.wire_scope

abbrev pub after_rules :
    CashSettlementInstruction → Result (Unit {0}) → Result CashSettlementInstruction
after_rules i (ok _) = ok i
after_rules i (err e) = err e

-- Building a value: the field constraints and then the route rules.
unfoldable pub model_validate : CashSettlementInstruction → Result CashSettlementInstruction
model_validate i =
    if check_fields i
    then after_rules i (validate_route_rules i)
    else err (Error.validation_error "field constraints")

-- `to_opa_account`
unfoldable pub to_opa_account : CashSettlementInstruction → Fields
to_opa_account i = field "owning_lob" (str i.funding_account.owning_lob) end

-- `to_opa_instruction`, over `datetime.isoformat`.
unfoldable pub to_opa_instruction : (ℕ → String) → CashSettlementInstruction → Fields
to_opa_instruction isoformat i = field "status" (str (status_value i.status)) (
    field "type" (str (type_value i.instruction_type)) (
      field "owning_lob" (str i.owning_lob) (
        field "effective_date" (str (isoformat i.effective_date <> "Z")) (
          field "end_date" (str (isoformat i.end_date <> "Z")) (
            field "created_by"
              (object (
                field "user_id" (str i.created_by.user_id) (
                  field "title" (str i.created_by.title)
                    (field "supervisor_id" (optional i.created_by.supervisor_id) end))))
              (field "suspended_by" (optional i.suspended_by) end))))))

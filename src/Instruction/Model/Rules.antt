-- ===== src/Instruction/Model/Rules.antt =====
-- What the route rules of `CashSettlementInstruction` accept, field by field.
use security_event_rag_demo.Base.{
  ◌≡◌, ◌↔◌, ◌⊎◌, Bool, true, false, ◌&&◌, Option, none, some, List, [], ◌∷◌, ◌++◌, map, arith, all,
  All, truthy, eq_iff, refl,
}
use security_event_rag_demo.Base.Exec.{ok}
use security_event_rag_demo.Instruction.Enums.{WireScope, FinancialInstitutionIdScheme}
use security_event_rag_demo.Instruction.Parties.{
  BranchAndFinancialInstitutionIdentification, AgentWithAccount,
}
use security_event_rag_demo.Instruction.Model.{
  CashSettlementInstruction, agent_requires_bicfi, append_opt, international_agents,
  is_clearing_system, is_iban_or_bban, validate_route_rules,
}

-- An agent that is identified by its BIC.
abbrev pub IsBicfi : BranchAndFinancialInstitutionIdentification → Type 0
IsBicfi a = a.financial_institution.scheme ≡ FinancialInstitutionIdScheme.bicfi

abbrev pub AllHopsBicfi : List AgentWithAccount → Type 0
AllHopsBicfi = All (λ h. IsBicfi h.agent)

abbrev pub OptBicfi : Option BranchAndFinancialInstitutionIdentification → Type 0
OptBicfi none = Unit
OptBicfi (some a) = IsBicfi a

-- What a route has to satisfy, by its scope.
abbrev pub IsRoute : CashSettlementInstruction → WireScope → Type 0
IsRoute i WireScope.international =
    IsBicfi i.debtor_agent
    × IsBicfi i.creditor_agent
    × AllHopsBicfi i.intermediary_agents
    × AllHopsBicfi i.previous_instructing_agents
    × OptBicfi i.instructing_agent
    × OptBicfi i.instructed_agent
    × (is_iban_or_bban i.creditor_account.identification_scheme ≡ true)
IsRoute i WireScope.domestic =
    (is_clearing_system i.creditor_agent.financial_institution.scheme ≡ false)
    ⊎ (truthy i.creditor_agent.financial_institution.clearing_system_id ≡ true)

agent_requires_bicfi_iff :
    (a : BranchAndFinancialInstitutionIdentification) → (agent_requires_bicfi a ≡ true) ↔ IsBicfi a
unfolding agent_requires_bicfi
agent_requires_bicfi_iff a = ground arith

all-append {ℓ} :
    {A : Type ℓ} (p : A → Bool) (xs ys : List A) → all p (xs ++ ys) ≡ (all p xs && all p ys)
all-append p [] ys = refl
all-append p (x ∷ xs) ys = ground (arith, all-append p xs ys)

all-hops :
    (hops : List AgentWithAccount)
    → (all agent_requires_bicfi (map (λ h. h.agent) hops) ≡ true) ↔ AllHopsBicfi hops
all-hops [] = (λ _. tt, λ _. refl)
all-hops (h ∷ hops) = ground (arith, agent_requires_bicfi_iff h.agent, all-hops hops)

all-append_opt :
    (l : List BranchAndFinancialInstitutionIdentification)
    (o : Option BranchAndFinancialInstitutionIdentification)
    → (all agent_requires_bicfi (append_opt l o) ≡ true)
      ↔ ((all agent_requires_bicfi l ≡ true) × OptBicfi o)
all-append_opt l none = ground arith
all-append_opt l (some a) =
    ground (arith, all-append agent_requires_bicfi l (a ∷ []), agent_requires_bicfi_iff a)

all-international_agents :
    (i : CashSettlementInstruction)
    → (all agent_requires_bicfi (international_agents i) ≡ true) ↔ (
        IsBicfi i.debtor_agent
        × IsBicfi i.creditor_agent
        × AllHopsBicfi i.intermediary_agents
        × AllHopsBicfi i.previous_instructing_agents
        × OptBicfi i.instructing_agent
        × OptBicfi i.instructed_agent)
unfolding international_agents
all-international_agents i =
    let hops = map (λ (h : AgentWithAccount). h.agent) i.intermediary_agents in
    let previous = map (λ (h : AgentWithAccount). h.agent) i.previous_instructing_agents in
    let chain = i.debtor_agent ∷ i.creditor_agent ∷ (hops ++ previous) in
    ground (
      arith,
      all-append_opt (append_opt chain i.instructing_agent) i.instructed_agent,
      all-append_opt chain i.instructing_agent,
      all-append agent_requires_bicfi hops previous,
      all-hops i.intermediary_agents,
      all-hops i.previous_instructing_agents,
      agent_requires_bicfi_iff i.debtor_agent,
      agent_requires_bicfi_iff i.creditor_agent,
    )

rules_by_scope :
    (i : CashSettlementInstruction) (w : WireScope)
    → i.wire_scope ≡ w
    → (validate_route_rules i ≡ ok tt)
      ↔ ((i.funding_account.owning_lob ≡ i.owning_lob) × IsRoute i w)
unfolding validate_route_rules
rules_by_scope i WireScope.international e =
    rw e
      (ground (arith, eq_iff i.funding_account.owning_lob i.owning_lob, all-international_agents i))
rules_by_scope i WireScope.domestic e =
    rw e (ground (arith, eq_iff i.funding_account.owning_lob i.owning_lob))

-- The route rules accept an instruction exactly when its funding account has the instruction's
-- LOB and the route suits its scope: an international wire has a BIC on every agent of the chain
-- and an IBAN or BBAN creditor account; a domestic wire through a clearing system names its id.
pub validate_route_rules-ok :
    (i : CashSettlementInstruction)
    → (validate_route_rules i ≡ ok tt)
      ↔ ((i.funding_account.owning_lob ≡ i.owning_lob) × IsRoute i i.wire_scope)
validate_route_rules-ok i = rules_by_scope i i.wire_scope refl

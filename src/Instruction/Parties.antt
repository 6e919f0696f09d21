-- ===== src/Instruction/Parties.antt =====
-- The parties, accounts and agents of an instruction (instruction-service/src/inst/models/instruction.py),
-- with the field constraints that pydantic enforces when a value is built.
use Prim.Native.String.{count}
use security_event_rag_demo.Base.{
  ℕ, String, Bool, true, ◌&&◌, Option, none, some, List, leb, length, if◌then◌else◌, truthy,
  or_empty, ◌<>◌,
}
use security_event_rag_demo.Base.Json.{Fields}
use security_event_rag_demo.Instruction.Enums.{
  AccountIdentificationScheme, FinancialInstitutionIdScheme,
}
use security_event_rag_demo.Instruction.Lob.{is_valid_owning_lob}

-- `Field(min_length=lo, max_length=hi)`
abbrev pub within : ℕ → ℕ → String → Bool
within lo hi s = leb lo (count s) && leb (count s) hi

-- The same on an optional field, which `None` always meets.
abbrev pub within_opt : ℕ → ℕ → Option String → Bool
within_opt lo hi none = true
within_opt lo hi (some s) = within lo hi s

-- A constraint on a nested optional value.
abbrev pub check_opt : {A : Type 0} → (A → Bool) → Option A → Bool
check_opt c none = true
check_opt c (some a) = c a

pub record PostalAddress : Type 0 where
  pub street_name : Option String
  pub building_number : Option String
  pub post_code : Option String
  pub town_name : Option String
  pub country_sub_division : Option String
  pub country : String
  pub address_lines : List String

unfoldable pub check_address : PostalAddress → Bool
check_address a =
    within_opt 0 70 a.street_name
    && within_opt 0 16 a.building_number
    && within_opt 0 16 a.post_code
    && within_opt 0 35 a.town_name
    && within_opt 0 35 a.country_sub_division
    && within 2 2 a.country
    && leb (length a.address_lines) 3

pub record PartyIdentification : Type 0 where
  pub name : String
  pub postal_address : Option PostalAddress
  pub organisation_identification : Option String
  pub country_of_residence : Option String

unfoldable pub check_party : PartyIdentification → Bool
unfolding check_address
check_party p =
    within 1 140 p.name
    && check_opt check_address p.postal_address
    && within_opt 0 35 p.organisation_identification
    && within_opt 2 2 p.country_of_residence

pub record CashAccount : Type 0 where
  pub identification_scheme : AccountIdentificationScheme
  pub identification : String
  pub currency : Option String
  pub name : Option String

unfoldable pub check_account : CashAccount → Bool
check_account a =
    within 1 34 a.identification && within_opt 3 3 a.currency && within_opt 0 70 a.name

pub record FinancialInstitutionIdentification : Type 0 where
  pub scheme : FinancialInstitutionIdScheme
  pub identification : String
  pub name : Option String
  pub clearing_system_id : Option String

unfoldable pub check_institution : FinancialInstitutionIdentification → Bool
check_institution f =
    within 1 35 f.identification && within_opt 0 140 f.name && within_opt 0 35 f.clearing_system_id

pub record BranchAndFinancialInstitutionIdentification : Type 0 where
  pub financial_institution : FinancialInstitutionIdentification
  pub name : Option String
  pub country : Option String

unfoldable pub check_branch : BranchAndFinancialInstitutionIdentification → Bool
unfolding check_institution
check_branch b =
    check_institution b.financial_institution && within_opt 0 140 b.name && within_opt 2 2 b.country

pub record AgentWithAccount : Type 0 where
  pub agent : BranchAndFinancialInstitutionIdentification
  pub account : Option CashAccount

unfoldable pub check_hop : AgentWithAccount → Bool
unfolding check_branch check_account
check_hop h = check_branch h.agent && check_opt check_account h.account

pub record InstructionForAgent : Type 0 where
  pub code : Option String
  pub instruction_information : Option String

unfoldable pub check_agent_instruction : InstructionForAgent → Bool
check_agent_instruction i = within_opt 0 4 i.code && within_opt 0 140 i.instruction_information

pub record FundingAccount : Type 0 where
  pub account_id : String
  pub account_name : Option String
  pub owning_lob : String

-- `OwningLob` and `_validate_owning_lob`
unfoldable pub check_owning_lob : String → Bool
check_owning_lob s = within 1 64 s && is_valid_owning_lob s

unfoldable pub check_funding_account : FundingAccount → Bool
unfolding check_owning_lob
check_funding_account a =
    within 1 64 a.account_id && within_opt 0 256 a.account_name && check_owning_lob a.owning_lob

pub record UserReference : Type 0 where
  pub user_id : String
  pub given_name : Option String
  pub family_name : Option String
  pub title : String
  pub lob : Option String
  pub roles : List String
  pub supervisor_id : Option String

-- `UserReference.validate_lob`
unfoldable pub check_user : UserReference → Bool
unfolding check_owning_lob
check_user u = check_opt check_owning_lob u.lob

-- `UserReference.display_name`
unfoldable pub display_name : UserReference → String
display_name u =
    if truthy u.family_name && truthy u.given_name
    then or_empty u.family_name <> ", " <> or_empty u.given_name <> " (" <> u.user_id <> ")"
    else u.user_id

-- Timestamps are `datetime` values, as microseconds.
pub record LifecycleEvent : Type 0 where
  pub event_id : String
  pub action : String
  pub actor_user_id : String
  pub timestamp : ℕ
  pub details : Fields

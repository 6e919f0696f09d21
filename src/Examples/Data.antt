-- ===== src/Examples/Data.antt =====
-- A draft, its collection, a world that allows everything, and the service in it.
use security_event_rag_demo.Base.{ℕ, suc, String, true, false, none, some, List, [], ◌∷◌}
use security_event_rag_demo.Base.Json.{field, end, str, flag}
use security_event_rag_demo.Clients.Http.{HttpResponse}
use security_event_rag_demo.Instruction.Enums.{
  InstructionType, InstructionStatus, WireScope, ChargeBearer, AccountIdentificationScheme,
  FinancialInstitutionIdScheme,
}
use security_event_rag_demo.Instruction.Parties.{
  PartyIdentification, CashAccount, BranchAndFinancialInstitutionIdentification,
}
use security_event_rag_demo.Instruction.Subject.{Subject, CreateInstructionRequest, user_reference}
use security_event_rag_demo.Instruction.Model.{CashSettlementInstruction}
use security_event_rag_demo.Instruction.Storage.{Document, versioned_instruction_to_document}
use security_event_rag_demo.Instruction.Platform.{CommitResult, Platform, Settings, State}
use security_event_rag_demo.Instruction.Repository.Appends.{RepositoryLaws}
use security_event_rag_demo.Instruction.Service.Persist.{Caller}
use security_event_rag_demo.Instruction.Service.Build.{draft_of}
use security_event_rag_demo.Examples.Memory.{
  memory, memory-laws, unique_keys, ticking, current_exists, current_unique, key,
}

abbrev pub alice : Subject
alice = record {
  user_id = "alice";
  given_name = some "Alice";
  family_name = some "Ng";
  title = "Associate";
  lob = some "FICC";
  roles = "INSTRUCTION_CREATOR" ∷ [];
  groups = [];
  supervisor_id = none;
  delegated_by = none;
  delegated_by_roles = [];
}

abbrev party : String → PartyIdentification
party name = record {
  name = name;
  postal_address = none;
  organisation_identification = none;
  country_of_residence = none;
}

abbrev account : String → CashAccount
account number = record {
  identification_scheme = AccountIdentificationScheme.iban;
  identification = number;
  currency = none;
  name = none;
}

abbrev bank : String → BranchAndFinancialInstitutionIdentification
bank bic = record {
  financial_institution = record {
    scheme = FinancialInstitutionIdScheme.bicfi;
    identification = bic;
    name = none;
    clearing_system_id = none;
  };
  name = none;
  country = none;
}

abbrev pub wire : CreateInstructionRequest
wire = record {
  instruction_type = InstructionType.standing;
  owning_lob = "FICC";
  wire_scope = WireScope.international;
  currency = "USD";
  funding_account = record { account_id = "F-1"; account_name = none; owning_lob = "FICC" };
  initiating_party = none;
  ultimate_debtor = none;
  debtor = party "Debtor";
  debtor_account = account "DE1";
  debtor_agent = bank "DEUTDEFF";
  debtor_agent_account = none;
  instructing_agent = none;
  instructed_agent = none;
  previous_instructing_agents = [];
  intermediary_agents = [];
  creditor_agent = bank "CHASUS33";
  creditor_agent_account = none;
  creditor = party "Creditor";
  creditor_account = account "US1";
  ultimate_creditor = none;
  charge_bearer = ChargeBearer.shar;
  instructions_for_creditor_agent = [];
  instructions_for_next_agent = [];
  effective_date = "k";
  end_date = "kk";
}

abbrev pub draft : CashSettlementInstruction
draft = draft_of wire "I-1" InstructionStatus.draft (user_reference alice) 1 2 1 1

-- Every answer allows, and carries an id and a session.
abbrev pub answer : HttpResponse
answer = record {
  status_code = 200;
  text = "";
  body =
      field "allowed" (flag true)
        (field "sequence_id" (str "I-1") (field "sessionToken" (str "session") end));
}

abbrev pub world : Platform
world = record {
  instructions = memory current_exists;
  events = memory (λ d ds. false);
  iso = ticking;
  json_datetime = key;
  utc_date = key;
  Outside = ℕ;
  now = λ t. (t, suc t);
  uuid4 = λ t. ("u", t);
  commit = λ t. (CommitResult.committed, t);
  python_str = λ v. "";
  post = λ url headers payload t. (some answer, t);
  send = λ topic message t. (true, t);
}

pub world-laws : RepositoryLaws world
world-laws = record {
  collection = memory-laws current_exists;
  unique_ids = unique_keys 0;
  unique_current = current_unique;
}

abbrev pub settings : Settings
settings = record {
  authorization_service_url = "http://authz/";
  sequence_service_url = "http://sequence";
  application_name = "instruction-service";
  version = "1.0";
  security_event_excluded_user_ids = "svc, ";
  kafka_security_events_topic = "security-events";
  kafka_instruction_topic = "instructions";
  zitadel_service_pat = none;
  zitadel_url = none;
  zitadel_host_header = end;
  service_user_id = "svc";
  service_user_password = "";
}

abbrev pub nobody : Caller
nobody = record { bearer_token = none; session_id = none }

abbrev pub first_document : Document
first_document = versioned_instruction_to_document ticking draft 1 1 none

-- The service with some documents.
abbrev pub holding : List Document → State world
holding ds = record {
  instructions = ds;
  events = [];
  session_token = some "session";
  session_id = none;
  producer_started = true;
  published = [];
  facts = [];
  outside = 3;
}

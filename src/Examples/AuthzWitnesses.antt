-- ===== src/Examples/AuthzWitnesses.antt =====
-- The theorems on the authorization service at concrete inputs.
use security_event_rag_demo.Base.{ℕ, refl, true, none, some, [], ◌∷◌, suc, All, contains}
use security_event_rag_demo.Base.Json.{field, end, flag, get}
use security_event_rag_demo.Authz.Sorting.{insert_by, sorted_by}
use security_event_rag_demo.Authz.Records.{SeedUser, to_subject, subject_display_name}
use security_event_rag_demo.Authz.Directory.{
  is_funding_approver, candidates_of, funding_approver_candidates,
}
use security_event_rag_demo.Authz.Opa.{
  OpaPlatform, post_data, as_string_list, can_approve, approval_basis, can_approve_payment,
}
use security_event_rag_demo.Authz.Eligibility.{
  EligibilityRequest, EligibilityResponse, eligible_rows, ask_approval, payment_answer,
  eligible_approvers_for_payment,
}
use security_event_rag_demo.Authz.Eligibility.Candidates.{Eligible, eligible_approvers-Eligible}

-- A policy engine that allows everything.
abbrev allowing : OpaPlatform
allowing = record {
  Outside = ℕ;
  post = λ url headers body n. (
    some (record { status_code = 200; text = ""; body = field "result" (flag true) end }),
    suc n,
  );
  python_str = λ v. "";
  opa_url = "http://opa";
}

abbrev dana : SeedUser
dana = record {
  user_id = "dana";
  given_name = "Dana";
  family_name = "Fox";
  title = "Director";
  roles = "FUNDING_APPROVER" ∷ [];
  lob = none;
  groups = "MIDDLE_OFFICE" ∷ [];
  supervisor_id = none;
  covering_lobs = "FICC" ∷ [];
}

-- She has no role.
abbrev erin : SeedUser
erin = record dana { user_id = "erin"; given_name = "Erin"; roles = [] }

abbrev inquiry : EligibilityRequest
inquiry = record {
  payment = record {
    payment_id = "P-1";
    instruction_id = "I-1";
    instruction_version = 3;
    status = "SUBMITTED";
    amount = "5.0";
    currency = "USD";
    owning_lob = "FICC";
    created_by_user_id = "bob";
    created_by_supervisor_id = none;
  };
  instruction_status = "STANDING";
  instruction_end_date = "";
}

abbrev found : EligibilityResponse
found = record {
  payment_id = "P-1";
  instruction_id = "I-1";
  payment_status = "SUBMITTED";
  amount = "5.0";
  currency = "USD";
  owning_lob = "FICC";
  instruction_status = "STANDING";
  evaluated_at = "now";
  eligible =
      record {
        user_id = "dana";
        display_name = "Fox, Dana (dana)";
        title = "Director";
        allow_basis = [];
      }
      ∷ [];
  candidates_evaluated = 1;
}

eligible_approvers-Eligible_example :
    All (Eligible allowing (λ n. ("now", n)) inquiry (dana ∷ erin ∷ [])) found.eligible
unfolding eligible_approvers_for_payment eligible_rows ask_approval payment_answer
    funding_approver_candidates candidates_of is_funding_approver contains sorted_by insert_by
    to_subject subject_display_name can_approve_payment can_approve approval_basis post_data
    as_string_list get
eligible_approvers-Eligible_example =
    eligible_approvers-Eligible allowing (λ n. ("now", n)) inquiry (dana ∷ erin ∷ []) 0 found refl

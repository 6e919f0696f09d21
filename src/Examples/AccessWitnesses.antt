-- ===== src/Examples/AccessWitnesses.antt =====
-- The theorems on the callers of the payment service and on its routes at concrete inputs.
use security_event_rag_demo.Base.{ℕ, String, ◌≡◌, ◌↔◌, refl, none, some, [], ◌∷◌, suc}
use security_event_rag_demo.Base.Exec.{Error, ok, err}
use security_event_rag_demo.Base.Text.{strip, split_commas, stripped_parts, lower, after_space}
use security_event_rag_demo.Base.Json.{Fields, object, field, str, end, get}
use security_event_rag_demo.Payment.Model.{PaymentSubject, new_payment}
use security_event_rag_demo.Payment.Service.Operations.{get_or_404}
use security_event_rag_demo.Payment.Service.Silent.{payment_documents}
use security_event_rag_demo.Payment.Repository.{find_payment}
use security_event_rag_demo.Payment.Requests.{PaymentRequest}
use security_event_rag_demo.Payment.Access.{
  AccessHeaders, has_bearer, token_of, uses_token, subject_of_token, get_subject,
  get_compliance_subject,
}
use security_event_rag_demo.Payment.Access.Platform.{AccessPlatform, AccessSettings, unreachable}
use security_event_rag_demo.Payment.Access.Metadata.{
  decode_metadata_values, parse_json_list, described_subject, subject_from_metadata,
}
use security_event_rag_demo.Payment.Access.Tokens.{
  decode_token, from_claims, subject_from_bearer_token,
}
use security_event_rag_demo.Payment.Access.Known.{IsKnown}
use security_event_rag_demo.Payment.Access.Answers.{
  get_subject-IsKnown, get_subject-token, get_compliance_subject_iff, MayInquire,
}
use security_event_rag_demo.Payment.Routes.{change_payment_route}
use security_event_rag_demo.Payment.Routes.Conflicts.{change_payment_route-conflict}
use security_event_rag_demo.Instruction.Service.Build.{draft_of}
use security_event_rag_demo.Instruction.Repository.Appends.{documents}
use security_event_rag_demo.Instruction.Routes.{LifecycleRoute, lifecycle_action}
use security_event_rag_demo.Instruction.Routes.Conflicts.{lifecycle_action-conflict}
use security_event_rag_demo.Examples.Data.{alice, world, settings}
use security_event_rag_demo.Examples.Witnesses.{draft_version, reads_draft, start}
use security_event_rag_demo.Examples.PaymentData.{
  bob, payment_world, payment_settings, holding_payments, first_payment,
}

-- Every token is good, and says who its bearer is.
abbrev carol_claims : Fields
carol_claims =
    field "urn:zitadel:iam:user:metadata"
      (object (
        field "subject_user_id" (str "carol")
          (field "title" (str "Analyst") (field "roles" (str "COMPLIANCE_ANALYST") end))))
      end

abbrev issuer : AccessPlatform
issuer = record {
  Outside = ℕ;
  decode = λ token iss aud n. (some carol_claims, suc n);
  get = λ url headers params n. (unreachable "down", suc n);
  post = λ url headers body n. (unreachable "down", suc n);
  b64decode = λ s. none;
  loads = λ s. none;
  python_str = λ v. "";
  netloc = λ url. url;
}

abbrev access_settings : AccessSettings
access_settings = record {
  auth_mode = "auto";
  oidc_issuer_url = some "http://issuer";
  oidc_internal_url = none;
  oidc_audience = none;
  zitadel_internal_url = none;
  zitadel_service_pat = none;
  compliance_roles = "COMPLIANCE_ANALYST,COMPLIANCE_OFFICER,PLATFORM_ADMIN";
}

-- A request with a token, and headers that name someone else.
abbrev token_request : AccessHeaders
token_request = record {
  authorization = some "Bearer abc";
  x_session_id = none;
  x_subject_user_id = some "mallory";
  x_subject_title = some "Admin";
  x_subject_roles = some "PLATFORM_ADMIN";
  x_subject_lob = none;
  x_subject_supervisor_id = none;
  x_subject_groups = none;
  x_subject_covering_lobs = none;
}

abbrev plain_request : AccessHeaders
plain_request = record token_request {
  x_subject_user_id = none;
  x_subject_title = none;
  x_subject_roles = none;
}

abbrev carol : PaymentSubject
carol = record {
  user_id = "carol";
  given_name = none;
  family_name = none;
  title = "Analyst";
  lob = none;
  roles = "COMPLIANCE_ANALYST" ∷ [];
  groups = [];
  supervisor_id = none;
  covering_lobs = [];
}

get_subject-IsKnown_example : IsKnown carol
unfolding get_subject uses_token has_bearer lower subject_of_token token_of after_space strip
    subject_from_bearer_token decode_token from_claims get decode_metadata_values parse_json_list
    stripped_parts split_commas described_subject subject_from_metadata
get_subject-IsKnown_example = get_subject-IsKnown issuer access_settings token_request 0 carol refl

get_subject-token_example :
    get_subject issuer access_settings token_request
    ≡ get_subject issuer access_settings plain_request
unfolding uses_token has_bearer lower
get_subject-token_example =
    get_subject-token issuer access_settings token_request plain_request refl refl refl

get_compliance_subject_iff_example :
    ((get_compliance_subject issuer access_settings token_request 0).0 ≡ ok carol) ↔ (
      ((get_subject issuer access_settings token_request 0).0 ≡ ok carol)
      × MayInquire access_settings carol)
get_compliance_subject_iff_example =
    get_compliance_subject_iff issuer access_settings token_request 0 carol

change_payment_route-conflict_example :
    ((message : String) × ((change_payment_route payment_world payment_settings
          PaymentRequest.approve_request "P-1" bob none none
          (holding_payments (first_payment ∷ []))).0
        ≡ err (Error.http_exception 409 message)))
    × (payment_documents payment_world
          (change_payment_route payment_world payment_settings PaymentRequest.approve_request "P-1"
            bob none none
            (holding_payments (first_payment ∷ []))).1
        ≡ payment_documents payment_world (holding_payments (first_payment ∷ [])))
unfolding get_or_404 find_payment new_payment
change_payment_route-conflict_example =
    change_payment_route-conflict payment_world payment_settings PaymentRequest.approve_request
      "P-1" bob none none (holding_payments (first_payment ∷ [])) first_payment refl refl

lifecycle_action-conflict_example :
    ((message : String) × ((lifecycle_action world settings LifecycleRoute.approve_route "I-1" alice
          none none start).0
        ≡ err (Error.http_exception 409 message)))
    × (documents world
          (lifecycle_action world settings LifecycleRoute.approve_route "I-1" alice none none
            start).1
        ≡ documents world start)
unfolding draft_of
lifecycle_action-conflict_example =
    lifecycle_action-conflict world settings LifecycleRoute.approve_route "I-1" alice none none
      start draft_version reads_draft refl

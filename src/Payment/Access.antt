-- ===== src/Payment/Access.antt =====
-- Who calls the payment service (payment-service/src/ps/dependencies.py): the subject of a request,
-- from its bearer token or from its `X-Subject-*` headers.
pub mod Metadata
pub mod Platform
pub mod Tokens
pub mod Known
pub mod Answers
use security_event_rag_demo.Base.{
  String, ◌<>◌, Bool, true, false, not, ◌&&◌, ◌||◌, Option, none, some, List, [], ◌∷◌, truthy,
  or_empty, str_eq, contains, any, starts_with, if◌then◌else◌,
}
use security_event_rag_demo.Base.Text.{join, lower, after_space, strip, stripped_parts}
use security_event_rag_demo.Base.Exec.{
  Error, Exec, Result, ok, err, pure, raise, lift, raise_if, ◌>>=◌, ◌>>◌,
}
use security_event_rag_demo.Payment.Model.{PaymentSubject}
use security_event_rag_demo.Payment.Service.Queries.{is_platform_admin}
use security_event_rag_demo.Payment.Access.Platform.{AccessPlatform, AccessSettings}
use security_event_rag_demo.Payment.Access.Tokens.{subject_from_bearer_token}

pub record AccessHeaders : Type 0 where
  pub authorization : Option String
  pub x_session_id : Option String
  pub x_subject_user_id : Option String
  pub x_subject_title : Option String
  pub x_subject_roles : Option String
  pub x_subject_lob : Option String
  pub x_subject_supervisor_id : Option String
  pub x_subject_groups : Option String
  pub x_subject_covering_lobs : Option String

-- `authorization is not None and authorization.lower().startswith("bearer ")`
unfoldable pub has_bearer : Option String → Bool
has_bearer none = false
has_bearer (some a) = starts_with (lower a) "bearer "

-- `authorization.split(" ", 1)[1].strip()`
unfoldable pub token_of : Option String → String
token_of a = strip (after_space (or_empty a))

unfoldable pub parts_opt : Option String → List String
parts_opt x = if truthy x then stripped_parts (or_empty x) else []

-- `_subject_from_headers`: the subject of the roles, and the whole.
unfoldable pub header_subject : AccessHeaders → List String → PaymentSubject
unfolding parts_opt
header_subject h roles = record {
  user_id = or_empty h.x_subject_user_id;
  given_name = none;
  family_name = none;
  title = or_empty h.x_subject_title;
  lob = h.x_subject_lob;
  roles = roles;
  groups = parts_opt h.x_subject_groups;
  supervisor_id = h.x_subject_supervisor_id;
  covering_lobs = parts_opt h.x_subject_covering_lobs;
}

unfoldable pub subject_from_headers : AccessHeaders → Result PaymentSubject
unfolding header_subject
subject_from_headers h = elim (stripped_parts (or_empty h.x_subject_roles)) [
  | [] ↦ err (Error.http_exception 400 "X-Subject-Roles must not be empty")
  | role ∷ roles ↦ ok (header_subject h (role ∷ roles))
]

-- The names of the required headers that are missing or empty.
unfoldable pub missing_headers : AccessHeaders → List String
missing_headers h =
    let roles = if truthy h.x_subject_roles then [] else "X-Subject-Roles" ∷ [] in
    let titled = if truthy h.x_subject_title then roles else "X-Subject-Title" ∷ roles in
    if truthy h.x_subject_user_id then titled else "X-Subject-User-Id" ∷ titled

unfoldable pub checked_headers : AccessHeaders → Result PaymentSubject
unfolding missing_headers subject_from_headers
checked_headers h = elim (missing_headers h) [
  | [] ↦ subject_from_headers h
  | name ∷ names ↦
      err (Error.http_exception 401 ("Missing required headers: " <> join ", " (name ∷ names)))
]

module _ (p : AccessPlatform) (cfg : AccessSettings) where
  -- `use_jwt`
  unfoldable pub uses_token : Option String → Bool
  uses_token a = str_eq cfg.auth_mode "jwt" || (str_eq cfg.auth_mode "auto" && has_bearer a)

  unfoldable pub subject_of_token : Option String → Option String → Exec p.Outside PaymentSubject
  unfolding has_bearer token_of
  subject_of_token a session = do
    raise_if (not (has_bearer a)) (Error.http_exception 401 "Authorization Bearer token required")
    raise_if (not (truthy cfg.oidc_issuer_url))
        (Error.http_exception 500 "OIDC issuer is not configured")
    subject_from_bearer_token p cfg (token_of a) session

  unfoldable pub get_subject : AccessHeaders → Exec p.Outside PaymentSubject
  unfolding uses_token subject_of_token checked_headers
  get_subject h =
      if uses_token h.authorization
      then subject_of_token h.authorization h.x_session_id
      else if str_eq cfg.auth_mode "headers" || not (has_bearer h.authorization)
      then lift (checked_headers h)
      else raise (Error.http_exception 401 "unsupported authorization mode")

  -- `settings.compliance_role_set.intersection(subject.roles)` is not empty.
  unfoldable pub has_compliance_role : PaymentSubject → Bool
  has_compliance_role subject = any (contains subject.roles) (stripped_parts cfg.compliance_roles)

  unfoldable pub get_compliance_subject : AccessHeaders → Exec p.Outside PaymentSubject
  unfolding get_subject has_compliance_role
  get_compliance_subject h = do
    subject ← get_subject h
    raise_if
        (not (is_platform_admin subject.roles subject.groups) && not (has_compliance_role subject))
        (Error.http_exception 403 "COMPLIANCE_ANALYST role required for policy inquiry")
    pure subject

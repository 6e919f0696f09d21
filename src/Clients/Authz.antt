-- ===== src/Clients/Authz.antt =====
-- `AuthzClient` (shared/authz_client/src/authz_client/client.py).
pub mod FailClosed
use security_event_rag_demo.Base.{
  String, ◌<>◌, Bool, ◌&&◌, Option, none, some, List, leb, truthy, if◌then◌else◌,
}
use security_event_rag_demo.Base.Decimal.{decimal}
use security_event_rag_demo.Base.Exec.{Error, Result, ok, err, Exec, raise}
use security_event_rag_demo.Base.Json.{Fields, field, end, str, object, get, put}
use security_event_rag_demo.Clients.Http.{
  HttpResponse, Transport, truth, text_list, header_opt, rstrip_slash,
}

pub record PolicyDecision : Type 0 where
  pub allowed : Bool
  pub allow_basis : List String
  pub violations : List String
  pub is_alert : Bool

-- The tokens of a call: the service's own session, and the user's for a delegated call.
pub record Tokens : Type 0 where
  pub service_token : Option String
  pub service_session_id : Option String
  pub user_token : Option String
  pub user_session_id : Option String

abbrev bearer : Option String → Option String
bearer none = none
bearer (some t) = if truthy (some t) then some ("Bearer " <> t) else none

-- `_obo_headers`
unfoldable pub obo_headers : Tokens → Fields
obo_headers t = header_opt "Authorization" (bearer t.service_token) (
    header_opt "X-Session-Id" t.service_session_id (
      header_opt "X-On-Behalf-Of" t.user_token
        (header_opt "X-On-Behalf-Of-Session-Id" t.user_session_id end)))

-- `_service_headers`
unfoldable pub service_headers : Tokens → Fields
service_headers t =
    header_opt "Authorization" (bearer t.service_token)
      (header_opt "X-Session-Id" t.service_session_id end)

abbrev pub decision_with :
    Fields → Result (List String) → Result (List String) → Result PolicyDecision
decision_with body (err e) violations = err e
decision_with body (ok basis) (err e) = err e
decision_with body (ok basis) (ok violations) = ok (record {
  allowed = truth (get "allowed" body);
  allow_basis = basis;
  violations = violations;
  is_alert = truth (get "is_alert" body);
})

unfoldable pub decision_of : Fields → Result PolicyDecision
unfolding text_list
decision_of body =
    decision_with body (text_list (get "allow_basis" body)) (text_list (get "violations" body))

-- The answer of `_post`.
unfoldable pub read_decision : String → Option HttpResponse → Result PolicyDecision
unfolding decision_of
read_decision base none =
    err (Error.authz_service_unavailable ("authorization-service unreachable at " <> base))
read_decision base (some r) =
    if leb 500 r.status_code
    then err (
        Error.authz_service_unavailable
          ("authorization-service error (" <> decimal r.status_code <> "): " <> r.text))
    else if leb 400 r.status_code
    then err (
        Error.authz_client_error
          ("authorization-service rejected request (" <> decimal r.status_code <> "): " <> r.text))
    else decision_of r.body

module _ {O : Type 0} (post : Transport O) (base_url : String) where
  -- `_post`
  unfoldable pub post_decision : String → Fields → Fields → Exec O PolicyDecision
  unfolding read_decision
  post_decision path payload headers o =
      let base = rstrip_slash base_url in
      let answer = post (base <> path) headers payload o in (read_decision base answer.0, answer.1)

  -- The delegated call if both tokens are there; otherwise the subject goes into the payload.
  unfoldable pub evaluate_instruction :
      String → Fields → Fields → Tokens → Option Fields → Exec O PolicyDecision
  unfolding post_decision
  evaluate_instruction action instruction account t subject =
      let payload =
        field "action" (str action)
          (field "instruction" (object instruction) (field "account" (object account) end)) in
      if truthy t.user_token && truthy t.service_token
      then post_decision "/api/v1/authorization/instructions/evaluate" payload (obo_headers t)
      else elim subject [
        | none ↦
            raise (Error.authz_client_error "subject is required when OBO tokens are not provided")
        | some s ↦
            post_decision "/api/v1/authorization/instructions/evaluate"
              (put "subject" (object s) payload) (service_headers t)
      ]

  unfoldable pub evaluate_payment :
      String → Fields → String → String → Tokens → Option Fields → Exec O PolicyDecision
  unfolding post_decision
  evaluate_payment action payment end_date status t subject =
      let payload = field "action" (str action) (
        field "payment" (object payment) (
          field "instruction_end_date" (str end_date)
            (field "instruction_status" (str status) end))) in
      if truthy t.user_token && truthy t.service_token
      then post_decision "/api/v1/authorization/payments/evaluate" payload (obo_headers t)
      else elim subject [
        | none ↦
            raise (Error.authz_client_error "subject is required when OBO tokens are not provided")
        | some s ↦
            post_decision "/api/v1/authorization/payments/evaluate"
              (put "subject" (object s) payload) (service_headers t)
      ]

-- ===== src/Payment/IlmClient.antt =====
-- `IlmClient` (payment-service/src/ps/ilm_client.py): the payment service's calls of the instruction
-- service's REST API.
use Prim.Native.String.{◌∷◌}
use security_event_rag_demo.Base.{
  ℕ, zero, suc, String, ◌<>◌, ◌==◌, not, ◌&&◌, Option, none, some, truthy, or_empty, if◌then◌else◌,
}
use security_event_rag_demo.Base.Decimal.{decimal}
use security_event_rag_demo.Base.Exec.{Error, Result, ok, err, pure, gets, lift, ◌>>=◌, ◌>>◌}
use security_event_rag_demo.Base.Json.{Fields, field, end, str}
use security_event_rag_demo.Clients.Http.{HttpResponse, is_success, header_opt, rstrip_slash}
use security_event_rag_demo.Payment.Platform.{PaymentPlatform, PaymentSettings, beyond, answering}
use security_event_rag_demo.Payment.Identity.{Login, ensure_session}

-- `s[:n]`
unfoldable pub prefix : ℕ → String → String
prefix zero s = ""
prefix (suc n) String.[] = ""
prefix (suc n) (c ∷ s) = c ∷ prefix n s

-- `f"Bearer {token}"`, where there is a token
abbrev pub bearer_of : Option String → Option String
bearer_of t = if truthy t then some ("Bearer " <> or_empty t) else none

-- The headers of a call, from the service's session and the user's.
unfoldable pub delegated_headers :
    Option String → Option String → Option String → Option String → Fields
delegated_headers svc_token svc_session bearer_token session_id =
    if truthy svc_token && truthy bearer_token
    then header_opt "Authorization" (bearer_of svc_token) (
        header_opt "X-Session-Id" svc_session (
          header_opt "X-On-Behalf-Of" bearer_token
            (header_opt "X-On-Behalf-Of-Session-Id" session_id end)))
    else header_opt "Authorization" (bearer_of bearer_token)
        (header_opt "X-Session-Id" session_id end)

abbrev http_failure : Option HttpResponse → Error
http_failure none = Error.http_error "request failed"
http_failure (some r) = Error.http_error (decimal r.status_code <> " error")

abbrev missing_instruction : String → Error
missing_instruction id = Error.instruction_not_found ("instruction " <> id <> " not found")

-- The answer of `get_instruction`.
unfoldable pub read_instruction : String → Option HttpResponse → Result Fields
read_instruction id none = err (http_failure none)
read_instruction id (some r) =
    if r.status_code == 404
    then err (missing_instruction id)
    else if is_success r.status_code
    then ok r.body
    else err (http_failure (some r))

-- The answer of `mark_used`.
unfoldable pub read_marked : String → Option HttpResponse → Result Fields
read_marked id none = err (http_failure none)
read_marked id (some r) =
    if r.status_code == 404
    then err (missing_instruction id)
    else if r.status_code == 409
    then err
        (Error.instruction_state ("instruction " <> id <> " cannot be marked USED: " <> r.text))
    else if is_success r.status_code
    then ok r.body
    else err (http_failure (some r))

module _ (p : PaymentPlatform) (cfg : PaymentSettings) where
  -- `_auth_headers`
  unfoldable pub auth_headers : Option String → Option String → Login p cfg Fields
  auth_headers bearer_token session_id = do
    before ← gets (λ t. t.token)
    (if truthy bearer_token && not (truthy before) then ensure_session p cfg else pure tt)
    svc_token ← gets (λ t. t.token)
    svc_session ← gets (λ t. t.session_id)
    pure (delegated_headers svc_token svc_session bearer_token session_id)

  abbrev instruction_url : String → String
  instruction_url id = rstrip_slash cfg.ilm_url <> "/api/v1/instructions/" <> id

  unfoldable pub get_instruction_as_user :
      String → Option String → Option String → Login p cfg Fields
  get_instruction_as_user id bearer_token session_id = do
    headers ← auth_headers bearer_token session_id
    answer ← beyond p (answering p (p.get (instruction_url id) headers))
    lift (read_instruction id answer)

  unfoldable pub get_instruction_as_service : String → Login p cfg Fields
  get_instruction_as_service id = do
    ensure_session p cfg
    svc_token ← gets (λ t. t.token)
    svc_session ← gets (λ t. t.session_id)
    let headers =
        header_opt "Authorization" (bearer_of svc_token) (header_opt "X-Session-Id" svc_session end)
    answer ← beyond p (answering p (p.get (instruction_url id) headers))
    lift (read_instruction id answer)

  unfoldable pub mark_used : String → String → Option String → Option String → Login p cfg Fields
  mark_used id payment_id bearer_token session_id = do
    headers ← auth_headers bearer_token session_id
    let body =
        field "payment_reference" (str payment_id)
          (field "end_to_end_identification" (str (prefix 35 payment_id)) end)
    answer ← beyond p (answering p (p.post (instruction_url id <> "/use") headers body))
    lift (read_marked id answer)

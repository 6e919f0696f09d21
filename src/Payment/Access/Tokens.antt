-- ===== src/Payment/Access/Tokens.antt =====
-- A subject from a bearer token (payment-service/src/ps/auth.py): from its claims, from the issuer's
-- userinfo, or from the session that the token belongs to.
use security_event_rag_demo.Base.{
  String, ◌<>◌, not, Option, none, some, truthy, or_empty, if◌then◌else◌,
}
use security_event_rag_demo.Base.Exec.{
  Error, Result, ok, err, Exec, pure, raise, lift, raise_if, catch, ◌>>=◌, ◌>>◌,
}
use security_event_rag_demo.Base.Json.{
  Value, Fields, Items, str, object, array, nil, cons, field, end, get, put, merge,
}
use security_event_rag_demo.Clients.Http.{is_success, rstrip_slash, truth}
use security_event_rag_demo.Instruction.Service.Identity.{first_of_keys}
use security_event_rag_demo.Payment.Model.{PaymentSubject}
use security_event_rag_demo.Payment.Access.Platform.{
  AccessPlatform, AccessSettings, Reply, json_reply, other_reply, unreachable,
}
use security_event_rag_demo.Payment.Access.Metadata.{
  decode_metadata_values, subject_from_metadata, metadata_text, first_truthy,
}

abbrev pub metadata_claim : String
metadata_claim = "urn:zitadel:iam:user:metadata"

-- `response.raise_for_status()` and `response.json()`. The text of a failed status is httpx's.
abbrev pub payload_of : Reply → Result Fields
payload_of (json_reply status (object body)) =
    if is_success status then ok body else err (Error.http_error "status")
payload_of (json_reply status body) =
    if is_success status
    then err (Error.http_error "no attribute 'get'")
    else err (Error.http_error "status")
payload_of (other_reply status message) =
    if is_success status then err (Error.value_error message) else err (Error.http_error "status")
payload_of (unreachable message) = err (Error.http_error message)

-- `x or {}`, and then a method of a `dict`.
abbrev pub mapping_of : Value → Result Fields
mapping_of (object d) = ok d
mapping_of v = if truth v then err (Error.http_error "no attribute 'get'") else ok end

-- The loop of `_fetch_user_metadata_from_zitadel` over the entries.
abbrev pub add_entry : Value → Value → Fields → Fields
add_entry (str key) (str value) metadata = put key (str value) metadata
add_entry _ _ metadata = metadata

unfoldable pub collect_entries : Items → Fields → Result Fields
collect_entries nil metadata = ok metadata
collect_entries (cons (object e) rest) metadata =
    collect_entries rest (add_entry (get "key" e) (get "value" e) metadata)
collect_entries (cons _ rest) metadata = err (Error.http_error "no attribute 'get'")

-- `for entry in payload.get("metadata") or []`
abbrev pub entries_of : Value → Result Items
entries_of (array items) = ok items
entries_of v = if truth v then err (Error.http_error "not a list") else ok nil

-- The text of an exception.
abbrev error_text : Error → String
error_text (Error.http_error m) = m
error_text (Error.runtime_error m) = m
error_text _ = ""

-- `except ValueError as exc: raise HTTPException(401)`, and any other exception goes on.
abbrev pub as_unauthorized : Error → Error
as_unauthorized (Error.value_error m) = Error.http_exception 401 m
as_unauthorized e = e

abbrev pub as_session_refusal : Error → Error
as_session_refusal (Error.value_error m) = Error.http_exception 401 m
as_session_refusal e =
    Error.http_exception 401 ("could not resolve user from session token: " <> error_text e)

module _ (p : AccessPlatform) (cfg : AccessSettings) where
  abbrev pub Access : Type 0 → Type 0
  Access = Exec p.Outside

  oidc_base_url : Result String
  oidc_base_url =
      if truthy cfg.oidc_issuer_url
      then ok (rstrip_slash (or_empty (first_truthy cfg.oidc_internal_url cfg.oidc_issuer_url)))
      else err (Error.runtime_error "oidc_issuer_url is not configured")

  zitadel_base_url : Result String
  unfolding oidc_base_url
  zitadel_base_url =
      if truthy cfg.zitadel_internal_url
      then ok (rstrip_slash (or_empty cfg.zitadel_internal_url))
      else oidc_base_url

  zitadel_request_headers : Fields
  zitadel_request_headers =
      let host = p.netloc (or_empty cfg.oidc_issuer_url) in
      if truthy cfg.oidc_issuer_url
      then (if truthy (some host) then field "Host" (str host) end else end)
      else end

  bearer_headers : String → Fields → Fields
  unfolding zitadel_request_headers
  bearer_headers token rest =
      merge zitadel_request_headers (field "Authorization" (str ("Bearer " <> token)) rest)

  request_payload : (p.Outside → Reply × p.Outside) → Access Fields
  request_payload call o = (payload_of (call o).0, (call o).1)

  userinfo_metadata : Value → Result Fields
  userinfo_metadata (object d) = ok (decode_metadata_values p d)
  userinfo_metadata _ = err (Error.value_error "userinfo response missing metadata claim")

  -- `_fetch_userinfo_metadata`
  unfoldable pub fetch_userinfo_metadata : String → Access Fields
  unfolding oidc_base_url bearer_headers request_payload userinfo_metadata
  fetch_userinfo_metadata token = do
    base ← lift oidc_base_url
    payload ← request_payload (
        p.get (base <> "/oidc/v1/userinfo") (bearer_headers token end)
          (field "scope" (str metadata_claim) end))
    lift (userinfo_metadata (get metadata_claim payload))

  -- `_fetch_user_metadata_from_zitadel`
  unfoldable pub fetch_user_metadata : String → Access Fields
  unfolding zitadel_base_url bearer_headers request_payload collect_entries
  fetch_user_metadata zitadel_user_id = do
    raise_if (not (truthy cfg.zitadel_service_pat))
        (Error.value_error "zitadel service PAT is not configured")
    base ← lift zitadel_base_url
    payload ← request_payload (
        p.post (base <> "/v2/users/" <> zitadel_user_id <> "/metadata/search")
          (bearer_headers (or_empty cfg.zitadel_service_pat) (
            field "Content-Type" (str "application/json")
              (field "Accept" (str "application/json") end)))
          end)
    entries ← lift (entries_of (get "metadata" payload))
    metadata ← lift (collect_entries entries end)
    pure (decode_metadata_values p metadata)

  -- The user of a session, and the metadata of a user.
  unfoldable pub session_user : String → String → Access Fields
  unfolding zitadel_base_url bearer_headers request_payload
  session_user session_id session_token = do
    raise_if (not (truthy cfg.zitadel_service_pat))
        (Error.value_error "zitadel service PAT is not configured")
    base ← lift zitadel_base_url
    payload ← request_payload (
        p.get (base <> "/v2/sessions/" <> session_id)
          (bearer_headers (or_empty cfg.zitadel_service_pat)
            (field "Accept" (str "application/json") end))
          (field "sessionToken" (str session_token) end))
    session ← lift (mapping_of (get "session" payload))
    factors ← lift (mapping_of (get "factors" session))
    lift (mapping_of (get "user" factors))

  unfoldable pub account_metadata : Fields → Access Fields
  unfolding fetch_user_metadata
  account_metadata user = do
    raise_if (not (truthy (metadata_text "id" user)))
        (Error.value_error "session response missing user id")
    fetch_user_metadata (or_empty (metadata_text "id" user))

  -- `_subject_from_session_token`
  unfoldable pub subject_from_session_token : String → String → Access PaymentSubject
  unfolding session_user account_metadata
  subject_from_session_token session_id session_token = do
    user ← session_user session_id session_token
    metadata ← account_metadata user
    lift (subject_from_metadata p metadata (metadata_text "loginName" user))

  -- The last attempt of `subject_from_bearer_token`.
  unfoldable pub from_session : String → Option String → Access PaymentSubject
  from_session token session_id =
      if truthy session_id
      then catch (subject_from_session_token (or_empty session_id) token)
          (λ e. raise (as_session_refusal e))
      else raise (Error.http_exception 401 "invalid access token")

  -- What follows a failed attempt with the userinfo.
  unfoldable pub after_userinfo : String → Option String → Error → Access PaymentSubject
  unfolding from_session
  after_userinfo token session_id (Error.value_error m) = raise (Error.http_exception 401 m)
  after_userinfo token session_id _ = from_session token session_id

  unfoldable pub from_userinfo : String → Option String → Option String → Access PaymentSubject
  unfolding fetch_userinfo_metadata after_userinfo
  from_userinfo token session_id fallback =
      catch (fetch_userinfo_metadata token >>= λ m. lift (subject_from_metadata p m fallback))
        (after_userinfo token session_id)

  -- The claims give the subject where they hold metadata.
  unfoldable pub from_claims : String → Option String → Option Fields → Access PaymentSubject
  unfolding from_userinfo
  from_claims token session_id none = from_userinfo token session_id none
  from_claims token session_id (some claims) =
      let fallback = first_of_keys "preferred_username" "sub" claims in
      elim (get metadata_claim claims) [
        | object (field k v rest) ↦
            catch
              (lift (subject_from_metadata p (decode_metadata_values p (field k v rest)) fallback))
              (λ e. raise (as_unauthorized e))
        | _ ↦ from_userinfo token session_id fallback
      ]

  unfoldable pub decode_token : String → Access (Option Fields)
  decode_token token o =
      let answer =
        p.decode token (rstrip_slash (or_empty cfg.oidc_issuer_url))
          (first_truthy cfg.oidc_audience none) o in
      (ok answer.0, answer.1)

  unfoldable pub subject_from_bearer_token : String → Option String → Access PaymentSubject
  unfolding decode_token from_claims
  subject_from_bearer_token token session_id = decode_token token >>= from_claims token session_id

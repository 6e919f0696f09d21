-- ===== src/Payment/Identity.antt =====
-- `ServiceIdentity` of the payment service (payment-service/src/ps/service_identity.py).
use security_event_rag_demo.Base.{
  ℕ, zero, suc, ◌<>◌, Option, none, some, truthy, or_empty, if◌then◌else◌,
}
use security_event_rag_demo.Base.Exec.{Exec, ok, pure, gets, modify, ◌>>=◌, ◌>>◌}
use security_event_rag_demo.Base.Json.{Fields, field, end, str, object, merge}
use security_event_rag_demo.Clients.Http.{is_success, rstrip_slash}
use security_event_rag_demo.Instruction.Service.Identity.{first_of_keys}
use security_event_rag_demo.Payment.Platform.{PaymentPlatform, PaymentSettings, Session}

module _ (p : PaymentPlatform) (cfg : PaymentSettings) where
  abbrev pub Login : Type 0 → Type 0
  Login = Exec (Session p.Outside)

  login_headers : Fields
  login_headers = merge cfg.zitadel_host_header (
      field "Authorization" (str ("Bearer " <> or_empty cfg.zitadel_service_pat)) (
        field "Content-Type" (str "application/json")
          (field "Accept" (str "application/json") end)))

  login_body : Fields
  login_body =
      field "checks"
        (object (
          field "user" (object (field "loginName" (str cfg.service_user_id) end))
            (field "password" (object (field "password" (str cfg.service_user_password) end)) end)))
        end

  -- One request; `none` is any exception, a missing URL and a bad status included.
  unfoldable pub request_session : Login (Option Fields)
  unfolding login_headers login_body
  request_session t = elim cfg.zitadel_url [
    | none ↦ (ok none, t)
    | some base ↦
        let url = rstrip_slash base <> "/v2/sessions" in
        let answer = p.post url login_headers login_body t.outside in
        let t' : Session p.Outside = record t { outside = answer.1 } in
        elim answer.0 [
          | none ↦ (ok none, t')
          | some r ↦ (ok (if is_success r.status_code then some r.body else none), t')
        ]
  ]

  -- The session of an answer; without a token the attempt has failed.
  unfoldable pub store_session : Option Fields → Session p.Outside → Session p.Outside
  store_session none t = record t { token = none; session_id = none }
  store_session (some body) t =
      let token = first_of_keys "sessionToken" "session_token" body in
      if truthy token
      then record t { token = token; session_id = first_of_keys "sessionId" "session_id" body }
      else record t { token = none; session_id = none }

  -- The loop over the attempts left. The wait between them changes nothing.
  unfoldable pub login_attempts : ℕ → Login (Unit {0})
  unfolding request_session store_session
  login_attempts zero = pure tt
  login_attempts (suc n) = do
    body ← request_session
    modify (store_session body)
    token ← gets (λ t. t.token)
    let retry = login_attempts n
    if truthy token then pure tt else retry

  unfoldable pub service_login : ℕ → Login (Unit {0})
  service_login max_attempts =
      if truthy cfg.zitadel_service_pat then login_attempts max_attempts else pure tt

  unfoldable pub ensure_session : Login (Unit {0})
  ensure_session t = if truthy t.token then (ok tt, t) else service_login 3 t

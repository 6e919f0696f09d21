-- ===== src/Instruction/Service/Identity.antt =====
-- `ServiceIdentity` (instruction-service/src/inst/service_identity.py): the service's own session.
use security_event_rag_demo.Base.{
  ℕ, zero, suc, String, ◌<>◌, Option, none, some, truthy, or_empty, if◌then◌else◌,
}
use security_event_rag_demo.Base.Exec.{ok, pure, gets, modify, ◌>>=◌, ◌>>◌}
use security_event_rag_demo.Base.Json.{Fields, field, end, str, object, get, text_of, merge}
use security_event_rag_demo.Clients.Http.{is_success, rstrip_slash}
use security_event_rag_demo.Instruction.Platform.{Platform, Settings, State, Action}

-- `body.get(a) or body.get(b)`
abbrev pub first_of_keys : String → String → Fields → Option String
first_of_keys a b body =
    if truthy (text_of (get a body)) then text_of (get a body) else text_of (get b body)

module _ (p : Platform) (cfg : Settings) where
  headers : Fields
  headers = merge cfg.zitadel_host_header (
      field "Authorization" (str ("Bearer " <> or_empty cfg.zitadel_service_pat)) (
        field "Content-Type" (str "application/json")
          (field "Accept" (str "application/json") end)))

  credentials : Fields
  credentials =
      field "checks"
        (object (
          field "user" (object (field "loginName" (str cfg.service_user_id) end))
            (field "password" (object (field "password" (str cfg.service_user_password) end)) end)))
        end

  -- One request; `none` is any exception, a missing URL and a bad status included.
  unfoldable pub request : Action p (Option Fields)
  unfolding headers credentials
  request s = elim cfg.zitadel_url [
    | none ↦ (ok none, s)
    | some base ↦
        let answer = p.post (rstrip_slash base <> "/v2/sessions") headers credentials s.outside in
        let s' : State p = record s { outside = answer.1 } in
        elim answer.0 [
          | none ↦ (ok none, s')
          | some r ↦ (ok (if is_success r.status_code then some r.body else none), s')
        ]
  ]

  -- The session of an answer; without a token the attempt has failed.
  unfoldable pub store : Option Fields → State p → State p
  store none s = record s { session_token = none; session_id = none }
  store (some body) s =
      let token = first_of_keys "sessionToken" "session_token" body in
      if truthy token
      then record s {
        session_token = token;
        session_id = first_of_keys "sessionId" "session_id" body;
      }
      else record s { session_token = none; session_id = none }

  -- The loop over the attempts left. The wait between them changes nothing.
  unfoldable pub attempts : ℕ → Action p (Unit {0})
  unfolding request store
  attempts zero = pure tt
  attempts (suc n) = do
    body ← request
    modify (store body)
    token ← gets (λ s. s.session_token)
    let retry = attempts n
    if truthy token then pure tt else retry

  unfoldable pub login : ℕ → Action p (Unit {0})
  login max_attempts = if truthy cfg.zitadel_service_pat then attempts max_attempts else pure tt

  unfoldable pub ensure_logged_in : Action p (Unit {0})
  unfolding login
  ensure_logged_in s = if truthy s.session_token then (ok tt, s) else login 3 s

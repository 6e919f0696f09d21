-- ===== src/Payment/Service/Record.antt =====
-- Authorization of an action on a payment, and what is recorded of one that succeeded (service.py).
use security_event_rag_demo.Base.{String, ◌&&◌, none, some, truthy, if◌then◌else◌}
use security_event_rag_demo.Base.Exec.{Error, pure, raise, lift, gets, catch, ◌>>=◌, ◌>>◌}
use security_event_rag_demo.Base.Json.{Value, Fields, field, end, str, texts, optional, get}
use security_event_rag_demo.Clients.Authz.{PolicyDecision, Tokens, evaluate_payment}
use security_event_rag_demo.Instruction.Authorization.{
  AuthorizationBlock, details_with_authorization,
}
use security_event_rag_demo.Instruction.Service.Persist.{Caller}
use security_event_rag_demo.Payment.Enums.{PaymentAction, payment_action_value}
use security_event_rag_demo.Payment.Model.{PaymentSubject, Payment, to_opa_payment}
use security_event_rag_demo.Payment.Authorization.{build_payment_block, payment_resource_context}
use security_event_rag_demo.Payment.Fact.{from_payment}
use security_event_rag_demo.Payment.Platform.{
  PaymentPlatform, PaymentSettings, PaymentCall, within_session, beyond, current_time, fresh_id,
}
use security_event_rag_demo.Payment.Identity.{Login, ensure_session}
use security_event_rag_demo.Payment.Events.{
  record_payment_authorized, record_payment_denial, publish_payment,
}

-- `subject.model_dump(mode="json")`
unfoldable pub dump_payment_subject : PaymentSubject → Fields
dump_payment_subject s = field "user_id" (str s.user_id) (
    field "given_name" (optional s.given_name) (
      field "family_name" (optional s.family_name) (
        field "title" (str s.title) (
          field "lob" (optional s.lob) (
            field "roles" (texts s.roles) (
              field "groups" (texts s.groups) (
                field "supervisor_id" (optional s.supervisor_id)
                  (field "covering_lobs" (texts s.covering_lobs) end))))))))

-- What the policy is told of the backing instruction.
pub record Backing : Type 0 where
  pub end_date : String
  pub status : String

module _ (p : PaymentPlatform) (cfg : PaymentSettings) where
  -- `_evaluate_policy`: on behalf of the user if both tokens are there.
  unfoldable pub evaluate_payment_policy :
      PaymentAction → PaymentSubject → Payment → Backing → Caller → Login p cfg PolicyDecision
  evaluate_payment_policy action subject payment backing caller = do
    ensure_session p cfg
    token ← gets (λ t. t.token)
    session ← gets (λ t. t.session_id)
    let delegated = truthy caller.bearer_token && truthy token
    let tokens : Tokens = record {
      service_token = token;
      service_session_id = session;
      user_token = if delegated then caller.bearer_token else none;
      user_session_id = if delegated then caller.session_id else none;
    }
    beyond p (
        evaluate_payment p.post cfg.authorization_service_url (payment_action_value action)
          (to_opa_payment backing.end_date backing.status payment) backing.end_date backing.status
          tokens (if delegated then none else some (dump_payment_subject subject)))

  -- The denial branch of `_authorize`.
  unfoldable pub deny_payment :
      PaymentAction
      → PaymentSubject
      → Payment
      → AuthorizationBlock
      → PaymentCall p AuthorizationBlock
  deny_payment action subject payment authorization = do
    record_payment_denial p cfg action subject payment authorization.summary
        (some (details_with_authorization none authorization))
    raise (Error.permission_error authorization.summary)

  -- `_authorize`
  unfoldable pub authorize_payment :
      PaymentAction → PaymentSubject → Payment → Backing → Caller → PaymentCall p AuthorizationBlock
  authorize_payment action subject payment backing caller = do
    decision ← within_session p (evaluate_payment_policy action subject payment backing caller)
    let authorization =
        build_payment_block decision subject action
          (payment_resource_context payment backing.status backing.end_date)
    if decision.allowed
        then pure authorization
        else deny_payment action subject payment authorization

  -- `_publish_payment_fact`: an exception, a fact that is refused among them, is only logged.
  unfoldable pub publish_payment_fact :
      PaymentAction → PaymentSubject → Payment → Value → PaymentCall p (Unit {0})
  publish_payment_fact action subject payment authorization = do
    fact_id ← fresh_id p
    now ← current_time p
    catch
        (do
          fact ←
              lift (from_payment p.json_datetime action subject payment authorization fact_id now)
          publish_payment p cfg fact.payment_snapshot)
        (λ e. pure tt)

  -- `_record_success`
  unfoldable pub record_success :
      PaymentAction → PaymentSubject → Payment → Fields → PaymentCall p (Unit {0})
  record_success action subject payment details = do
    record_payment_authorized p cfg action subject payment (some details)
    publish_payment_fact action subject payment (get "authorization" details)

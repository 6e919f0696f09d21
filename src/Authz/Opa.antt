-- ===== src/Authz/Opa.antt =====
-- The client of the policy engine (authorization-service/src/authz/opa.py). The engine is outside.
use security_event_rag_demo.Base.{
  String, ◌<>◌, Bool, true, false, Option, none, some, List, [], ◌∷◌, is_nonempty, if◌then◌else◌,
}
use security_event_rag_demo.Base.Exec.{Error, Exec, Result, ok, err, pure, ◌>>=◌}
use security_event_rag_demo.Base.Json.{
  Value, Fields, Items, str, array, object, nil, cons, field, end, get, put,
}
use security_event_rag_demo.Clients.Http.{HttpResponse, Transport, is_success, rstrip_slash, truth}
use security_event_rag_demo.Authz.Sorting.{sorted_by}
use security_event_rag_demo.Authz.Records.{
  AuthzSubject, opa_subject, PaymentRecord, to_opa_payment_record,
}

-- `client.post(url, json=…)` and `str(item)`.
pub record OpaPlatform : Type 1 where
  pub Outside : Type 0
  pub post : Transport Outside
  pub python_str : Value → String
  pub opa_url : String

pub record OpaDecision : Type 0 where
  pub allowed : Bool
  pub allow_basis : List String
  pub violations : List String
  pub is_alert : Bool

-- `_violation_codes`: the names of the rules that are on.
unfoldable pub enabled_keys : Fields → List String
enabled_keys end = []
enabled_keys (field key enabled rest) =
    let later = enabled_keys rest in if truth enabled then key ∷ later else later

unfoldable pub violation_codes : Value → List String
unfolding enabled_keys
violation_codes (object d) = sorted_by (λ key. key) (enabled_keys d)
violation_codes _ = []

-- `{"input": {"action": …, "subject": …, **rest}}`
unfoldable pub opa_payload : String → AuthzSubject → Fields → Fields
opa_payload action subject rest =
    field "input"
      (object (field "action" (str action) (field "subject" (object (opa_subject subject)) rest)))
      end

-- `if value: payment_input[key] = value`
abbrev put_given : String → String → Fields → Fields
put_given key value d = if is_nonempty value then put key (str value) d else d

module _ (p : OpaPlatform) where
  abbrev pub Opa : Type 0 → Type 0
  Opa = Exec p.Outside

  result_of : Option HttpResponse → Result Value
  result_of none = err (Error.http_error "request")
  result_of (some r) =
      if is_success r.status_code then ok (get "result" r.body) else err (Error.http_error "status")

  -- `_post_data`
  unfoldable pub post_data : String → Fields → Opa Value
  unfolding result_of
  post_data path payload o =
      let answer = p.post (rstrip_slash p.opa_url <> "/v1/data/" <> path) end payload o in
      (result_of answer.0, answer.1)

  item_texts : Items → List String
  item_texts nil = []
  item_texts (cons v rest) = p.python_str v ∷ item_texts rest

  -- `_as_string_list`
  unfoldable pub as_string_list : Value → List String
  unfolding item_texts
  as_string_list (array items) = item_texts items
  as_string_list _ = []

  allowed_decision : String → Fields → Opa OpaDecision
  unfolding post_data as_string_list
  allowed_decision policy payload = do
    basis ← post_data (policy <> "/allow_basis") payload
    pure (record {
      allowed = true;
      allow_basis = as_string_list basis;
      violations = [];
      is_alert = false;
    })

  denied_decision : String → Fields → Opa OpaDecision
  unfolding post_data violation_codes
  denied_decision policy payload = do
    found ← post_data (policy <> "/violations") payload
    alert ← post_data (policy <> "/is_alert") payload
    pure (record {
      allowed = false;
      allow_basis = [];
      violations = violation_codes found;
      is_alert = truth alert;
    })

  -- `_evaluate`
  unfoldable pub decide : String → Fields → Opa OpaDecision
  unfolding post_data allowed_decision denied_decision
  decide policy payload = do
    allow ← post_data (policy <> "/allow") payload
    if truth allow then allowed_decision policy payload else denied_decision policy payload

  unfoldable pub decide_instruction : String → AuthzSubject → Fields → Fields → Opa OpaDecision
  unfolding decide opa_payload
  decide_instruction action subject instruction account = decide "instruction/lifecycle" (
      opa_payload action subject
        (field "instruction" (object instruction) (field "account" (object account) end)))

  unfoldable pub decide_payment : String → AuthzSubject → Fields → String → String → Opa OpaDecision
  unfolding decide opa_payload
  decide_payment action subject payment instruction_end_date instruction_status =
      let dated = put_given "instruction_end_date" instruction_end_date payment in
      decide "payment/lifecycle" (
        opa_payload action subject
          (field "payment" (object (put_given "instruction_status" instruction_status dated)) end))

  -- What `can_approve_payment` and `can_approve_instruction` share.
  unfoldable pub approval_basis : String → Fields → Opa (Bool × List String)
  unfolding post_data as_string_list
  approval_basis policy payload =
      post_data (policy <> "/allow_basis") payload >>= λ basis. pure (true, as_string_list basis)

  unfoldable pub can_approve : String → Fields → Opa (Bool × List String)
  unfolding post_data approval_basis
  can_approve policy payload = do
    allow ← post_data (policy <> "/allow") payload
    if truth allow then approval_basis policy payload else pure (false, [])

  unfoldable pub can_approve_payment :
      AuthzSubject → PaymentRecord → String → String → Opa (Bool × List String)
  unfolding can_approve opa_payload
  can_approve_payment subject payment instruction_end_date instruction_status =
      can_approve "payment/lifecycle" (
        opa_payload "APPROVE_PAYMENT" subject (
          field "payment"
            (object (to_opa_payment_record payment instruction_end_date instruction_status)) end))

  unfoldable pub can_approve_instruction : AuthzSubject → Fields → Fields → Opa (Bool × List String)
  unfolding can_approve opa_payload
  can_approve_instruction subject opa_instruction opa_account =
      can_approve "instruction/lifecycle" (
        opa_payload "APPROVE" subject
          (field "instruction" (object opa_instruction) (field "account" (object opa_account) end)))

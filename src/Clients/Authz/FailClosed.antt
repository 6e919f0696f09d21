-- ===== src/Clients/Authz/FailClosed.antt =====
-- The authorization client fails closed.
use security_event_rag_demo.Base.{
  String, ◌<>◌, ◌≡◌, refl, ap, ◌∙◌, Bool-cases, inl, inr, Bool, true, false, Option, none, some,
  List, leb, truthy, ◌&&◌, if◌then◌else◌,
}
use security_event_rag_demo.Base.Exec.{Error, Result, ok, err, raise}
use security_event_rag_demo.Base.Exec.Frame.{ok_inj}
use security_event_rag_demo.Base.Json.{Fields, get, put, field, end, str, object}
use security_event_rag_demo.Clients.Http.{HttpResponse, Transport, truth, rstrip_slash}
use security_event_rag_demo.Clients.Authz.{
  PolicyDecision, Tokens, read_decision, post_decision, decision_of, decision_with, obo_headers,
  service_headers, evaluate_instruction, evaluate_payment,
}

-- An answer below 400 whose body says that the request is allowed.
pub record IsAllowing (answer : Option HttpResponse) : Type 0 where
  pub response : HttpResponse
  pub answered : answer ≡ some response
  pub no_error : leb 400 response.status_code ≡ false
  pub says_so : truth (get "allowed" response.body) ≡ true

decision_of-says :
    (body : Fields) (basis violations : Result (List String)) (d : PolicyDecision)
    → decision_with body basis violations ≡ ok d
    → truth (get "allowed" body) ≡ d.allowed
decision_of-says body (err e) v d h = absurd (cc h)
decision_of-says body (ok b) (err e) d h = absurd (cc h)
decision_of-says body (ok b) (ok v) d h = ap (λ x. x.allowed) (ok_inj h)

read_decision-IsAllowing :
    (base : String) (r : Option HttpResponse) (d : PolicyDecision)
    → read_decision base r ≡ ok d
    → d.allowed ≡ true
    → IsAllowing r
unfolding read_decision decision_of
read_decision-IsAllowing base none d h t = absurd (cc h)
read_decision-IsAllowing base (some r) d h t = elim (Bool-cases (leb 500 r.status_code)) [
  | inl big ↦ absurd (refused (rw big at h))
  | inr small ↦ elim (Bool-cases (leb 400 r.status_code)) [
    | inl big ↦ absurd (refused (rw (small, big) at h))
    | inr fine ↦ record {
      response = r;
      answered = refl;
      no_error = fine;
      says_so = decision_of-says r.body _ _ d (rw (small, fine) at h) ∙ t;
    }
  ]
]
  where
    refused : {e : Error} → ◌≡◌ {A = Result PolicyDecision} (err e) (ok d) → ⊥
    refused e = cc e

-- The payload and the headers of a request: those of a delegated call, or those of the service with the
-- subject in the payload.
pub data Sent (payload : Fields) (t : Tokens) (subject : Option Fields)
    : Fields → Fields → Type 0 where
  delegated :
      (truthy t.user_token && truthy t.service_token) ≡ true
      → Sent payload t subject payload (obo_headers t)
  direct :
      (s : Fields)
      → subject ≡ some s
      → Sent payload t subject (put "subject" (object s) payload) (service_headers t)

module _ {O : Type 0} (post : Transport O) (base_url : String) where
  -- The request that a decision rests on: where it went, what it carried, and that it was answered
  -- with a permission.
  pub record Request (path : String) (payload : Fields) (t : Tokens) (subject : Option Fields)
      (o : O) : Type 0 where
    pub content : Fields
    pub headers : Fields
    pub sent : Sent payload t subject content headers
    pub allowing : IsAllowing (post (rstrip_slash base_url <> path) headers content o).0

  posted :
      (path : String) (content headers : Fields) (o : O) (d : PolicyDecision)
      → (post_decision post base_url path content headers o).0 ≡ ok d
      → d.allowed ≡ true
      → IsAllowing (post (rstrip_slash base_url <> path) headers content o).0
  unfolding post_decision
  posted path content headers o d h t = read_decision-IsAllowing (rstrip_slash base_url) _ d h t

  -- The branches of both methods.
  by_tokens :
      (path : String) (payload : Fields) (t : Tokens) (subject : Option Fields) (o : O)
      (d : PolicyDecision) (e : Error) (b : Bool)
      → (truthy t.user_token && truthy t.service_token) ≡ b
      → d.allowed ≡ true
      → ((if b then post_decision post base_url path payload (obo_headers t) else elim subject [
        | none ↦ raise e
        | some s ↦
            post_decision post base_url path (put "subject" (object s) payload) (service_headers t)
      ])
          o).0
        ≡ ok d
      → Request path payload t subject o
  by_tokens path payload t subject o d e true h w k = record {
    content = payload;
    headers = obo_headers t;
    sent = Sent.delegated h;
    allowing = posted path payload (obo_headers t) o d k w;
  }
  by_tokens path payload t none o d e false h w k = absurd (cc k)
  by_tokens path payload t (some s) o d e false h w k = record {
    content = put "subject" (object s) payload;
    headers = service_headers t;
    sent = Sent.direct s refl;
    allowing = posted path (put "subject" (object s) payload) (service_headers t) o d k w;
  }

  -- If the client returns a decision that allows an action on an instruction, a request with that
  -- action, that instruction and that account went to the path for instructions, as a delegated call
  -- or with the subject, and was answered with a status below 400 and a body whose `allowed` is true.
  pub evaluate_instruction-fails_closed :
      (action : String) (instruction account : Fields) (tokens : Tokens) (subject : Option Fields)
      (o : O) (d : PolicyDecision)
      → (evaluate_instruction post base_url action instruction account tokens subject o).0 ≡ ok d
      → d.allowed ≡ true
      → Request "/api/v1/authorization/instructions/evaluate"
          (field "action"
            (str action)
            (field "instruction" (object instruction) (field "account" (object account) end)))
          tokens
          subject
          o
  unfolding evaluate_instruction
  evaluate_instruction-fails_closed action instruction account tokens subject o d h t =
      by_tokens "/api/v1/authorization/instructions/evaluate" _ tokens subject o d _
        (truthy tokens.user_token && truthy tokens.service_token) refl t h

  -- If the client returns a decision that allows an action on a payment, a request with that action,
  -- that payment and the end date and status of its instruction went to the path for payments, as a
  -- delegated call or with the subject, and was answered with a status below 400 and a body whose
  -- `allowed` is true.
  pub evaluate_payment-fails_closed :
      (action : String) (payment : Fields) (end_date status : String) (tokens : Tokens)
      (subject : Option Fields) (o : O) (d : PolicyDecision)
      → (evaluate_payment post base_url action payment end_date status tokens subject o).0 ≡ ok d
      → d.allowed ≡ true
      → Request "/api/v1/authorization/payments/evaluate"
          (field "action" (str action) (
            field "payment" (object payment) (
              field "instruction_end_date"
                (str end_date)
                (field "instruction_status" (str status) end))))
          tokens
          subject
          o
  unfolding evaluate_payment
  evaluate_payment-fails_closed action payment end_date status tokens subject o d h t =
      by_tokens "/api/v1/authorization/payments/evaluate" _ tokens subject o d _
        (truthy tokens.user_token && truthy tokens.service_token) refl t h

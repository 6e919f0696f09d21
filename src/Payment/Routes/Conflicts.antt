-- ===== src/Payment/Routes/Conflicts.antt =====
-- What a route answers to a request that the status of the payment does not allow.
use security_event_rag_demo.Base.{String, ◌≡◌, ap, ◌∙◌, sym, Option, false}
use security_event_rag_demo.Base.Exec.{Error, ok, err}
use security_event_rag_demo.Payment.Model.{PaymentSubject, Payment}
use security_event_rag_demo.Payment.Platform.{
  PaymentPlatform, PaymentSettings, PaymentState, PaymentCall,
}
use security_event_rag_demo.Payment.Service.Operations.{get_or_404}
use security_event_rag_demo.Payment.Service.Silent.{payment_documents}
use security_event_rag_demo.Payment.Requests.{PaymentRequest, perform_payment}
use security_event_rag_demo.Payment.Requests.Refusals.{admits, payment_request_refused}
use security_event_rag_demo.Payment.Routes.{
  answered, caller_of, change_status, change_payment_route,
}

module _ (p : PaymentPlatform) where
  -- An error of the service becomes the error of the route, in the same state.
  answered_error :
      (status : Error → Error) (m : PaymentCall p Payment) (s t : PaymentState p) (e : Error)
      → m s ≡ (err e, t)
      → answered p status m s ≡ (err (status e), t)
  unfolding answered
  answered_error status m s t e h = cc

  module _ (cfg : PaymentSettings) where
    -- If a payment is read and its status does not allow the request, the route answers 409 and leaves
    -- the payments as they were.
    pub change_payment_route-conflict :
        (q : PaymentRequest) (id : String) (u : PaymentSubject)
        (authorization session : Option String) (s : PaymentState p) (d : Payment)
        → (get_or_404 p cfg id s).0 ≡ ok d
        → admits q d.status ≡ false
        → ((message : String) × ((change_payment_route p cfg q id u authorization session s).0
              ≡ err (Error.http_exception 409 message)))
          × (payment_documents p (change_payment_route p cfg q id u authorization session s).1
              ≡ payment_documents p s)
    unfolding change_payment_route change_status
    change_payment_route-conflict q id u authorization session s d h refused =
        let k = caller_of authorization session in
        let r = payment_request_refused p cfg q id u k s d h refused in
        let same = answered_error change_status (perform_payment p cfg q id u k) s _ _ r.0.1 in
        (
          (r.0.0, ap (λ x. x.0) same),
          ap (λ x. payment_documents p x.1) same
              ∙ sym (ap (λ x. payment_documents p x.1) r.0.1)
              ∙ r.1,
        )

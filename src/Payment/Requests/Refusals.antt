-- ===== src/Payment/Requests/Refusals.antt =====
-- Requests that the status of a payment does not allow.
use mathlib.Core.Path.{subst}
use security_event_rag_demo.Base.{String, ◌≡◌, refl, sym, ap, ◌∙◌, Bool, true, false, not}
use security_event_rag_demo.Base.Exec.{Error, Exec, ok, err, continue, raise_if, ◌>>=◌}
use security_event_rag_demo.Instruction.Service.Persist.{Caller}
use security_event_rag_demo.Payment.Enums.{PaymentStatus, is_draft_payment, is_submitted_payment}
use security_event_rag_demo.Payment.Model.{PaymentSubject, Payment}
use security_event_rag_demo.Payment.Platform.{
  PaymentPlatform, PaymentSettings, PaymentState, PaymentCall,
}
use security_event_rag_demo.Payment.Service.Operations.{
  get_or_404, submit_payment, submit_payment_from, approve_payment, approve_payment_from,
  reject_payment, reject_payment_from,
}
use security_event_rag_demo.Payment.Service.Silent.{payment_documents, get_or_404-Frame}
use security_event_rag_demo.Payment.Requests.{PaymentRequest, perform_payment}

-- The statuses from which a request may go on.
abbrev pub admits : PaymentRequest → PaymentStatus → Bool
admits PaymentRequest.submit_request s = is_draft_payment s
admits PaymentRequest.approve_request s = is_submitted_payment s
admits (PaymentRequest.reject_request r) s = is_submitted_payment s

-- `m` raises a `ValueError` and does nothing else.
abbrev pub OnlyRaises : {S A : Type 0} → Exec S A → Type 0
OnlyRaises {S} m = (message : String) × ((s : S) → m s ≡ (err (Error.value_error message), s))

guard_raises :
    {S B : Type 0} (b : Bool) (message : String) (f : Unit {0} → Exec S B)
    → b ≡ false
    → OnlyRaises (raise_if (not b) (Error.value_error message) >>= f)
guard_raises true message f h = absurd (cc h)
guard_raises false message f h = (message, λ s. refl)

module _ {S A B : Type 0} where
  read_raises :
      (m : Exec S A) (f : A → Exec S B) (s : S) (a : A) (w : OnlyRaises (f a))
      → (m s).0 ≡ ok a
      → (m >>= f) s ≡ (err (Error.value_error w.0), (m s).1)
  read_raises m f s a w h =
      subst (λ r. continue r f (m s).1 ≡ (err (Error.value_error w.0), (m s).1)) (sym h)
        (w.1 (m s).1)

module _ (p : PaymentPlatform) (cfg : PaymentSettings) where
  rest_of : PaymentRequest → PaymentSubject → Caller → Payment → PaymentCall p Payment
  rest_of PaymentRequest.submit_request u k d = submit_payment_from p cfg u k d
  rest_of PaymentRequest.approve_request u k d = approve_payment_from p cfg u k d
  rest_of (PaymentRequest.reject_request r) u k d = reject_payment_from p cfg u r k d

  perform-rest_of :
      (q : PaymentRequest) (id : String) (u : PaymentSubject) (k : Caller)
      → perform_payment p cfg q id u k ≡ (get_or_404 p cfg id >>= rest_of q u k)
  unfolding rest_of submit_payment approve_payment reject_payment
  perform-rest_of PaymentRequest.submit_request id u k = refl
  perform-rest_of PaymentRequest.approve_request id u k = refl
  perform-rest_of (PaymentRequest.reject_request r) id u k = refl

  rest_raises :
      (q : PaymentRequest) (u : PaymentSubject) (k : Caller) (d : Payment)
      → admits q d.status ≡ false
      → OnlyRaises (rest_of q u k d)
  unfolding rest_of submit_payment_from approve_payment_from reject_payment_from
  rest_raises PaymentRequest.submit_request u k d h = guard_raises _ _ _ h
  rest_raises PaymentRequest.approve_request u k d h = guard_raises _ _ _ h
  rest_raises (PaymentRequest.reject_request r) u k d h = guard_raises _ _ _ h

  -- If a payment is read and its status does not allow the request (a submission of a draft, an
  -- approval or a rejection of a submitted payment), the request raises a `ValueError`, leaves the
  -- payments as they were, and does nothing after reading.
  pub payment_request_refused :
      (q : PaymentRequest) (id : String) (u : PaymentSubject) (k : Caller) (s : PaymentState p)
      (d : Payment)
      → (get_or_404 p cfg id s).0 ≡ ok d
      → admits q d.status ≡ false
      → ((message : String) × (perform_payment p cfg q id u k s
            ≡ (err (Error.value_error message), (get_or_404 p cfg id s).1)))
        × (payment_documents p (perform_payment p cfg q id u k s).1 ≡ payment_documents p s)
  payment_request_refused q id u k s d h refused =
      let raising = rest_raises q u k d refused in
      let same =
        ap (λ m. m s) (perform-rest_of q id u k)
        ∙ read_raises (get_or_404 p cfg id) (rest_of q u k) s d raising h in
      ((raising.0, same), ap (λ r. payment_documents p r.1) same ∙ (get_or_404-Frame p cfg id).at s)

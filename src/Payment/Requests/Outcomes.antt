-- ===== src/Payment/Requests/Outcomes.antt =====
-- What a request makes of the stored payments, and what holds of them after any requests.
use mathlib.Core.Path.{subst}
use security_event_rag_demo.Base.{String, ◌≡◌, refl, sym, ◌⊎◌, inl, inr, [], ◌∷◌, All, append-All}
use security_event_rag_demo.Base.Exec.{Error, err}
use security_event_rag_demo.Base.Exec.Run.{Run}
use security_event_rag_demo.Instruction.Platform.{Stored}
use security_event_rag_demo.Instruction.Service.Persist.{Caller}
use security_event_rag_demo.Payment.Enums.{PaymentAction}
use security_event_rag_demo.Payment.Model.{PaymentSubject, Payment, CreatePaymentRequest}
use security_event_rag_demo.Payment.Platform.{PaymentPlatform, PaymentSettings, PaymentState}
use security_event_rag_demo.Payment.Service.Operations.{create_payment}
use security_event_rag_demo.Payment.Service.Silent.{PaymentDocuments, payment_documents}
use security_event_rag_demo.Payment.Service.Lifecycle.{IsConsistent, AllConsistent}
use security_event_rag_demo.Payment.Service.Consistency.{
  versions_of, consistent-version, Replaced-AllConsistent,
}
use security_event_rag_demo.Payment.Service.Stores.{PaymentLaws}
use security_event_rag_demo.Payment.Service.Moves.{
  Changed, Permitted, submit_payment-Run, reject_payment-Run,
}
use security_event_rag_demo.Payment.Service.Approvals.{Decided, approve_payment-Run}
use security_event_rag_demo.Payment.Service.Creation.{Opened, create_payment-Run}
use security_event_rag_demo.Payment.Requests.{PaymentRequest, perform_payment}

module _ (p : PaymentPlatform) (cfg : PaymentSettings) (laws : PaymentLaws p) where
  -- What a request does if it succeeds.
  abbrev pub Outcome :
      PaymentRequest
      → PaymentSubject
      → Caller
      → String
      → PaymentDocuments
      → PaymentDocuments
      → Type 0
  Outcome PaymentRequest.submit_request u k id c c' =
      Permitted p cfg PaymentAction.submit_payment u k id c c'
  Outcome PaymentRequest.approve_request u k id c c' = Decided p cfg laws u k id c c'
  Outcome (PaymentRequest.reject_request r) u k id c c' =
      Permitted p cfg PaymentAction.reject_payment u k id c c'

  perform_payment-Run :
      (q : PaymentRequest) (id : String) (u : PaymentSubject) (k : Caller) (c : PaymentDocuments)
      → Run (payment_documents p) c (Outcome q u k id c) (perform_payment p cfg q id u k)
  perform_payment-Run PaymentRequest.submit_request id u k c =
      submit_payment-Run p cfg laws u k id c
  perform_payment-Run PaymentRequest.approve_request id u k c =
      approve_payment-Run p cfg laws u k id c
  perform_payment-Run (PaymentRequest.reject_request r) id u k c =
      reject_payment-Run p cfg laws u k id c r

  -- Over a collection with the documented laws, a request on a payment replaces that one payment, or
  -- raises and leaves the payments as they were. It may also raise after the replacement. A
  -- replacement is a legal step of the status, keeps the terms, and adds one lifecycle event by the
  -- caller. A submission, a rejection and an approval were allowed by the policy, which was told of
  -- the instruction that the instruction service had returned. A payment was approved only if that
  -- instruction was approvable for it at a time that the service's clock showed, and an approval
  -- that was requested cancelled the payment only if the instruction was missing or was not
  -- approvable at a time that the service's clock showed.
  pub payment_request_moves :
      (q : PaymentRequest) (id : String) (u : PaymentSubject) (k : Caller) (s : PaymentState p)
      → Outcome q u k id
          (payment_documents p s)
          (payment_documents p (perform_payment p cfg q id u k s).1)
        ⊎ (((e : Error) × ((perform_payment p cfg q id u k s).0 ≡ err e))
            × (payment_documents p (perform_payment p cfg q id u k s).1 ≡ payment_documents p s))
  payment_request_moves q id u k s =
      (perform_payment-Run q id u k (payment_documents p s)).at s refl

  -- Over a collection with the documented laws, a create request adds one draft, made from the
  -- request and from an instruction that was returned, that was in the status STANDING or SINGLE_USE
  -- and whose end date, if it had one, had not passed at a time that the service's clock showed, and
  -- the policy had allowed it; if the instruction is for a single use, it had been marked as used before. Or the
  -- request raises and leaves the payments as they were. It may also raise after the draft is added.
  pub create_payment_opens :
      (r : CreatePaymentRequest) (u : PaymentSubject) (k : Caller) (s : PaymentState p)
      → Opened p cfg r u k
          (payment_documents p s)
          (payment_documents p (create_payment p cfg r u k s).1)
        ⊎ (((e : Error) × ((create_payment p cfg r u k s).0 ≡ err e))
            × (payment_documents p (create_payment p cfg r u k s).1 ≡ payment_documents p s))
  create_payment_opens r u k s =
      (create_payment-Run p cfg laws u k (payment_documents p s) r).at s refl

  Changed-AllConsistent :
      {a : PaymentAction} {u : PaymentSubject} {id : String} {c c' : PaymentDocuments}
      → Changed a u id c c'
      → AllConsistent c
      → AllConsistent c'
  Changed-AllConsistent {a} {u} {id} {c} {c'} w =
      Replaced-AllConsistent a u id w.before w.after c c' w.advanced w.replaced

  Outcome-AllConsistent :
      (q : PaymentRequest) (u : PaymentSubject) (k : Caller) (id : String) (c c' : PaymentDocuments)
      → Outcome q u k id c c'
      → AllConsistent c
      → AllConsistent c'
  Outcome-AllConsistent PaymentRequest.submit_request u k id c c' w = Changed-AllConsistent w.change
  Outcome-AllConsistent PaymentRequest.approve_request u k id c c' (inl w) =
      Changed-AllConsistent w.permitted.change
  Outcome-AllConsistent PaymentRequest.approve_request u k id c c' (inr w) =
      Changed-AllConsistent w.change
  Outcome-AllConsistent (PaymentRequest.reject_request r) u k id c c' w =
      Changed-AllConsistent w.change

  -- Over a collection with the documented laws, whether it returns or raises, a request on a
  -- payment keeps every stored payment consistent: its lifecycle events are the steps from its
  -- creation to its status, and its version number counts them.
  pub payment_request-AllConsistent :
      (q : PaymentRequest) (id : String) (u : PaymentSubject) (k : Caller) (s : PaymentState p)
      → AllConsistent (payment_documents p s)
      → AllConsistent (payment_documents p (perform_payment p cfg q id u k s).1)
  payment_request-AllConsistent q id u k s w = elim (payment_request_moves q id u k s) [
    | inl done ↦ Outcome-AllConsistent q u k id _ _ done w
    | inr failed ↦ subst AllConsistent (sym failed.1) w
  ]

  create_payment-AllConsistent :
      (r : CreatePaymentRequest) (u : PaymentSubject) (k : Caller) (s : PaymentState p)
      → AllConsistent (payment_documents p s)
      → AllConsistent (payment_documents p (create_payment p cfg r u k s).1)
  create_payment-AllConsistent r u k s w = elim (create_payment_opens r u k s) [
    | inl opened ↦ subst AllConsistent (sym opened.added) (
        append-All (λ (e : Stored Payment). IsConsistent e.1) (payment_documents p s) _ w
          (opened.draft.consistent, tt))
    | inr failed ↦ subst AllConsistent (sym failed.1) w
  ]

  -- The states of the service after any requests, in any order, from an empty collection. Whatever
  -- else runs in between leaves the payments alone.
  pub data Reached : PaymentState p → Type 0 where
    empty : (s : PaymentState p) → payment_documents p s ≡ [] → Reached s
    created :
        (r : CreatePaymentRequest) (u : PaymentSubject) (k : Caller) (s t : PaymentState p)
        → Reached s
        → t ≡ (create_payment p cfg r u k s).1
        → Reached t
    requested :
        (q : PaymentRequest) (id : String) (u : PaymentSubject) (k : Caller) (s t : PaymentState p)
        → Reached s
        → t ≡ (perform_payment p cfg q id u k s).1
        → Reached t
    elsewhere :
        (s t : PaymentState p)
        → Reached s
        → payment_documents p t ≡ payment_documents p s
        → Reached t

  Reached-AllConsistent : (s : PaymentState p) → Reached s → AllConsistent (payment_documents p s)
  Reached-AllConsistent _ (Reached.empty s e) = subst AllConsistent (sym e) tt
  Reached-AllConsistent _ (Reached.created r u k s t w e) =
      subst (λ x. AllConsistent (payment_documents p x)) (sym e)
        (create_payment-AllConsistent r u k s (Reached-AllConsistent s w))
  Reached-AllConsistent _ (Reached.requested q id u k s t w e) =
      subst (λ x. AllConsistent (payment_documents p x)) (sym e)
        (payment_request-AllConsistent q id u k s (Reached-AllConsistent s w))
  Reached-AllConsistent _ (Reached.elsewhere s t w e) =
      subst AllConsistent (sym e) (Reached-AllConsistent s w)

  All-version :
      (c : PaymentDocuments)
      → AllConsistent c
      → All (λ e. e.1.version_number ≡ versions_of e.1.status) c
  All-version [] w = tt
  All-version (e ∷ c) w = (consistent-version e.1 w.0, All-version c w.1)

  -- Over a collection with the documented laws that was empty at first, after any requests: the
  -- version number of every stored payment is 1 for a draft, 2 for a submitted payment, and 3 for
  -- one that was approved, rejected or cancelled, so that no payment has more than three versions.
  pub Reached-versions :
      (s : PaymentState p)
      → Reached s
      → All (λ e. e.1.version_number ≡ versions_of e.1.status) (payment_documents p s)
  Reached-versions s w = All-version (payment_documents p s) (Reached-AllConsistent s w)

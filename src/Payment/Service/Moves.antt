-- ===== src/Payment/Service/Moves.antt =====
-- What each operation of the payment service does to the stored payments.
use security_event_rag_demo.Base.{ℕ, String, ◌≡◌, refl, ◌⊎◌, Bool, false, none, some}
use security_event_rag_demo.Base.Exec.{Error, err, raise_if, ◌>>=◌}
use security_event_rag_demo.Base.Exec.Frame.{Frame-raise_if}
use security_event_rag_demo.Base.Exec.Post.{Post-weaken, Post-raise_if, Post-catch}
use security_event_rag_demo.Base.Exec.Run.{Run, Run-bind, Run-after, Run-weaken}
use security_event_rag_demo.Base.Json.{Fields}
use security_event_rag_demo.Instruction.Authorization.{
  AuthorizationBlock, details_with_authorization,
}
use security_event_rag_demo.Instruction.Service.Persist.{Caller}
use security_event_rag_demo.Payment.Enums.{PaymentAction}
use security_event_rag_demo.Payment.Model.{PaymentSubject, RejectPaymentRequest, Payment}
use security_event_rag_demo.Payment.Changes.{
  Stamp, reason_details, submitted_payment, rejected_payment,
}
use security_event_rag_demo.Payment.Platform.{
  PaymentPlatform, PaymentSettings, PaymentState, PaymentCall,
}
use security_event_rag_demo.Payment.Validity.Approvable.{IsApprovable}
use security_event_rag_demo.Payment.Service.Record.{authorize_payment}
use security_event_rag_demo.Payment.Service.Operations.{
  get_or_404, fetch_instruction, fetch_backing, backing_of, take_stamp, store_change,
  as_backing_error, submit_payment, submit_payment_from, reject_payment, reject_payment_from,
}
use security_event_rag_demo.Payment.Service.Silent.{
  PaymentDocuments, payment_documents, get_or_404-Frame, fetch_backing-Frame,
  authorize_payment-Frame, take_stamp-Frame_lem,
}
use security_event_rag_demo.Payment.Service.Allowed.{
  PaymentGranted, Fetched, ClockRead, authorize_payment-Post, fetch_instruction-Post,
}
use security_event_rag_demo.Payment.Service.Lifecycle.{
  Advanced, Replaced, submitted_payment-Advanced, rejected_payment-Advanced,
}
use security_event_rag_demo.Payment.Service.Stores.{
  PaymentLaws, Found, get_or_404-Post, store_change-Run,
}

-- One payment was moved on by an action of a user.
pub record Changed (a : PaymentAction) (u : PaymentSubject) (id : String) (c c' : PaymentDocuments)
    : Type 0 where
  pub before : Payment
  pub after : Payment
  pub replaced : Replaced id before after c c'
  pub advanced : Advanced a u before after

module _ (p : PaymentPlatform) (cfg : PaymentSettings) where
  -- A change that the policy allowed, with the backing instruction that it was told of.
  pub record Permitted (a : PaymentAction) (u : PaymentSubject) (k : Caller) (id : String)
      (c c' : PaymentDocuments) : Type 0 where
    pub change : Changed a u id c c'
    pub instruction : Fields
    pub fetched : Fetched p cfg change.before.instruction_id k instruction
    pub granted : PaymentGranted p cfg a u k change.before (backing_of instruction)

  -- An approval: the instruction that was read still backed the payment at the time of the clock.
  pub record Approval (u : PaymentSubject) (k : Caller) (id : String) (c c' : PaymentDocuments)
      : Type 0 where
    pub permitted : Permitted PaymentAction.approve_payment u k id c c'
    pub time : ℕ
    pub clock : ClockRead p cfg time
    pub approvable : IsApprovable p time permitted.change.before permitted.instruction

  -- The instruction service does not know an instruction.
  pub record Missing (id : String) (k : Caller) : Type 0 where
    pub read_in : PaymentState p
    pub message : String
    pub answer :
        (fetch_instruction p cfg id k read_in).0 ≡ err (Error.instruction_not_found message)

  -- An instruction was read that did not back the payment at the time of the clock.
  pub record Outdated (d : Payment) (k : Caller) : Type 0 where
    pub instruction : Fields
    pub fetched : Fetched p cfg d.instruction_id k instruction
    pub time : ℕ
    pub clock : ClockRead p cfg time
    pub not_approvable : IsApprovable p time d instruction → ⊥

  pub record Cancellation (u : PaymentSubject) (k : Caller) (id : String) (c c' : PaymentDocuments)
      : Type 0 where
    pub change : Changed PaymentAction.cancel_payment u id c c'
    pub cause : Missing change.before.instruction_id k ⊎ Outdated change.before k

  module _ (laws : PaymentLaws p) (u : PaymentSubject) (k : Caller) (id : String)
      (c : PaymentDocuments) where
    -- An operation on a payment: reading it, and a guard on its status.
    pub reading :
        {A : Type 0} {R : PaymentDocuments → Type 0} (f : Payment → PaymentCall p A)
        → ((d : Payment) → Found id c d → Run (payment_documents p) c R (f d))
        → Run (payment_documents p) c R (get_or_404 p cfg id >>= f)
    reading f next =
        Run-after (Found id c) _ _ (get_or_404-Frame p cfg id) (get_or_404-Post p laws cfg id c)
          next

    pub guarding :
        {A : Type 0} {R : PaymentDocuments → Type 0} (b : Bool) (e : Error)
        (f : Unit {0} → PaymentCall p A)
        → (b ≡ false → (x : Unit {0}) → Run (payment_documents p) c R (f x))
        → Run (payment_documents p) c R (raise_if b e >>= f)
    guarding b e f next =
        Run-after (λ _. b ≡ false) _ _ (Frame-raise_if b e)
          (Post-weaken (Post-raise_if b e) (λ _ s h. h.1)) (λ x h. next h x)

    backed :
        {A : Type 0} {R : PaymentDocuments → Type 0} (d : Payment) (f : Fields → PaymentCall p A)
        → ((i : Fields) → Fetched p cfg d.instruction_id k i → Run (payment_documents p) c R (f i))
        → Run (payment_documents p) c R (fetch_backing p cfg d k >>= f)
    backed d f next =
        Run-after (Fetched p cfg d.instruction_id k) _ _ (fetch_backing-Frame p cfg d k)
          (unfold fetch_backing in
            Post-catch (fetch_instruction p cfg d.instruction_id k)
              (as_backing_error d.instruction_id) (fetch_instruction-Post p cfg d.instruction_id k))
          next

    -- The policy's permission, the stamp, and storing what the action makes of the payment.
    pub permitted :
        (a : PaymentAction) (d : Payment) (i : Fields) (details : AuthorizationBlock → Fields)
        (made : Stamp → Payment)
        → Found id c d
        → Fetched p cfg d.instruction_id k i
        → ((t : Stamp) → Advanced a u d (made t))
        → Run
            (payment_documents p)
            c
            (λ c'. (w : Permitted a u k id c c') × (w.instruction ≡ i) × (w.change.before ≡ d))
            (do
              authorization ← authorize_payment p cfg a u d (backing_of i) k
              t ← take_stamp p cfg
              store_change p cfg a u (details authorization) (made t))
    permitted a d i details made found fetched advanced =
        Run-after (λ _. PaymentGranted p cfg a u k d (backing_of i)) _ _
          (authorize_payment-Frame p cfg a u d (backing_of i) k)
          (authorize_payment-Post p cfg a u d (backing_of i) k)
          (λ b granted. Run-bind _ _ (take_stamp-Frame_lem p cfg) (λ t.
            Run-weaken
              (λ c' r. (
                record {
                  change = record {
                    before = d;
                    after = made t;
                    replaced = r;
                    advanced = advanced t;
                  };
                  instruction = i;
                  fetched = fetched;
                  granted = granted;
                },
                refl,
                refl,
              ))
              (store_change-Run p laws cfg a u (details b) id c d (made t) found (advanced t))))

    pub submit_payment-Run :
        Run
          (payment_documents p)
          c
          (Permitted PaymentAction.submit_payment u k id c)
          (submit_payment p cfg id u k)
    unfolding submit_payment submit_payment_from
    submit_payment-Run = reading _ (λ d found. guarding _ _ _ (λ legal _. backed d _ (λ i fetched.
        Run-weaken (λ c' w. w.0)
          (permitted PaymentAction.submit_payment d i (λ b. details_with_authorization none b)
            (λ t. submitted_payment u t d) found fetched
            (λ t. submitted_payment-Advanced u t d legal)))))

    pub reject_payment-Run :
        (r : RejectPaymentRequest)
        → Run
            (payment_documents p)
            c
            (Permitted PaymentAction.reject_payment u k id c)
            (reject_payment p cfg id u r k)
    unfolding reject_payment reject_payment_from
    reject_payment-Run r = reading _ (λ d found. guarding _ _ _ (λ legal _. backed d _ (λ i fetched.
        Run-weaken (λ c' w. w.0)
          (permitted PaymentAction.reject_payment d i
            (λ b. details_with_authorization (some (reason_details r.reason)) b)
            (λ t. rejected_payment u r.reason t d) found fetched
            (λ t. rejected_payment-Advanced u t d r.reason legal)))))

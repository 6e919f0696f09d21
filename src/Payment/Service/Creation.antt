-- ===== src/Payment/Service/Creation.antt =====
-- What `create` of the payment service does to the stored payments.
use security_event_rag_demo.Base.{ℕ, String, ◌≡◌, refl, true, none, [], ◌∷◌, ◌++◌, str_eq}
use security_event_rag_demo.Base.Exec.{ok}
use security_event_rag_demo.Base.Exec.Frame.{Frame-bind, Frame-pure, Frame-lift}
use security_event_rag_demo.Base.Exec.Post.{
  Post, Post-weaken, Post-lift, Post-from, Post-return, Post-skip, Post-computed,
}
use security_event_rag_demo.Base.Exec.Run.{Run, Run-after, Run-weaken, Run-then}
use security_event_rag_demo.Base.Json.{Fields, end, get}
use security_event_rag_demo.Instruction.Authorization.{details_with_authorization}
use security_event_rag_demo.Instruction.Service.Persist.{Caller}
use security_event_rag_demo.Payment.Enums.{PaymentStatus, PaymentAction}
use security_event_rag_demo.Payment.Model.{
  PaymentSubject, CreatePaymentRequest, Payment, new_payment, lifecycle_entry, user_ref,
}
use security_event_rag_demo.Payment.Platform.{
  PaymentPlatform, PaymentSettings, PaymentState, current_time, fresh_id,
}
use security_event_rag_demo.Payment.Validity.{text_at, int_or, validate_instruction_at_create}
use security_event_rag_demo.Payment.Validity.Usable.{IsUsable, validated-IsUsable}
use security_event_rag_demo.Payment.Service.Operations.{
  backing_of, item, draft_payment, create_draft, create_payment, allocate_payment_id,
}
use security_event_rag_demo.Payment.Service.Silent.{
  PaymentDocuments, payment_documents, current_time-Frame_lem, fetch_instruction-Frame,
  authorize_payment-Frame, draft_payment-Frame, mark_if_single_use-Frame, record_success-Frame,
}
use security_event_rag_demo.Payment.Service.Allowed.{
  PaymentGranted, Fetched, ClockRead, current_time-Post, Marked, authorize_payment-Post,
  fetch_instruction-Post, mark_if_single_use-Post,
}
use security_event_rag_demo.Payment.Service.Lifecycle.{History, IsConsistent}
use security_event_rag_demo.Payment.Service.Stores.{PaymentLaws, insert_payment-Run}

-- A draft made from a request and an instruction, whose one event is its creation.
pub record Draft (r : CreatePaymentRequest) (u : PaymentSubject) (i : Fields) (d : Payment)
    : Type 0 where
  pub is_draft : d.status ≡ PaymentStatus.draft
  pub for_instruction : d.instruction_id ≡ r.instruction_id
  pub against_version : d.instruction_version ≡ int_or 1 (get "version_number" i)
  pub instruction_type : d.instruction_type ≡ text_at "status" i
  pub same_amount : d.amount ≡ r.amount
  pub same_currency : item "currency" i ≡ ok d.currency
  pub same_lob : item "owning_lob" i ≡ ok d.owning_lob
  pub creator : d.created_by.user_id ≡ u.user_id
  pub consistent : IsConsistent d

module _ (p : PaymentPlatform) (cfg : PaymentSettings) where
  draft_payment-Post :
      {P : PaymentState p → Type 0} (r : CreatePaymentRequest) (u : PaymentSubject) (i : Fields)
      → Post P (λ d _. Draft r u i d) (draft_payment p cfg r u i)
  unfolding draft_payment new_payment lifecycle_entry user_ref
  draft_payment-Post r u i =
      Post-from (λ s h. tt)
        (Post-skip (fresh_id p) _ (λ event_id.
          Post-computed (item "owning_lob" i) _ (λ lob same_lob.
            Post-skip (allocate_payment_id p cfg lob) _ (λ payment_id.
              Post-computed (item "currency" i) _ (λ currency same_currency.
                Post-skip (current_time p) _ (λ now.
                  let d =
                    new_payment payment_id r.instruction_id (int_or 1 (get "version_number" i))
                      r.amount currency r.value_date lob (text_at "status" i) u event_id now
                      (p.isoformat now) in
                  Post-return d (λ s h. record {
                    is_draft = refl;
                    for_instruction = refl;
                    against_version = refl;
                    instruction_type = refl;
                    same_amount = refl;
                    same_currency = same_currency;
                    same_lob = same_lob;
                    creator = refl;
                    consistent = (
                      History.created
                          (lifecycle_entry PaymentAction.create_payment u event_id (p.isoformat now)
                            end)
                          refl refl,
                      refl,
                    );
                  })))))))

  -- A request that succeeds added one draft, of an instruction that was read and was valid at the time of the clock, by
  -- a caller whom the policy allowed, after the instruction was marked if it is for a single use.
  pub record Opened (r : CreatePaymentRequest) (u : PaymentSubject) (k : Caller)
      (c c' : PaymentDocuments) : Type 0 where
    pub key : String
    pub new : Payment
    pub added : c' ≡ c ++ ((key, new) ∷ [])
    pub instruction : Fields
    pub fetched : Fetched p cfg r.instruction_id k instruction
    pub draft : Draft r u instruction new
    pub time : ℕ
    pub clock : ClockRead p cfg time
    pub usable : IsUsable p time instruction
    pub granted : PaymentGranted p cfg PaymentAction.create_payment u k new (backing_of instruction)
    pub marked : str_eq (text_at "status" instruction) "SINGLE_USE" ≡ true → Marked p cfg new k

  module _ (laws : PaymentLaws p) (u : PaymentSubject) (k : Caller) (c : PaymentDocuments) where
    create_draft-Run :
        (r : CreatePaymentRequest) (i : Fields) (d : Payment) (now : ℕ)
        → Fetched p cfg r.instruction_id k i
        → ClockRead p cfg now
        → validate_instruction_at_create p now i ≡ ok tt
        → Draft r u i d
        → Run (payment_documents p) c (Opened r u k c) (create_draft p cfg u k (backing_of i) d)
    unfolding create_draft
    create_draft-Run r i d now fetched clock valid draft =
        Run-after (λ _. PaymentGranted p cfg PaymentAction.create_payment u k d (backing_of i)) _ _
          (authorize_payment-Frame p cfg PaymentAction.create_payment u d (backing_of i) k)
          (authorize_payment-Post p cfg PaymentAction.create_payment u d (backing_of i) k)
          (λ b granted.
            Run-after (λ _. str_eq (text_at "status" i) "SINGLE_USE" ≡ true → Marked p cfg d k) _ _
              (mark_if_single_use-Frame p cfg (text_at "status" i) u d k)
              (mark_if_single_use-Post p cfg (text_at "status" i) u d k)
              (λ _ marked.
                Run-then _ _
                  (Run-weaken
                    (λ c' w. record {
                      key = w.0;
                      new = d;
                      added = w.1;
                      instruction = i;
                      fetched = fetched;
                      draft = draft;
                      time = now;
                      clock = clock;
                      usable = validated-IsUsable p now i valid;
                      granted = granted;
                      marked = marked;
                    })
                    (insert_payment-Run p laws d c))
                  (λ _.
                    Frame-bind _ _
                      (record_success-Frame p cfg PaymentAction.create_payment u d
                        (details_with_authorization none b))
                      (λ _. Frame-pure d))))

    pub create_payment-Run :
        (r : CreatePaymentRequest)
        → Run (payment_documents p) c (Opened r u k c) (create_payment p cfg r u k)
    unfolding create_payment
    create_payment-Run r =
        Run-after (Fetched p cfg r.instruction_id k) _ _
          (fetch_instruction-Frame p cfg r.instruction_id k)
          (fetch_instruction-Post p cfg r.instruction_id k)
          (λ i fetched.
            Run-after (ClockRead p cfg) _ _ (current_time-Frame_lem p) (current_time-Post p cfg)
              (λ now clock.
                Run-after (λ _. validate_instruction_at_create p now i ≡ ok tt) _ _
                  (Frame-lift (validate_instruction_at_create p now i))
                  (Post-weaken (Post-lift (validate_instruction_at_create p now i)) (λ x s h. h.1))
                  (λ _ valid.
                    Run-after (Draft r u i) _ _ (draft_payment-Frame p cfg r u i)
                      (draft_payment-Post r u i)
                      (λ d draft. create_draft-Run r i d now fetched clock valid draft))))

-- ===== src/Payment/Fact/Complete.antt =====
-- What the validation of payment facts (models/fact_validation.py) accepts.
use security_event_rag_demo.Base.{
  ℕ, String, ◌≡◌, ◌≢◌, ◌≤◌, ◌↔◌, refl, Option, List, [], ◌∷◌, All, length, arith, if◌then◌else◌,
}
use security_event_rag_demo.Base.Exec.{ok}
use security_event_rag_demo.Base.Json.{get, Fields, array, number}
use security_event_rag_demo.Clients.Http.{truth}
use security_event_rag_demo.Instruction.Parties.{UserReference}
use security_event_rag_demo.Payment.Enums.{PaymentAction, payment_action_value}
use security_event_rag_demo.Payment.Model.{Payment}
use security_event_rag_demo.Payment.Fact.{
  dump_payment, dump_payment_events, dump_reference, dump_reference_opt, require_entries,
  require_reference, check_events, require_for_action, require_kept, validate_payment_document,
  required_entries, ◌>>◌,
}
use security_event_rag_demo.Payment.Fact.Entries.{
  HasUser, HasText, KeepsUser, and_then, require_entry_ok, require_entries_ok, require_reference_ok,
  missing_events, status_named, text_ok, numbers_ok, reference_ok, reference_opt_ok, reference_at,
  all_five, some_event, reason_ok, truth_reference, count_ok,
}

-- Who acted, and why.
abbrev Acted : PaymentAction → Payment → Type 0
Acted PaymentAction.create_payment p = Unit
Acted PaymentAction.submit_payment p = HasUser p.submitted_by
Acted PaymentAction.approve_payment p = HasUser p.approved_by × KeepsUser p.submitted_by
Acted PaymentAction.reject_payment p =
    (HasUser p.rejected_by × HasText p.rejection_reason) × KeepsUser p.submitted_by
Acted PaymentAction.cancel_payment p =
    (HasUser p.cancelled_by × HasText p.cancellation_reason) × KeepsUser p.submitted_by

abbrev named_texts : (ℕ → String) → Payment → List String
named_texts json_datetime p =
    p.payment_id
    ∷ p.instruction_id
    ∷ p.currency
    ∷ p.value_date
    ∷ p.owning_lob
    ∷ p.instruction_type
    ∷ json_datetime p.created_at
    ∷ json_datetime p.updated_at
    ∷ []

-- A payment that can be published as the state after an action: every text is there, its version
-- counts its events, and it names who created it and who acted.
abbrev pub IsComplete : (ℕ → String) → PaymentAction → Payment → Type 0
IsComplete json_datetime a p =
    All (λ s. s ≢ "") (named_texts json_datetime p)
    × ((1 ≤ p.version_number) × (p.version_number ≡ length p.lifecycle_events))
    × (p.created_by.user_id ≢ "")
    × Acted a p

module _ (json_datetime : ℕ → String) (p : Payment) where
  abbrev document : Fields
  document = dump_payment json_datetime p

  entries_ok :
      (action : String)
      → (require_entries document action required_entries ≡ ok tt)
        ↔ (All (λ s. s ≢ "") (named_texts json_datetime p) × (p.lifecycle_events ≢ []))
  unfolding get dump_payment dump_reference
  entries_ok action = ground (
    arith,
    require_entries_ok document action required_entries,
    text_ok p.payment_id,
    text_ok p.instruction_id,
    text_ok p.currency,
    text_ok p.value_date,
    text_ok p.owning_lob,
    text_ok p.instruction_type,
    text_ok (json_datetime p.created_at),
    text_ok (json_datetime p.updated_at),
    missing_events p.lifecycle_events,
    status_named p.status,
    numbers_ok p,
  )

  creator_ok :
      (action : String)
      → (require_reference document action "created_by" ≡ ok tt) ↔ (p.created_by.user_id ≢ "")
  unfolding get dump_payment
  creator_ok action =
      ground (arith, require_reference_ok document action "created_by", reference_ok p.created_by)

  submitter_ok :
      (action : String)
      → ((if truth (get "submitted_by" document)
            then require_reference document action "submitted_by"
            else ok tt)
          ≡ ok tt)
        ↔ KeepsUser p.submitted_by
  unfolding get dump_payment
  submitter_ok action = ground (
    arith,
    require_reference_ok document action "submitted_by",
    reference_opt_ok p.submitted_by,
    truth_reference p.submitted_by,
  )

  party_ok :
      (action f : String) (o : Option UserReference)
      → get f document ≡ dump_reference_opt o
      → (require_reference document action f ≡ ok tt) ↔ HasUser o
  party_ok action f o e =
      ground (arith, require_reference_ok document action f, reference_at (get f document) o e)

  kept_ok :
      (action : String)
      → p.created_by.user_id ≢ ""
      → ((require_reference document action "created_by"
            >> (if truth (get "submitted_by" document)
                then require_reference document action "submitted_by"
                else ok tt))
          ≡ ok tt)
        ↔ KeepsUser p.submitted_by
  kept_ok action h = ground (
    arith,
    creator_ok action,
    submitter_ok action,
    and_then (require_reference document action "created_by") (
        if truth (get "submitted_by" document)
        then require_reference document action "submitted_by"
        else ok tt),
  )

  Acted-checked :
      (a : PaymentAction)
      → p.created_by.user_id ≢ ""
      → ((require_for_action document (payment_action_value a) ≡ ok tt)
          × (require_kept document (payment_action_value a) ≡ ok tt))
        ↔ Acted a p
  unfolding require_for_action require_kept get dump_payment
  Acted-checked PaymentAction.create_payment h = (λ e. tt, λ e. (refl, refl))
  Acted-checked PaymentAction.submit_payment h = ground (
    arith,
    party_ok "SUBMIT_PAYMENT" "submitted_by" p.submitted_by refl,
    creator_ok "SUBMIT_PAYMENT",
  )
  Acted-checked PaymentAction.approve_payment h = ground (
    arith,
    party_ok "APPROVE_PAYMENT" "approved_by" p.approved_by refl,
    creator_ok "APPROVE_PAYMENT",
    kept_ok "APPROVE_PAYMENT" h,
  )
  Acted-checked PaymentAction.reject_payment h = ground (
    arith,
    party_ok "REJECT_PAYMENT" "rejected_by" p.rejected_by refl,
    reason_ok p.rejection_reason,
    kept_ok "REJECT_PAYMENT" h,
    require_entry_ok document "REJECT_PAYMENT" "rejection_reason",
  )
  Acted-checked PaymentAction.cancel_payment h = ground (
    arith,
    party_ok "CANCEL_PAYMENT" "cancelled_by" p.cancelled_by refl,
    reason_ok p.cancellation_reason,
    kept_ok "CANCEL_PAYMENT" h,
    require_entry_ok document "CANCEL_PAYMENT" "cancellation_reason",
  )

  -- The validation accepts the fact of a payment after an action exactly when the payment is complete:
  -- its texts are there, its version number is positive and counts its events, and its creator,
  -- the party of the action with its reason, and an earlier submitter have user ids.
  pub validate_payment_document-ok :
      (a : PaymentAction)
      → (validate_payment_document document (payment_action_value a) ≡ ok tt)
        ↔ IsComplete json_datetime a p
  unfolding validate_payment_document get dump_payment
  validate_payment_document-ok a =
      let v = payment_action_value a in
      let es = p.lifecycle_events in
      ground (
        arith,
        all_five (require_entries document v required_entries)
            (require_reference document v "created_by")
            (check_events (array (dump_payment_events es)) (number p.version_number))
            (require_for_action document v) (require_kept document v),
        entries_ok v,
        creator_ok v,
        count_ok p.version_number es,
        Acted-checked a,
        some_event p.version_number es,
      )

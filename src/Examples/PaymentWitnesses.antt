-- ===== src/Examples/PaymentWitnesses.antt =====
-- The theorems on payments at concrete inputs.
use mathlib.Core.List.{Memᴰ}
use security_event_rag_demo.Payment.Model.{Payment}
use security_event_rag_demo.Base.{
  List, some, String, ◌≡◌, ◌↔◌, ◌⊎◌, refl, ap, true, none, [], ◌∷◌, All, contains,
}
use security_event_rag_demo.Base.Exec.{Error, ok, err}
use security_event_rag_demo.Base.Json.{get}
use security_event_rag_demo.Payment.Enums.{
  is_draft_payment, PaymentStatus, PaymentAction, payment_action_value,
}
use security_event_rag_demo.Payment.Model.{
  new_payment, user_ref, lifecycle_entry, sync_version_number,
}
use security_event_rag_demo.Payment.Changes.{submitted_payment, stamped}
use security_event_rag_demo.Payment.Fact.{dump_payment, validate_payment_document}
use security_event_rag_demo.Payment.Fact.Complete.{IsComplete, validate_payment_document-ok}
use security_event_rag_demo.Payment.Validity.{
  check_instruction_validity, check_version, check_status, check_expiry, check_effective,
  check_type,
}
use security_event_rag_demo.Payment.Validity.Approvable.{
  IsApprovable, check_instruction_validity-none,
}
use security_event_rag_demo.Payment.Platform.{PaymentState}
use security_event_rag_demo.Payment.Repository.{find_payment, matches_filter, newer}
use security_event_rag_demo.Payment.Service.Operations.{create_payment, get_or_404}
use security_event_rag_demo.Payment.Service.Queries.{
  can_view_payment, get_payment, list_payments, is_platform_admin,
}
use security_event_rag_demo.Payment.Service.Queries.MayView.{MayView, can_view_payment_iff}
use security_event_rag_demo.Payment.Service.Queries.Viewable.{
  list_payments-viewable, get_payment-viewable,
}
use security_event_rag_demo.Payment.Service.Silent.{payment_documents}
use security_event_rag_demo.Payment.Service.Stores.{Found}
use security_event_rag_demo.Payment.Service.Lifecycle.{AllConsistent, History, PaymentStep}
use security_event_rag_demo.Payment.Service.Consistency.{versions_of}
use security_event_rag_demo.Payment.Service.Creation.{Opened}
use security_event_rag_demo.Payment.Requests.{PaymentRequest, perform_payment}
use security_event_rag_demo.Payment.Requests.Outcomes.{
  Outcome, Reached, payment_request_moves, create_payment_opens, payment_request-AllConsistent,
  Reached-versions,
}
use security_event_rag_demo.Payment.Requests.Refusals.{payment_request_refused}
use security_event_rag_demo.Examples.PaymentData.{
  bob, order, standing_instruction, payment_world, payment_world-laws, payment_settings, anonymous,
  holding_payments, first_payment, sent_payment,
}

abbrev before_approval : PaymentState payment_world
before_approval = holding_payments (sent_payment ∷ [])

abbrev after_approval : PaymentState payment_world
after_approval =
    (perform_payment payment_world payment_settings PaymentRequest.approve_request "P-1" bob
      anonymous before_approval).1

payment_request_moves_example :
    Outcome payment_world payment_settings payment_world-laws PaymentRequest.approve_request bob
      anonymous "P-1"
      (payment_documents payment_world before_approval)
      (payment_documents payment_world after_approval)
    ⊎ (((e : Error) × ((perform_payment payment_world payment_settings
              PaymentRequest.approve_request "P-1" bob anonymous before_approval).0
            ≡ err e))
        × (payment_documents payment_world after_approval
            ≡ payment_documents payment_world before_approval))
payment_request_moves_example =
    payment_request_moves payment_world payment_settings payment_world-laws
      PaymentRequest.approve_request "P-1" bob anonymous before_approval

abbrev after_create : PaymentState payment_world
after_create =
    (create_payment payment_world payment_settings order bob anonymous (holding_payments [])).1

create_payment_opens_example :
    Opened payment_world payment_settings order bob anonymous []
      (payment_documents payment_world after_create)
    ⊎ (((e : Error) × ((create_payment payment_world payment_settings order bob anonymous
              (holding_payments [])).0
            ≡ err e))
        × (payment_documents payment_world after_create ≡ []))
create_payment_opens_example =
    create_payment_opens payment_world payment_settings payment_world-laws order bob anonymous
      (holding_payments [])

sent_payment-AllConsistent : AllConsistent (payment_documents payment_world before_approval)
unfolding new_payment submitted_payment stamped sync_version_number lifecycle_entry
sent_payment-AllConsistent = (
  (
    History.stepped PaymentAction.submit_payment PaymentStatus.draft first_payment.lifecycle_events
        _ refl (History.created _ refl refl) PaymentStep.submitting refl,
    refl,
  ),
  tt,
)

payment_request-AllConsistent_example :
    AllConsistent (payment_documents payment_world after_approval)
payment_request-AllConsistent_example =
    payment_request-AllConsistent payment_world payment_settings payment_world-laws
      PaymentRequest.approve_request "P-1" bob anonymous before_approval sent_payment-AllConsistent

-- After a creation and a submission.
abbrev after_submission : PaymentState payment_world
after_submission =
    (perform_payment payment_world payment_settings PaymentRequest.submit_request "P-1" bob
      anonymous after_create).1

Reached-versions_example :
    All
      (λ e. e.1.version_number ≡ versions_of e.1.status)
      (payment_documents payment_world after_submission)
Reached-versions_example =
    Reached-versions payment_world payment_settings payment_world-laws after_submission (
      Reached.requested PaymentRequest.submit_request "P-1" bob anonymous after_create
        after_submission
        (Reached.created order bob anonymous (holding_payments []) after_create
          (Reached.empty (holding_payments []) refl) refl)
        refl)

reads_sent_payment :
    (get_or_404 payment_world payment_settings "P-1" before_approval).0 ≡ ok sent_payment
unfolding get_or_404 find_payment new_payment submitted_payment stamped sync_version_number
reads_sent_payment = refl

sent_payment-submitted : sent_payment.status ≡ PaymentStatus.submitted
unfolding submitted_payment stamped sync_version_number
sent_payment-submitted = refl

payment_request_refused_example :
    ((message : String) × (perform_payment payment_world payment_settings
          PaymentRequest.submit_request "P-1" bob anonymous before_approval
        ≡ (
          err (Error.value_error message),
          (get_or_404 payment_world payment_settings "P-1" before_approval).1,
        )))
    × (payment_documents payment_world
          (perform_payment payment_world payment_settings PaymentRequest.submit_request "P-1" bob
            anonymous before_approval).1
        ≡ payment_documents payment_world before_approval)
payment_request_refused_example =
    payment_request_refused payment_world payment_settings PaymentRequest.submit_request "P-1" bob
      anonymous before_approval sent_payment reads_sent_payment
      (ap is_draft_payment sent_payment-submitted)

check_instruction_validity-none_example :
    (check_instruction_validity payment_world 5 sent_payment standing_instruction ≡ none)
    ↔ IsApprovable payment_world 5 sent_payment standing_instruction
check_instruction_validity-none_example =
    check_instruction_validity-none payment_world 5 sent_payment standing_instruction

-- The payment is approvable, so that the equivalence is not one of two falsehoods.
sent_payment_approvable :
    check_instruction_validity payment_world 5 sent_payment standing_instruction ≡ none
unfolding check_instruction_validity check_version check_status check_expiry check_effective
    check_type get submitted_payment stamped sync_version_number new_payment
sent_payment_approvable = refl

validate_payment_document-ok_example :
    (validate_payment_document
        (dump_payment (λ t. "2026") sent_payment)
        (payment_action_value PaymentAction.submit_payment)
      ≡ ok tt)
    ↔ IsComplete (λ t. "2026") PaymentAction.submit_payment sent_payment
validate_payment_document-ok_example =
    validate_payment_document-ok (λ t. "2026") sent_payment PaymentAction.submit_payment

-- A draft without a value date: its fact is refused, although it was created.
undated_refused :
    IsComplete (λ t. "2026") PaymentAction.create_payment (record first_payment { value_date = "" })
    → ⊥
undated_refused w = w.0.1.1.1.0 refl

can_view_payment_iff_example : (can_view_payment bob sent_payment ≡ true) ↔ MayView bob sent_payment
can_view_payment_iff_example = can_view_payment_iff bob sent_payment

list_payments-viewable_example :
    (ds : List Payment) × ((list_payments payment_world payment_settings bob none none 5
        before_approval).0
      ≡ ok ds)
    × ((d : Payment)
        → Memᴰ d ds ↔ (
            Memᴰ d (
              payment_world.payments.find
                (matches_filter none none)
                (newer payment_world)
                (some 5)
                before_approval.payments)
            × MayView bob d))
list_payments-viewable_example =
    list_payments-viewable payment_world payment_settings bob none none 5 before_approval

gets_sent_payment :
    (get_payment payment_world payment_settings "P-1" bob before_approval).0 ≡ ok sent_payment
unfolding get_payment get_or_404 find_payment can_view_payment is_platform_admin contains
    new_payment submitted_payment stamped sync_version_number user_ref
gets_sent_payment = refl

get_payment-viewable_example :
    Found "P-1" (payment_documents payment_world before_approval) sent_payment
    × (can_view_payment bob sent_payment ≡ true)
get_payment-viewable_example =
    get_payment-viewable payment_world payment_settings payment_world-laws "P-1" bob before_approval
      sent_payment gets_sent_payment

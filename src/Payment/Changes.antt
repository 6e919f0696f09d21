-- ===== src/Payment/Changes.antt =====
-- What each operation of the payment service (service.py) makes of the payment that it stores.
use security_event_rag_demo.Base.{ℕ, String, some, [], ◌∷◌, ◌++◌}
use security_event_rag_demo.Base.Json.{Fields, field, end, str}
use security_event_rag_demo.Payment.Enums.{PaymentStatus, PaymentAction}
use security_event_rag_demo.Payment.Model.{
  PaymentSubject, Payment, user_ref, lifecycle_entry, sync_version_number,
}

-- The time of a change, with its ISO text, and the id of its lifecycle event.
pub record Stamp : Type 0 where
  pub now : ℕ
  pub timestamp : String
  pub event_id : String

-- `updated_at`, the lifecycle event and `sync_version_number()`, which end every change.
unfoldable pub stamped : PaymentAction → PaymentSubject → Stamp → Fields → Payment → Payment
stamped action subject t details p = sync_version_number (record p {
  updated_at = t.now;
  lifecycle_events =
      p.lifecycle_events ++ (lifecycle_entry action subject t.event_id t.timestamp details ∷ []);
})

abbrev pub reason_details : String → Fields
reason_details reason = field "reason" (str reason) end

unfoldable pub submitted_payment : PaymentSubject → Stamp → Payment → Payment
submitted_payment subject t p =
    stamped PaymentAction.submit_payment subject t end
      (record p { status = PaymentStatus.submitted; submitted_by = some (user_ref subject) })

unfoldable pub approved_payment : PaymentSubject → Stamp → Payment → Payment
approved_payment subject t p =
    stamped PaymentAction.approve_payment subject t end
      (record p { status = PaymentStatus.approved; approved_by = some (user_ref subject) })

unfoldable pub rejected_payment : PaymentSubject → String → Stamp → Payment → Payment
rejected_payment subject reason t p =
    stamped PaymentAction.reject_payment subject t (reason_details reason) (record p {
      status = PaymentStatus.rejected;
      rejected_by = some (user_ref subject);
      rejection_reason = some reason;
    })

unfoldable pub cancelled_payment : PaymentSubject → String → Stamp → Payment → Payment
cancelled_payment subject reason t p =
    stamped PaymentAction.cancel_payment subject t (reason_details reason) (record p {
      status = PaymentStatus.cancelled;
      cancelled_by = some (user_ref subject);
      cancellation_reason = some reason;
    })

-- ===== src/Payment/Enums.antt =====
-- The enumerations of the payment service (payment-service/src/ps/models/enums.py), each with its
-- text value. Those of security events are the instruction service's, word for word.
use mathlib.Core.Bool.{Bool, true, false}
use Prim.Native.String.{String}

pub data PaymentStatus : Type 0 where
  draft submitted approved rejected cancelled : PaymentStatus

pub data PaymentAction : Type 0 where
  create_payment submit_payment approve_payment reject_payment cancel_payment : PaymentAction

abbrev pub payment_status_value : PaymentStatus → String
payment_status_value PaymentStatus.draft = "DRAFT"
payment_status_value PaymentStatus.submitted = "SUBMITTED"
payment_status_value PaymentStatus.approved = "APPROVED"
payment_status_value PaymentStatus.rejected = "REJECTED"
payment_status_value PaymentStatus.cancelled = "CANCELLED"

abbrev pub payment_action_value : PaymentAction → String
payment_action_value PaymentAction.create_payment = "CREATE_PAYMENT"
payment_action_value PaymentAction.submit_payment = "SUBMIT_PAYMENT"
payment_action_value PaymentAction.approve_payment = "APPROVE_PAYMENT"
payment_action_value PaymentAction.reject_payment = "REJECT_PAYMENT"
payment_action_value PaymentAction.cancel_payment = "CANCEL_PAYMENT"

-- `payment.status != PaymentStatus.DRAFT` and `… != PaymentStatus.SUBMITTED`
abbrev pub is_draft_payment : PaymentStatus → Bool
is_draft_payment PaymentStatus.draft = true
is_draft_payment _ = false

abbrev pub is_submitted_payment : PaymentStatus → Bool
is_submitted_payment PaymentStatus.submitted = true
is_submitted_payment _ = false

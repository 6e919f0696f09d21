-- ===== src/Payment/Requests.antt =====
-- The requests on a stored payment (payment-service/src/ps/routes.py).
pub mod Outcomes
pub mod Refusals
use security_event_rag_demo.Base.{String}
use security_event_rag_demo.Instruction.Service.Persist.{Caller}
use security_event_rag_demo.Payment.Model.{PaymentSubject, RejectPaymentRequest, Payment}
use security_event_rag_demo.Payment.Platform.{PaymentPlatform, PaymentSettings, PaymentCall}
use security_event_rag_demo.Payment.Service.Operations.{
  submit_payment, approve_payment, reject_payment,
}

pub data PaymentRequest : Type 0 where
  submit_request : PaymentRequest
  approve_request : PaymentRequest
  reject_request : RejectPaymentRequest → PaymentRequest

abbrev pub perform_payment :
    (p : PaymentPlatform)
    → PaymentSettings
    → PaymentRequest
    → String
    → PaymentSubject
    → Caller
    → PaymentCall p Payment
perform_payment p cfg PaymentRequest.submit_request id u k = submit_payment p cfg id u k
perform_payment p cfg PaymentRequest.approve_request id u k = approve_payment p cfg id u k
perform_payment p cfg (PaymentRequest.reject_request r) id u k = reject_payment p cfg id u r k

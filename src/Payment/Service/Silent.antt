-- ===== src/Payment/Service/Silent.antt =====
-- The calls of the payment service that leave the payments alone, however they end.
use security_event_rag_demo.Base.{String, refl, arith, Option, List}
use security_event_rag_demo.Base.Exec.{Error, Exec}
use security_event_rag_demo.Base.Exec.Frame.{Frame, frame_rules}
use security_event_rag_demo.Base.Json.{Value, Fields}
use security_event_rag_demo.Instruction.Platform.{Stored}
use security_event_rag_demo.Instruction.Authorization.{AuthorizationBlock}
use security_event_rag_demo.Instruction.Service.Persist.{Caller}
use security_event_rag_demo.Payment.Enums.{PaymentAction}
use security_event_rag_demo.Payment.Model.{PaymentSubject, Payment, CreatePaymentRequest}
use security_event_rag_demo.Payment.SecurityEvent.{PaymentSecurityEvent}
use security_event_rag_demo.Payment.Platform.{
  PaymentPlatform, PaymentSettings, PaymentState, PaymentCall, within_session, current_time,
  Session,
}
use security_event_rag_demo.Payment.Repository.{find_payment}
use security_event_rag_demo.Payment.Events.{
  allocate_payment_event_id, insert_payment_event, publish_payment_event, publish_payment,
  save_payment_event, record_payment_authorized, record_payment_denial,
}
use security_event_rag_demo.Payment.Service.Record.{
  Backing, deny_payment, authorize_payment, publish_payment_fact, record_success,
}
use security_event_rag_demo.Payment.Service.Operations.{
  get_or_404, fetch_instruction, fetch_backing, take_stamp, saga_failed, mark_if_single_use,
  allocate_payment_id, draft_payment, if_found,
}

abbrev pub PaymentDocuments : Type 0
PaymentDocuments = List (Stored Payment)

module _ (p : PaymentPlatform) where
  abbrev pub payment_documents : PaymentState p → PaymentDocuments
  payment_documents s = p.payments.documents s.payments

  pub within_session-Frame :
      {A : Type 0} (m : Exec (Session p.Outside) A) → Frame (payment_documents) (within_session p m)
  within_session-Frame m = record { at = λ s. refl }

  pub current_time-Frame_lem : Frame payment_documents (current_time p)
  current_time-Frame_lem = record { at = λ s. refl }

  find_payment-Frame : (id : String) → Frame payment_documents (find_payment p id)
  unfolding find_payment
  find_payment-Frame id = record { at = λ s. refl }

module _ (p : PaymentPlatform) (cfg : PaymentSettings) where
  abbrev Silently : {A : Type 0} → PaymentCall p A → Type 0
  Silently m = Frame (payment_documents p) m

  allocate_payment_event_id-Frame : (id : String) → Silently (allocate_payment_event_id p cfg id)
  unfolding allocate_payment_event_id
  allocate_payment_event_id-Frame id = search (frame_rules, within_session-Frame)

  insert_payment_event-Frame : (e : PaymentSecurityEvent) → Silently (insert_payment_event p cfg e)
  unfolding insert_payment_event
  insert_payment_event-Frame e = record { at = λ s. ground arith }

  publish_payment_event-Frame :
      (e : PaymentSecurityEvent) → Silently (publish_payment_event p cfg e)
  unfolding publish_payment_event
  publish_payment_event-Frame e = record { at = λ s. ground arith }

  publish_payment-Frame : (d : Payment) → Silently (publish_payment p cfg d)
  unfolding publish_payment
  publish_payment-Frame d = record { at = λ s. ground arith }

  save_payment_event-Frame : (e : PaymentSecurityEvent) → Silently (save_payment_event p cfg e)
  unfolding save_payment_event
  save_payment_event-Frame e =
      search (frame_rules, insert_payment_event-Frame, publish_payment_event-Frame)

  record_payment_authorized-Frame :
      (a : PaymentAction) (u : PaymentSubject) (d : Payment) (x : Option Fields)
      → Silently (record_payment_authorized p cfg a u d x)
  unfolding record_payment_authorized
  record_payment_authorized-Frame a u d x =
      search (
        frame_rules, within_session-Frame, allocate_payment_event_id-Frame,
        save_payment_event-Frame,
      )

  pub record_payment_denial-Frame :
      (a : PaymentAction) (u : PaymentSubject) (d : Payment) (r : String) (x : Option Fields)
      → Silently (record_payment_denial p cfg a u d r x)
  unfolding record_payment_denial
  record_payment_denial-Frame a u d r x =
      search (
        frame_rules, within_session-Frame, allocate_payment_event_id-Frame,
        save_payment_event-Frame,
      )

  deny_payment-Frame :
      (a : PaymentAction) (u : PaymentSubject) (d : Payment) (b : AuthorizationBlock)
      → Silently (deny_payment p cfg a u d b)
  unfolding deny_payment
  deny_payment-Frame a u d b = search (frame_rules, record_payment_denial-Frame)

  pub authorize_payment-Frame :
      (a : PaymentAction) (u : PaymentSubject) (d : Payment) (b : Backing) (k : Caller)
      → Silently (authorize_payment p cfg a u d b k)
  unfolding authorize_payment
  authorize_payment-Frame a u d b k = search (frame_rules, within_session-Frame, deny_payment-Frame)

  publish_payment_fact-Frame :
      (a : PaymentAction) (u : PaymentSubject) (d : Payment) (v : Value)
      → Silently (publish_payment_fact p cfg a u d v)
  unfolding publish_payment_fact
  publish_payment_fact-Frame a u d v =
      search (frame_rules, within_session-Frame, publish_payment-Frame)

  pub record_success-Frame :
      (a : PaymentAction) (u : PaymentSubject) (d : Payment) (x : Fields)
      → Silently (record_success p cfg a u d x)
  unfolding record_success
  record_success-Frame a u d x =
      search (frame_rules, record_payment_authorized-Frame, publish_payment_fact-Frame)

  pub get_or_404-Frame : (id : String) → Silently (get_or_404 p cfg id)
  unfolding get_or_404
  get_or_404-Frame id = search (frame_rules, find_payment-Frame)

  pub fetch_instruction-Frame : (id : String) (k : Caller) → Silently (fetch_instruction p cfg id k)
  unfolding fetch_instruction
  fetch_instruction-Frame id k = within_session-Frame p _

  pub fetch_backing-Frame : (d : Payment) (k : Caller) → Silently (fetch_backing p cfg d k)
  unfolding fetch_backing
  fetch_backing-Frame d k = search (frame_rules, fetch_instruction-Frame)

  pub take_stamp-Frame_lem : Silently (take_stamp p cfg)
  take_stamp-Frame_lem = search (frame_rules, within_session-Frame)

  saga_failed-Frame :
      (u : PaymentSubject) (d : Payment) (e : Error) → Silently (saga_failed p cfg u d e)
  unfolding saga_failed
  saga_failed-Frame u d (Error.instruction_state m) =
      search (frame_rules, record_payment_denial-Frame)
  saga_failed-Frame u d _ = search (frame_rules, record_payment_denial-Frame)

  pub mark_if_single_use-Frame :
      (status : String) (u : PaymentSubject) (d : Payment) (k : Caller)
      → Silently (mark_if_single_use p cfg status u d k)
  unfolding mark_if_single_use
  mark_if_single_use-Frame status u d k =
      search (frame_rules, within_session-Frame, saga_failed-Frame)

  allocate_payment_id-Frame : (lob : String) → Silently (allocate_payment_id p cfg lob)
  unfolding allocate_payment_id
  allocate_payment_id-Frame lob = search (frame_rules, within_session-Frame)

  pub draft_payment-Frame :
      (r : CreatePaymentRequest) (u : PaymentSubject) (i : Fields)
      → Silently (draft_payment p cfg r u i)
  unfolding draft_payment
  draft_payment-Frame r u i = search (frame_rules, within_session-Frame, allocate_payment_id-Frame)

  pub if_found-Frame : (d : Payment) (k : Caller) → Silently (if_found p cfg d k)
  if_found-Frame d k = record { at = λ s. (fetch_instruction-Frame d.instruction_id k).at s }

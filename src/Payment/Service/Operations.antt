-- ===== src/Payment/Service/Operations.antt =====
-- The operations of `PaymentService` that change a payment (service.py). Each reads the payment and
-- goes on in a function of its own, `…_from`.
use security_event_rag_demo.Base.{
  String, ◌<>◌, not, Option, none, some, truthy, or_empty, str_eq, if◌then◌else◌,
}
use security_event_rag_demo.Base.Exec.{
  Error, Result, ok, err, pure, raise, lift, raise_if, catch, ◌>>=◌, ◌>>◌,
}
use security_event_rag_demo.Base.Json.{Fields, field, end, str, get, text_of}
use security_event_rag_demo.Clients.Sequence.{next_payment_id}
use security_event_rag_demo.Instruction.Authorization.{details_with_authorization}
use security_event_rag_demo.Instruction.Service.Events.{wrap_sequence_error}
use security_event_rag_demo.Instruction.Service.Persist.{Caller}
use security_event_rag_demo.Payment.Enums.{
  PaymentAction, payment_status_value, is_draft_payment, is_submitted_payment,
}
use security_event_rag_demo.Payment.Model.{
  PaymentSubject, CreatePaymentRequest, RejectPaymentRequest, Payment, new_payment,
}
use security_event_rag_demo.Payment.Changes.{
  Stamp, reason_details, submitted_payment, approved_payment, rejected_payment, cancelled_payment,
}
use security_event_rag_demo.Payment.Platform.{
  PaymentPlatform, PaymentSettings, PaymentCall, within_session, beyond, current_time, fresh_id,
}
use security_event_rag_demo.Payment.IlmClient.{get_instruction_as_user, mark_used}
use security_event_rag_demo.Payment.Repository.{insert_payment, update_payment, find_payment}
use security_event_rag_demo.Payment.Events.{record_payment_denial}
use security_event_rag_demo.Payment.Validity.{
  text_at, int_or, check_instruction_validity, validate_instruction_at_create,
}
use security_event_rag_demo.Payment.Service.Record.{Backing, authorize_payment, record_success}

-- `except PaymentNotFoundError`, and `except InstructionNotFoundError` of `submit` and `reject`
abbrev pub as_lookup_error : String → Error → Error
as_lookup_error id (Error.payment_not_found m) =
    Error.lookup_error ("payment " <> id <> " not found")
as_lookup_error id e = e

abbrev pub as_backing_error : String → Error → Error
as_backing_error id (Error.instruction_not_found m) =
    Error.value_error ("backing instruction " <> id <> " not found")
as_backing_error id e = e

-- `instruction[key]`
abbrev pub item : String → Fields → Result String
item key instruction = elim (text_of (get key instruction)) [
  | none ↦ err (Error.key_error key)
  | some s ↦ ok s
]

-- `except InstructionNotFoundError` of `approve`
abbrev pub found_or_none : Result Fields → Result (Option Fields)
found_or_none (ok instruction) = ok (some instruction)
found_or_none (err (Error.instruction_not_found m)) = ok none
found_or_none (err e) = err e

abbrev pub backing_of : Fields → Backing
backing_of instruction = record {
  end_date = text_at "end_date" instruction;
  status = text_at "status" instruction;
}

-- `str(exc)` of what `mark_used` raises
abbrev pub failure_text : Error → String
failure_text (Error.instruction_not_found m) = m
failure_text (Error.instruction_state m) = m
failure_text (Error.http_error m) = m
failure_text e = ""

abbrev saga_details : String → Fields
saga_details m = field "saga_step" (str "mark_used") (field "saga_error" (str m) end)

abbrev wrong_status : String → String → Payment → Error
wrong_status verb rule payment = Error.value_error (
    "payment cannot be "
    <> verb
    <> " (current status="
    <> payment_status_value payment.status
    <> "); only "
    <> rule)

module _ (p : PaymentPlatform) (cfg : PaymentSettings) where
  -- `_get_or_404`
  unfoldable pub get_or_404 : String → PaymentCall p Payment
  get_or_404 id = catch (find_payment p id) (λ e. raise (as_lookup_error id e))

  unfoldable pub fetch_instruction : String → Caller → PaymentCall p Fields
  fetch_instruction id caller =
      within_session p (get_instruction_as_user p cfg id caller.bearer_token caller.session_id)

  -- The instruction behind a payment, for `submit` and `reject`.
  unfoldable pub fetch_backing : Payment → Caller → PaymentCall p Fields
  fetch_backing payment caller =
      catch (fetch_instruction payment.instruction_id caller)
        (λ e. raise (as_backing_error payment.instruction_id e))

  abbrev pub take_stamp : PaymentCall p Stamp
  take_stamp = do
    now ← current_time p
    event_id ← fresh_id p
    pure (record { now = now; timestamp = p.isoformat now; event_id = event_id })

  -- The end of every change: the document is replaced, then the event and the fact.
  unfoldable pub store_change :
      PaymentAction → PaymentSubject → Fields → Payment → PaymentCall p Payment
  store_change action subject details payment = do
    update_payment p payment
    record_success p cfg action subject payment details
    pure payment

  -- The denial of a creation whose instruction could not be marked, and the exception for it.
  unfoldable pub saga_failed : PaymentSubject → Payment → Error → PaymentCall p (Unit {0})
  saga_failed subject payment (Error.instruction_state m) = do
    record_payment_denial p cfg PaymentAction.create_payment subject payment
        ("Saga step failed — instruction cannot be marked USED: " <> m) (some (saga_details m))
    raise (Error.value_error m)
  saga_failed subject payment e = do
    record_payment_denial p cfg PaymentAction.create_payment subject payment
        ("Saga step failed — ILM unreachable: " <> failure_text e)
        (some (saga_details (failure_text e)))
    raise (
        Error.runtime_error
          ("Could not mark instruction as USED before creating payment: " <> failure_text e))

  abbrev pub mark_instruction : Payment → Caller → PaymentCall p (Unit {0})
  mark_instruction payment caller = do
    answer ← within_session p (
        mark_used p cfg payment.instruction_id payment.payment_id caller.bearer_token
          caller.session_id)
    pure tt

  -- The saga step of `create`.
  unfoldable pub mark_if_single_use :
      String → PaymentSubject → Payment → Caller → PaymentCall p (Unit {0})
  mark_if_single_use status subject payment caller =
      if str_eq status "SINGLE_USE"
      then catch (mark_instruction payment caller) (saga_failed subject payment)
      else pure tt

  unfoldable pub allocate_payment_id : String → PaymentCall p String
  allocate_payment_id owning_lob = do
    now ← current_time p
    catch
        (within_session p (
          beyond p (
            next_payment_id p.post p.python_str cfg.sequence_service_url (p.utc_date now)
              owning_lob)))
        (λ e. raise (wrap_sequence_error "sequence allocation failed: " e))

  -- The draft of `create`, from the instruction that was read.
  unfoldable pub draft_payment :
      CreatePaymentRequest → PaymentSubject → Fields → PaymentCall p Payment
  draft_payment request subject instruction = do
    event_id ← fresh_id p
    owning_lob ← lift (item "owning_lob" instruction)
    payment_id ← allocate_payment_id owning_lob
    currency ← lift (item "currency" instruction)
    now ← current_time p
    pure (
        new_payment payment_id request.instruction_id (int_or 1 (get "version_number" instruction))
          request.amount currency request.value_date owning_lob (text_at "status" instruction)
          subject event_id now (p.isoformat now))

  -- The rest of `create`, with the draft.
  unfoldable pub create_draft : PaymentSubject → Caller → Backing → Payment → PaymentCall p Payment
  create_draft subject caller backing payment = do
    authorization ←
        authorize_payment p cfg PaymentAction.create_payment subject payment backing caller
    mark_if_single_use backing.status subject payment caller
    insert_payment p payment
    record_success p cfg PaymentAction.create_payment subject payment
        (details_with_authorization none authorization)
    pure payment

  unfoldable pub create_payment :
      CreatePaymentRequest → PaymentSubject → Caller → PaymentCall p Payment
  create_payment request subject caller = do
    instruction ← fetch_instruction request.instruction_id caller
    now ← current_time p
    lift (validate_instruction_at_create p now instruction)
    payment ← draft_payment request subject instruction
    create_draft subject caller (backing_of instruction) payment

  unfoldable pub submit_payment_from : PaymentSubject → Caller → Payment → PaymentCall p Payment
  submit_payment_from subject caller payment = do
    raise_if (not (is_draft_payment payment.status))
        (wrong_status "submitted" "DRAFT payments can be submitted" payment)
    instruction ← fetch_backing payment caller
    authorization ←
        authorize_payment p cfg PaymentAction.submit_payment subject payment
          (backing_of instruction) caller
    t ← take_stamp
    store_change PaymentAction.submit_payment subject
        (details_with_authorization none authorization) (submitted_payment subject t payment)

  unfoldable pub submit_payment : String → PaymentSubject → Caller → PaymentCall p Payment
  submit_payment id subject caller = do
    payment ← get_or_404 id
    submit_payment_from subject caller payment

  unfoldable pub reject_payment_from :
      PaymentSubject → RejectPaymentRequest → Caller → Payment → PaymentCall p Payment
  reject_payment_from subject request caller payment = do
    raise_if (not (is_submitted_payment payment.status))
        (wrong_status "rejected" "SUBMITTED payments can be rejected" payment)
    instruction ← fetch_backing payment caller
    authorization ←
        authorize_payment p cfg PaymentAction.reject_payment subject payment
          (backing_of instruction) caller
    t ← take_stamp
    store_change PaymentAction.reject_payment subject
        (details_with_authorization (some (reason_details request.reason)) authorization)
        (rejected_payment subject request.reason t payment)

  unfoldable pub reject_payment :
      String → PaymentSubject → RejectPaymentRequest → Caller → PaymentCall p Payment
  reject_payment id subject request caller = do
    payment ← get_or_404 id
    reject_payment_from subject request caller payment

  -- `_cancel`
  unfoldable pub cancel_payment : PaymentSubject → Payment → String → PaymentCall p Payment
  cancel_payment subject payment reason = do
    t ← take_stamp
    store_change PaymentAction.cancel_payment subject (reason_details reason)
        (cancelled_payment subject reason t payment)

  -- An approval whose instruction is still valid.
  unfoldable pub approve_valid : PaymentSubject → Caller → Fields → Payment → PaymentCall p Payment
  approve_valid subject caller instruction payment = do
    authorization ←
        authorize_payment p cfg PaymentAction.approve_payment subject payment
          (backing_of instruction) caller
    t ← take_stamp
    store_change PaymentAction.approve_payment subject
        (details_with_authorization none authorization) (approved_payment subject t payment)

  -- `if invalid_reason:`
  abbrev pub approve_or_cancel :
      PaymentSubject → Caller → Fields → Payment → Option String → PaymentCall p Payment
  approve_or_cancel subject caller instruction payment reason =
      if truthy reason
      then cancel_payment subject payment (or_empty reason)
      else approve_valid subject caller instruction payment

  abbrev pub if_found : Payment → Caller → PaymentCall p (Option Fields)
  if_found payment caller s =
      let answer = fetch_instruction payment.instruction_id caller s in
      (found_or_none answer.0, answer.1)

  abbrev pub approve_with :
      PaymentSubject → Caller → Payment → Option Fields → PaymentCall p Payment
  approve_with subject caller payment none =
      cancel_payment subject payment
        ("backing instruction " <> payment.instruction_id <> " could not be found at approval time")
  approve_with subject caller payment (some instruction) = do
    now ← current_time p
    approve_or_cancel subject caller instruction payment
        (check_instruction_validity p now payment instruction)

  unfoldable pub approve_payment_from : PaymentSubject → Caller → Payment → PaymentCall p Payment
  approve_payment_from subject caller payment = do
    raise_if (not (is_submitted_payment payment.status))
        (wrong_status "approved" "SUBMITTED payments can be approved" payment)
    instruction ← if_found payment caller
    approve_with subject caller payment instruction

  unfoldable pub approve_payment : String → PaymentSubject → Caller → PaymentCall p Payment
  approve_payment id subject caller = do
    payment ← get_or_404 id
    approve_payment_from subject caller payment

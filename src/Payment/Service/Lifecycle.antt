-- ===== src/Payment/Service/Lifecycle.antt =====
-- The state machine of a payment, and what the operations of the payment service do to the stored
-- payments.
use mathlib.Core.Path.{subst}
use security_event_rag_demo.Base.{
  ℕ, String, ◌≡◌, refl, sym, ap, false, not, some, List, [], ◌∷◌, ◌++◌, length, length-append,
  first, update_first, All, arith,
}
use security_event_rag_demo.Base.Json.{Fields}
use security_event_rag_demo.Instruction.Parties.{UserReference}
use security_event_rag_demo.Instruction.Platform.{set_fields}
use security_event_rag_demo.Payment.Enums.{
  PaymentStatus, PaymentAction, payment_action_value, is_draft_payment, is_submitted_payment,
}
use security_event_rag_demo.Payment.Model.{
  Float, PaymentSubject, PaymentLifecycleEvent, Payment, lifecycle_entry, sync_version_number,
}
use security_event_rag_demo.Payment.Changes.{
  Stamp, stamped, submitted_payment, approved_payment, rejected_payment, cancelled_payment,
}
use security_event_rag_demo.Payment.Repository.{has_payment_id}
use security_event_rag_demo.Payment.Service.Silent.{PaymentDocuments}

-- Which status may follow which, by the action.
pub data PaymentStep : PaymentAction → PaymentStatus → PaymentStatus → Type 0 where
  submitting : PaymentStep PaymentAction.submit_payment PaymentStatus.draft PaymentStatus.submitted
  approving :
      PaymentStep PaymentAction.approve_payment PaymentStatus.submitted PaymentStatus.approved
  rejecting :
      PaymentStep PaymentAction.reject_payment PaymentStatus.submitted PaymentStatus.rejected
  cancelling :
      PaymentStep PaymentAction.cancel_payment PaymentStatus.submitted PaymentStatus.cancelled

-- The lifecycle events that lead to a status.
pub data History : List PaymentLifecycleEvent → PaymentStatus → Type 0 where
  created :
      {es : List PaymentLifecycleEvent} (e : PaymentLifecycleEvent)
      → es ≡ e ∷ []
      → e.action ≡ payment_action_value PaymentAction.create_payment
      → History es PaymentStatus.draft
  stepped :
      {es : List PaymentLifecycleEvent} {t : PaymentStatus} (a : PaymentAction) (s : PaymentStatus)
      (earlier : List PaymentLifecycleEvent) (e : PaymentLifecycleEvent)
      → es ≡ earlier ++ (e ∷ [])
      → History earlier s
      → PaymentStep a s t
      → e.action ≡ payment_action_value a
      → History es t

-- A payment whose events lead to its status, and whose version number counts them.
abbrev pub IsConsistent : Payment → Type 0
IsConsistent d =
    History d.lifecycle_events d.status × (d.version_number ≡ length d.lifecycle_events)

abbrev pub AllConsistent : PaymentDocuments → Type 0
AllConsistent = All (λ e. IsConsistent e.1)

-- What no operation changes of a payment.
pub record Terms : Type 0 where
  pub payment_id : String
  pub instruction_id : String
  pub instruction_version : ℕ
  pub amount : Float
  pub currency : String
  pub value_date : String
  pub owning_lob : String
  pub instruction_type : String
  pub created_by : UserReference
  pub created_at : ℕ

abbrev pub terms_of : Payment → Terms
terms_of d = record {
  payment_id = d.payment_id;
  instruction_id = d.instruction_id;
  instruction_version = d.instruction_version;
  amount = d.amount;
  currency = d.currency;
  value_date = d.value_date;
  owning_lob = d.owning_lob;
  instruction_type = d.instruction_type;
  created_by = d.created_by;
  created_at = d.created_at;
}

-- `after` is `before` moved on by an action of a user, which one more event tells.
pub record Advanced (a : PaymentAction) (u : PaymentSubject) (before after : Payment) : Type 0 where
  pub step : PaymentStep a before.status after.status
  pub terms : terms_of after ≡ terms_of before
  pub event : PaymentLifecycleEvent
  pub event_action : event.action ≡ payment_action_value a
  pub event_actor : event.actor_user_id ≡ u.user_id
  pub events : after.lifecycle_events ≡ before.lifecycle_events ++ (event ∷ [])
  pub version : after.version_number ≡ length after.lifecycle_events

-- `c'` is `c` with the payment `before` of `id` replaced by `after`.
pub record Replaced (id : String) (before after : Payment) (c c' : PaymentDocuments) : Type 0 where
  pub key : String
  pub found : first (has_payment_id id) c ≡ some (key, before)
  pub result : c' ≡ update_first (has_payment_id id) (set_fields (λ _. after)) c

pub submit_step :
    (s : PaymentStatus)
    → not (is_draft_payment s) ≡ false
    → PaymentStep PaymentAction.submit_payment s PaymentStatus.submitted
submit_step PaymentStatus.draft e = PaymentStep.submitting
submit_step _ e = absurd (cc e)

pub submitted_only :
    (s : PaymentStatus) → not (is_submitted_payment s) ≡ false → s ≡ PaymentStatus.submitted
submitted_only PaymentStatus.submitted e = refl
submitted_only _ e = absurd (cc e)

module _ (u : PaymentSubject) (t : Stamp) where
  -- Every change of a payment ends in the same way.
  stamped-Advanced :
      (a : PaymentAction) (details : Fields) (before d : Payment)
      → terms_of d ≡ terms_of before
      → d.lifecycle_events ≡ before.lifecycle_events
      → PaymentStep a before.status d.status
      → Advanced a u before (stamped a u t details d)
  unfolding stamped sync_version_number lifecycle_entry
  stamped-Advanced a details before d terms same step = record {
    step = step;
    terms = terms;
    event = lifecycle_entry a u t.event_id t.timestamp details;
    event_action = refl;
    event_actor = refl;
    events = ap (λ es. es ++ (lifecycle_entry a u t.event_id t.timestamp details ∷ [])) same;
    version = ground (
      arith,
      length-append d.lifecycle_events (lifecycle_entry a u t.event_id t.timestamp details ∷ []),
    );
  }

  pub submitted_payment-Advanced :
      (d : Payment)
      → not (is_draft_payment d.status) ≡ false
      → Advanced PaymentAction.submit_payment u d (submitted_payment u t d)
  unfolding submitted_payment
  submitted_payment-Advanced d h = stamped-Advanced _ _ d _ refl refl (submit_step d.status h)

  -- The actions on a submitted payment.
  deciding :
      (a : PaymentAction) (details : Fields) (d e : Payment)
      → not (is_submitted_payment d.status) ≡ false
      → terms_of e ≡ terms_of d
      → e.lifecycle_events ≡ d.lifecycle_events
      → PaymentStep a PaymentStatus.submitted e.status
      → Advanced a u d (stamped a u t details e)
  deciding a details d e h terms events step =
      stamped-Advanced a details d e terms events
        (subst (λ s. PaymentStep a s e.status) (sym (submitted_only d.status h)) step)

  pub approved_payment-Advanced :
      (d : Payment)
      → not (is_submitted_payment d.status) ≡ false
      → Advanced PaymentAction.approve_payment u d (approved_payment u t d)
  unfolding approved_payment
  approved_payment-Advanced d h = deciding _ _ d _ h refl refl PaymentStep.approving

  pub rejected_payment-Advanced :
      (d : Payment) (reason : String)
      → not (is_submitted_payment d.status) ≡ false
      → Advanced PaymentAction.reject_payment u d (rejected_payment u reason t d)
  unfolding rejected_payment
  rejected_payment-Advanced d reason h = deciding _ _ d _ h refl refl PaymentStep.rejecting

  pub cancelled_payment-Advanced :
      (d : Payment) (reason : String)
      → not (is_submitted_payment d.status) ≡ false
      → Advanced PaymentAction.cancel_payment u d (cancelled_payment u reason t d)
  unfolding cancelled_payment
  cancelled_payment-Advanced d reason h = deciding _ _ d _ h refl refl PaymentStep.cancelling

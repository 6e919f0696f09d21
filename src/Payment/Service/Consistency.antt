-- ===== src/Payment/Service/Consistency.antt =====
-- Stored payments stay consistent: their events lead to their status, and their version number counts
-- the events.
use mathlib.Core.Path.{subst}
use security_event_rag_demo.Base.{
  ℕ, suc, String, ◌≡◌, refl, sym, ap, ◌∙◌, List, [], ◌∷◌, length, length-append, first-All,
  update_first-All, arith,
}
use security_event_rag_demo.Instruction.Platform.{Stored, set_fields}
use security_event_rag_demo.Payment.Enums.{PaymentStatus, PaymentAction}
use security_event_rag_demo.Payment.Model.{PaymentSubject, PaymentLifecycleEvent, Payment}
use security_event_rag_demo.Payment.Repository.{has_payment_id}
use security_event_rag_demo.Payment.Service.Silent.{PaymentDocuments}
use security_event_rag_demo.Payment.Service.Lifecycle.{
  PaymentStep, History, IsConsistent, AllConsistent, Advanced, Replaced,
}

-- How many events lead to a status.
abbrev pub versions_of : PaymentStatus → ℕ
versions_of PaymentStatus.draft = 1
versions_of PaymentStatus.submitted = 2
versions_of PaymentStatus.approved = 3
versions_of PaymentStatus.rejected = 3
versions_of PaymentStatus.cancelled = 3

step_counts :
    {a : PaymentAction} {s t : PaymentStatus}
    → PaymentStep a s t
    → versions_of t ≡ suc (versions_of s)
step_counts PaymentStep.submitting = refl
step_counts PaymentStep.approving = refl
step_counts PaymentStep.rejecting = refl
step_counts PaymentStep.cancelling = refl

History-length :
    {es : List PaymentLifecycleEvent} {s : PaymentStatus} → History es s → length es ≡ versions_of s
History-length (History.created e same act) = ap length same
History-length (History.stepped a s earlier e same h step act) =
    omega
      (arith, ap length same, length-append earlier (e ∷ []), History-length h, step_counts step)

-- The version number of a consistent payment is 1 for a draft, 2 once it is submitted, and 3 once it
-- is approved, rejected or cancelled, so that no payment has more than three versions.
pub consistent-version : (d : Payment) → IsConsistent d → d.version_number ≡ versions_of d.status
consistent-version d w = w.1 ∙ History-length w.0

Advanced-IsConsistent :
    (a : PaymentAction) (u : PaymentSubject) (before after : Payment)
    → Advanced a u before after
    → IsConsistent before
    → IsConsistent after
Advanced-IsConsistent a u before after adv w = (
  History.stepped a before.status before.lifecycle_events adv.event adv.events w.0 adv.step
      adv.event_action,
  adv.version,
)

-- A replacement by a payment that an action has moved on.
pub Replaced-AllConsistent :
    (a : PaymentAction) (u : PaymentSubject) (id : String) (before after : Payment)
    (c c' : PaymentDocuments)
    → Advanced a u before after
    → Replaced id before after c c'
    → AllConsistent c
    → AllConsistent c'
Replaced-AllConsistent a u id before after c c' adv r w =
    let P = λ (e : Stored Payment). IsConsistent e.1 in
    let was = first-All P (has_payment_id id) c (r.key, before) w r.found in
    subst AllConsistent (sym r.result) (
      update_first-All P (has_payment_id id) (set_fields (λ _. after)) c (r.key, before) w r.found
        (Advanced-IsConsistent a u before after adv was))

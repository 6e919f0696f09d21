-- ===== src/Payment/Service/Queries.antt =====
-- The operations of `PaymentService` that read (service.py: get, list), and who may see a payment.
pub mod MayView
pub mod Viewable
use security_event_rag_demo.Base.{
  ℕ, String, Bool, false, not, ◌&&◌, ◌||◌, Option, none, some, List, select, contains, str_eq,
}
use security_event_rag_demo.Base.Exec.{Error, pure, raise_if, ◌>>=◌, ◌>>◌}
use security_event_rag_demo.Payment.Model.{PaymentSubject, Payment}
use security_event_rag_demo.Payment.Platform.{PaymentPlatform, PaymentSettings, PaymentCall}
use security_event_rag_demo.Payment.Repository.{list_stored}
use security_event_rag_demo.Payment.Service.Operations.{get_or_404}

-- `is_platform_admin` (shared/platform_auth/src/platform_auth/deps.py)
unfoldable pub is_platform_admin : List String → List String → Bool
is_platform_admin roles groups = contains roles "PLATFORM_ADMIN" || contains groups "ADMIN"

-- `_covers_payment_lob`
unfoldable pub covers_payment_lob : PaymentSubject → String → Bool
covers_payment_lob subject owning_lob = contains subject.covering_lobs owning_lob

-- `subject.lob == lob`
abbrev pub has_lob : Option String → String → Bool
has_lob none lob = false
has_lob (some s) lob = str_eq s lob

-- `_can_view_payment`
unfoldable pub can_view_payment : PaymentSubject → Payment → Bool
can_view_payment subject payment =
    is_platform_admin subject.roles subject.groups
    || str_eq subject.user_id payment.created_by.user_id
    || (contains subject.roles "PAYMENT_CREATOR"
        && (covers_payment_lob subject payment.owning_lob
            || has_lob subject.lob payment.owning_lob))
    || (contains subject.roles "FUNDING_APPROVER" && covers_payment_lob subject payment.owning_lob)

module _ (p : PaymentPlatform) (cfg : PaymentSettings) where
  unfoldable pub get_payment : String → PaymentSubject → PaymentCall p Payment
  get_payment id subject = do
    payment ← get_or_404 p cfg id
    raise_if (not (can_view_payment subject payment))
        (Error.permission_error "not authorized to view payment")
    pure payment

  unfoldable pub list_payments :
      PaymentSubject → Option String → Option String → ℕ → PaymentCall p (List Payment)
  list_payments subject instruction_id status limit = do
    payments ← list_stored p instruction_id status limit
    pure (select (can_view_payment subject) payments)

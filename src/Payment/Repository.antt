-- ===== src/Payment/Repository.antt =====
-- `PaymentRepository` (payment-service/src/ps/repository.py). A document is the payment itself.
use Prim.Native.String.{compare}
use text.Mathlib.Text.{is_lt}
use security_event_rag_demo.Base.{
  ℕ, String, Bool, not, ◌&&◌, ◌||◌, Option, none, some, List, str_eq, truthy, or_empty,
}
use security_event_rag_demo.Base.Exec.{Error, Result, ok, err}
use security_event_rag_demo.Instruction.Platform.{Stored}
use security_event_rag_demo.Payment.Enums.{payment_status_value}
use security_event_rag_demo.Payment.Model.{Payment}
use security_event_rag_demo.Payment.Platform.{PaymentPlatform, PaymentState, PaymentCall}

-- `{"payment_id": id}`
abbrev pub has_payment_id : String → Stored Payment → Bool
has_payment_id id (_, d) = str_eq d.payment_id id

-- The filter of `list`, and its order by `created_at`, the newest first.
abbrev pub matches_filter : Option String → Option String → Payment → Bool
matches_filter instruction_id status d =
    (not (truthy instruction_id) || str_eq d.instruction_id (or_empty instruction_id))
    && (not (truthy status) || str_eq (payment_status_value d.status) (or_empty status))

module _ (p : PaymentPlatform) where
  -- `created_at` is stored as its JSON text.
  abbrev pub newer : Payment → Payment → Bool
  newer a b = is_lt (compare (p.json_datetime b.created_at) (p.json_datetime a.created_at))

  abbrev pub after_insert :
      PaymentState p → Result (String × p.payments.Coll) → Result (Unit {0}) × PaymentState p
  after_insert s (ok (_, c)) = (ok tt, record s { payments = c })
  after_insert s (err e) = (err e, s)

  unfoldable pub insert_payment : Payment → PaymentCall p (Unit {0})
  insert_payment d s = after_insert s (p.payments.insert_one d s.payments)

  abbrev pub after_replace :
      PaymentState p → Result (ℕ × p.payments.Coll) → Result (Unit {0}) × PaymentState p
  after_replace s (ok (_, c)) = (ok tt, record s { payments = c })
  after_replace s (err e) = (err e, s)

  -- `update`: the payment that was stored is not looked at.
  unfoldable pub update_payment : Payment → PaymentCall p (Unit {0})
  update_payment d s = after_replace s (p.replace_one (has_payment_id d.payment_id) d s.payments)

  abbrev pub found_payment : String → Option (Stored Payment) → Result Payment
  found_payment id none = err (Error.payment_not_found id)
  found_payment id (some (_, d)) = ok d

  -- `find_by_id`
  unfoldable pub find_payment : String → PaymentCall p Payment
  find_payment id s = (found_payment id (p.payments.find_one (has_payment_id id) s.payments), s)

  unfoldable pub list_stored : Option String → Option String → ℕ → PaymentCall p (List Payment)
  list_stored instruction_id status limit s =
      (ok (p.payments.find (matches_filter instruction_id status) newer (some limit) s.payments), s)

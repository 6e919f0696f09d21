-- ===== src/Payment/Service/Queries/Viewable.antt =====
-- Whom the payment service shows a payment.
use mathlib.Core.List.{Memᴰ}
use security_event_rag_demo.Base.Members.{select_iff}
use security_event_rag_demo.Payment.Service.Queries.MayView.{MayView, can_view_payment_iff}
use security_event_rag_demo.Base.{
  ℕ, String, ◌≡◌, refl, ◌↔◌, some, true, false, not, Option, List, select, arith,
}
use security_event_rag_demo.Base.Exec.{Error, ok, pure, raise_if, ◌>>=◌}
use security_event_rag_demo.Base.Exec.Post.{Post, Post-bind, Post-raise_if, Post-return}
use security_event_rag_demo.Payment.Model.{PaymentSubject, Payment}
use security_event_rag_demo.Payment.Platform.{PaymentPlatform, PaymentSettings, PaymentState}
use security_event_rag_demo.Payment.Repository.{list_stored, matches_filter, newer}
use security_event_rag_demo.Payment.Service.Silent.{payment_documents}
use security_event_rag_demo.Payment.Service.Stores.{PaymentLaws, Found, get_or_404-Post}
use security_event_rag_demo.Payment.Service.Queries.{can_view_payment, get_payment, list_payments}

module _ (p : PaymentPlatform) (cfg : PaymentSettings) where
  -- `list` returns, and a payment is in its answer exactly if it is among the payments that the
  -- collection gave for the filter and the limit, and the caller may view it.
  pub list_payments-viewable :
      (u : PaymentSubject) (instruction_id status : Option String) (limit : ℕ) (s : PaymentState p)
      → (ds : List Payment) × ((list_payments p cfg u instruction_id status limit s).0 ≡ ok ds)
        × ((d : Payment)
            → Memᴰ d ds ↔ (
                Memᴰ d (
                  p.payments.find
                    (matches_filter instruction_id status)
                    (newer p)
                    (some limit)
                    s.payments)
                × MayView u d))
  unfolding list_payments list_stored
  list_payments-viewable u instruction_id status limit s =
      let page =
        p.payments.find (matches_filter instruction_id status) (newer p) (some limit) s.payments in
      (
        select (can_view_payment u) page,
        refl,
        λ d.
            let w = select_iff (can_view_payment u) page d in
            let v = can_view_payment_iff u d in
            (λ m. let k = w.0 m in (k.0, v.0 k.1), λ k. w.1 (k.0, v.1 k.1)),
      )

  -- A payment that was read, and may be viewed.
  abbrev Shown : PaymentSubject → String → PaymentState p → Payment → Type 0
  Shown u id s d = Found id (payment_documents p s) d × (can_view_payment u d ≡ true)

  view-Post :
      (u : PaymentSubject) (id : String) (s : PaymentState p) (d : Payment)
      → Post {S = PaymentState p}
          (λ _. Found id (payment_documents p s) d)
          (λ e _. Shown u id s e)
          (raise_if
              (not (can_view_payment u d))
              (Error.permission_error "not authorized to view payment")
            >>= λ _. pure d)
  view-Post u id s d =
      Post-bind (λ _ _. Found id (payment_documents p s) d × (not (can_view_payment u d) ≡ false)) _
        _
        (Post-raise_if (not (can_view_payment u d))
          (Error.permission_error "not authorized to view payment"))
        (λ _. Post-return d (λ t w. (w.0, ground (arith, w.1))))

  -- Over a collection with the documented laws: if `get` returns a payment, it is the stored payment
  -- of that id and the caller may view it.
  pub get_payment-viewable :
      (laws : PaymentLaws p) (id : String) (u : PaymentSubject) (s : PaymentState p) (d : Payment)
      → (get_payment p cfg id u s).0 ≡ ok d
      → Found id (payment_documents p s) d × (can_view_payment u d ≡ true)
  unfolding get_payment
  get_payment-viewable laws id u s d h =
      (Post-bind (λ e _. Found id (payment_documents p s) e) _ _
          (get_or_404-Post p laws cfg id (payment_documents p s)) (view-Post u id s)).at
        s refl d h

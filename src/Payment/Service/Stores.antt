-- ===== src/Payment/Service/Stores.antt =====
-- Reading a payment and replacing it, over a collection with the documented laws.
use mathlib.Core.Path.{subst}
use security_event_rag_demo.Base.{
  ℕ, String, ◌≡◌, refl, sym, ap, ◌∙◌, ◌⊎◌, inl, inr, Option, none, some, [], ◌∷◌, ◌++◌, first,
  first-passes, update_first, eq_iff,
}
use security_event_rag_demo.Base.Exec.{Error, Result, ok, err}
use security_event_rag_demo.Base.Exec.Frame.{Frame-bind, Frame-pure, ok_inj}
use security_event_rag_demo.Base.Exec.Post.{Post, Post-catch}
use security_event_rag_demo.Base.Exec.Run.{Run, Run-then, Run-weaken}
use security_event_rag_demo.Base.Json.{Fields}
use security_event_rag_demo.Instruction.Platform.{Stored, CollectionLaws, set_fields}
use security_event_rag_demo.Payment.Enums.{PaymentAction}
use security_event_rag_demo.Payment.Model.{PaymentSubject, Payment}
use security_event_rag_demo.Payment.Platform.{
  PaymentPlatform, PaymentSettings, PaymentState, ReplaceLaws,
}
use security_event_rag_demo.Payment.Repository.{
  has_payment_id, insert_payment, update_payment, find_payment, found_payment, after_insert,
  after_replace,
}
use security_event_rag_demo.Payment.Service.Operations.{get_or_404, store_change, as_lookup_error}
use security_event_rag_demo.Payment.Service.Silent.{
  PaymentDocuments, payment_documents, record_success-Frame,
}
use security_event_rag_demo.Payment.Service.Lifecycle.{Advanced, Replaced}

pub record PaymentLaws (p : PaymentPlatform) : Type 0 where
  pub collection : CollectionLaws p.payments
  pub replaces : ReplaceLaws p.payments p.replace_one

-- `d` is the stored payment of `id`.
pub record Found (id : String) (c : PaymentDocuments) (d : Payment) : Type 0 where
  pub key : String
  pub found : first (has_payment_id id) c ≡ some (key, d)
  pub own_id : d.payment_id ≡ id

module _ (p : PaymentPlatform) (laws : PaymentLaws p) where
  Found-read :
      (id : String) (c : PaymentDocuments) (r : Option (Stored Payment)) (d : Payment)
      → first (has_payment_id id) c ≡ r
      → ◌≡◌ {A = Result Payment} (found_payment p id r) (ok d)
      → Found id c d
  Found-read id c none d h e = absurd (cc e)
  Found-read id c (some (k, x)) d h e =
      let same : x ≡ d = ok_inj e in
      record {
        key = k;
        found = h ∙ ap (λ y. some (k, y)) same;
        own_id =
            sym (ap (λ y. y.payment_id) same)
            ∙ (eq_iff x.payment_id id).0 (first-passes (has_payment_id id) c (k, x) h);
      }

  find_payment-Post :
      (id : String) (c : PaymentDocuments)
      → Post (λ s. payment_documents p s ≡ c) (λ d _. Found id c d) (find_payment p id)
  unfolding find_payment
  find_payment-Post id c = record {
    at = λ s h d e.
        Found-read id c (p.payments.find_one (has_payment_id id) s.payments) d
          (ap (first (has_payment_id id)) (sym h)
            ∙ sym (laws.collection.find_one_first (has_payment_id id) s.payments))
          e;
  }

  pub get_or_404-Post :
      (cfg : PaymentSettings) (id : String) (c : PaymentDocuments)
      → Post (λ s. payment_documents p s ≡ c) (λ d _. Found id c d) (get_or_404 p cfg id)
  unfolding get_or_404
  get_or_404-Post cfg id c = Post-catch _ (as_lookup_error id) (find_payment-Post id c)

  -- What a replacement makes of the documents.
  abbrev Rewritten : Payment → PaymentDocuments → PaymentDocuments → Type 0
  Rewritten d c c' = c' ≡ update_first (has_payment_id d.payment_id) (set_fields (λ _. d)) c

  replaced_at :
      (d : Payment) (c : PaymentDocuments) (s : PaymentState p) (r : Result (ℕ × p.payments.Coll))
      → p.replace_one (has_payment_id d.payment_id) d s.payments ≡ r
      → payment_documents p s ≡ c
      → Rewritten d c (payment_documents p (after_replace p s r).1)
        ⊎ (((e : Error) × ((after_replace p s r).0 ≡ err e))
            × (payment_documents p (after_replace p s r).1 ≡ c))
  replaced_at d c s (ok (n, t)) e h = inl (
      laws.replaces.replace_one_first (has_payment_id d.payment_id) d s.payments t n e
      ∙ ap (update_first (has_payment_id d.payment_id) (set_fields (λ _. d))) h)
  replaced_at d c s (err x) e h = inr ((x, refl), h)

  update_payment-Run :
      (d : Payment) (c : PaymentDocuments)
      → Run (payment_documents p) c (Rewritten d c) (update_payment p d)
  unfolding update_payment
  update_payment-Run d c = record {
    at = λ s h. replaced_at d c s (p.replace_one (has_payment_id d.payment_id) d s.payments) refl h;
  }

  abbrev Inserted : Payment → PaymentDocuments → PaymentDocuments → Type 0
  Inserted d c c' = (key : String) × (c' ≡ c ++ ((key, d) ∷ []))

  Inserted-answer :
      (d : Payment) (c : PaymentDocuments) (s : PaymentState p)
      (r : Result (String × p.payments.Coll))
      → p.payments.insert_one d s.payments ≡ r
      → payment_documents p s ≡ c
      → Inserted d c (payment_documents p (after_insert p s r).1)
        ⊎ (((e : Error) × ((after_insert p s r).0 ≡ err e))
            × (payment_documents p (after_insert p s r).1 ≡ c))
  Inserted-answer d c s (ok (k, t)) e h =
      inl
        (k, laws.collection.insert_one_appends d s.payments t k e ∙ ap (λ x. x ++ ((k, d) ∷ [])) h)
  Inserted-answer d c s (err x) e h = inr ((x, refl), h)

  pub insert_payment-Run :
      (d : Payment) (c : PaymentDocuments)
      → Run (payment_documents p) c (Inserted d c) (insert_payment p d)
  unfolding insert_payment
  insert_payment-Run d c = record {
    at = λ s h. Inserted-answer d c s (p.payments.insert_one d s.payments) refl h;
  }

  -- The last step of a change of a payment that was found.
  pub store_change-Run :
      (cfg : PaymentSettings) (a : PaymentAction) (u : PaymentSubject) (details : Fields)
      (id : String) (c : PaymentDocuments) (before after : Payment)
      → Found id c before
      → Advanced a u before after
      → Run
          (payment_documents p)
          c
          (λ c'. Replaced id before after c c')
          (store_change p cfg a u details after)
  unfolding store_change
  store_change-Run cfg a u details id c before after f adv =
      let same : after.payment_id ≡ id = ap (λ x. x.payment_id) adv.terms ∙ f.own_id in
      Run-then _ _
        (Run-weaken
          (λ c' w. record {
            key = f.key;
            found = f.found;
            result =
                subst (λ x. c' ≡ update_first (has_payment_id x) (set_fields (λ _. after)) c) same
                  w;
          })
          (update_payment-Run after c))
        (λ _. Frame-bind _ _ (record_success-Frame p cfg a u after details) (λ _. Frame-pure after))

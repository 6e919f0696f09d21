-- ===== src/Payment/Fact/Entries.antt =====
-- What each check of the validation of payment facts (models/fact_validation.py) accepts.
use security_event_rag_demo.Base.{
  ℕ, String, ◌≡◌, ◌≢◌, ◌≤◌, ◌↔◌, refl, true, false, Option, none, some, List, [], ◌∷◌, All, length,
  arith, eq_iff,
}
use security_event_rag_demo.Base.Exec.{Result, ok, err}
use security_event_rag_demo.Base.Json.{Value, optional, get, Fields, array, str, number, real}
use security_event_rag_demo.Clients.Http.{truth}
use security_event_rag_demo.Instruction.Parties.{UserReference}
use security_event_rag_demo.Instruction.Fact.{is_missing, lacks_user_id}
use security_event_rag_demo.Payment.Enums.{PaymentStatus, payment_status_value}
use security_event_rag_demo.Payment.Model.{Payment, PaymentLifecycleEvent}
use security_event_rag_demo.Payment.Fact.{
  dump_payment_events, dump_reference, dump_reference_opt, require_entry, require_entries,
  require_reference, check_events, check_count, items_length, ◌>>◌,
}

abbrev pub HasUser : Option UserReference → Type 0
HasUser none = ⊥
HasUser (some u) = u.user_id ≢ ""

abbrev pub HasText : Option String → Type 0
HasText none = ⊥
HasText (some s) = s ≢ ""

-- A reference that is there has a user.
abbrev pub KeepsUser : Option UserReference → Type 0
KeepsUser none = Unit
KeepsUser (some u) = u.user_id ≢ ""

pub and_then : (r k : Result (Unit {0})) → ((r >> k) ≡ ok tt) ↔ ((r ≡ ok tt) × (k ≡ ok tt))
and_then (ok u) k = (λ h. (refl, h), λ h. h.1)
and_then (err e) k = ((λ h. absurd (cc h)), (λ h. absurd (cc h.0)))

module _ (doc : Fields) (action : String) where
  pub require_entry_ok :
      (f : String) → (require_entry doc action f ≡ ok tt) ↔ (is_missing (get f doc) ≡ false)
  unfolding require_entry
  require_entry_ok f = ground arith

  pub require_entries_ok :
      (fs : List String)
      → (require_entries doc action fs ≡ ok tt) ↔ All (λ f. is_missing (get f doc) ≡ false) fs
  unfolding require_entries
  require_entries_ok [] = (λ h. tt, λ h. refl)
  require_entries_ok (f ∷ fs) = ground (
    arith,
    and_then (require_entry doc action f) (require_entries doc action fs),
    require_entry_ok f,
    require_entries_ok fs,
  )

  pub require_reference_ok :
      (f : String)
      → (require_reference doc action f ≡ ok tt)
        ↔ ((is_missing (get f doc) ≡ false) × (lacks_user_id (get f doc) ≡ false))
  unfolding require_reference
  require_reference_ok f = ground (arith, require_entry_ok f)

pub events_length :
    (es : List PaymentLifecycleEvent) → items_length (dump_payment_events es) ≡ length es
unfolding dump_payment_events
events_length [] = refl
events_length (e ∷ es) = omega (arith, events_length es)

pub missing_events :
    (es : List PaymentLifecycleEvent)
    → (is_missing (array (dump_payment_events es)) ≡ false) ↔ (es ≢ [])
unfolding is_missing dump_payment_events
missing_events [] = ground arith
missing_events (e ∷ es) = ground arith

pub status_named : (s : PaymentStatus) → is_missing (str (payment_status_value s)) ≡ false
unfolding is_missing
status_named PaymentStatus.draft = refl
status_named PaymentStatus.submitted = refl
status_named PaymentStatus.approved = refl
status_named PaymentStatus.rejected = refl
status_named PaymentStatus.cancelled = refl

pub text_ok : (s : String) → (is_missing (str s) ≡ false) ↔ (s ≢ "")
unfolding is_missing
text_ok s = ground (arith, eq_iff s "")

pub numbers_ok :
    (p : Payment)
    → (is_missing (number p.instruction_version) ≡ false)
      × (is_missing (number p.version_number) ≡ false)
      × (is_missing (real p.amount) ≡ false)
      × (is_missing (dump_reference p.created_by) ≡ false)
unfolding is_missing dump_reference
numbers_ok p = (refl, refl, refl, refl)

pub reference_ok :
    (u : UserReference)
    → ((is_missing (dump_reference u) ≡ false) × (lacks_user_id (dump_reference u) ≡ false))
      ↔ (u.user_id ≢ "")
unfolding is_missing lacks_user_id dump_reference get
reference_ok u = ground (arith, eq_iff u.user_id "")

pub reference_opt_ok :
    (o : Option UserReference)
    → ((is_missing (dump_reference_opt o) ≡ false) × (lacks_user_id (dump_reference_opt o) ≡ false))
      ↔ HasUser o
unfolding dump_reference_opt
reference_opt_ok none = unfold is_missing in ground arith
reference_opt_ok (some u) = reference_ok u

pub reference_at :
    (v : Value) (o : Option UserReference)
    → v ≡ dump_reference_opt o
    → ((is_missing v ≡ false) × (lacks_user_id v ≡ false)) ↔ HasUser o
reference_at v o e = rw e (reference_opt_ok o)

-- Five checks in a row.
pub all_five :
    (a b c d e : Result (Unit {0}))
    → ((a >> b >> c >> d >> e) ≡ ok tt)
      ↔ ((a ≡ ok tt) × (b ≡ ok tt) × (c ≡ ok tt) × (d ≡ ok tt) × (e ≡ ok tt))
all_five a b c d e = ground (
  arith,
  and_then (a >> b >> c >> d) e,
  and_then (a >> b >> c) d,
  and_then (a >> b) c,
  and_then a b,
)

pub some_event : (n : ℕ) (es : List PaymentLifecycleEvent) → 1 ≤ n → n ≡ length es → es ≢ []
some_event n [] h e = omega arith
some_event n (x ∷ es) h e = λ c. cc c

pub reason_ok : (o : Option String) → (is_missing (optional o) ≡ false) ↔ HasText o
reason_ok none = unfold is_missing in ground arith
reason_ok (some s) = text_ok s

pub truth_reference :
    (o : Option UserReference) → ((truth (dump_reference_opt o) ≡ true) → HasUser o) ↔ KeepsUser o
unfolding dump_reference_opt dump_reference
truth_reference none = ground arith
truth_reference (some u) = ground arith

pub count_ok :
    (n : ℕ) (es : List PaymentLifecycleEvent)
    → (check_events (array (dump_payment_events es)) (number n) ≡ ok tt)
      ↔ ((1 ≤ n) × (n ≡ length es))
unfolding check_events check_count dump_payment_events
count_ok n [] = ground arith
count_ok n (e ∷ es) = ground (arith, events_length es)

-- ===== src/Payment/Validity/Usable.antt =====
-- When a payment may be created against an instruction (service.py: _validate_instruction_at_create).
use security_event_rag_demo.Base.{
  ℕ, String, Bool, true, false, not, ◌≡◌, ◌≢◌, ◌≤◌, ◌⊎◌, refl, Option, none, some, arith, eq_iff,
  is_nonempty, if◌then◌else◌,
}
use security_event_rag_demo.Base.Exec.{Error, Result, ok, err}
use security_event_rag_demo.Base.Json.{Fields}
use security_event_rag_demo.Payment.Platform.{PaymentPlatform, Datetime, as_naive}
use security_event_rag_demo.Payment.Validity.{
  text_at, parse_iso, end_date_result, is_approved_status, validate_instruction_at_create,
}

module _ (p : PaymentPlatform) where
  -- A status that payments may be made in, and an end date, if there is one, that can be read and
  -- whose clock time has not passed.
  pub record IsUsable (now : ℕ) (instruction : Fields) : Type 0 where
    pub in_status :
        (text_at "status" instruction ≡ "STANDING") ⊎ (text_at "status" instruction ≡ "SINGLE_USE")
    pub not_expired :
        text_at "end_date" instruction ≢ ""
        → (d : Datetime) × (parse_iso p (text_at "end_date" instruction) ≡ some d)
          × (now ≤ as_naive d)

  unexpired :
      (now : ℕ) (raw : String) (o : Option Datetime)
      → end_date_result p now raw o ≡ ok tt
      → (d : Datetime) × (o ≡ some d) × (now ≤ as_naive d)
  unexpired now raw none h = absurd (cc h)
  unexpired now raw (some d) h = (d, refl, ground (arith, h))

  usable_status : (s : String) → is_approved_status s ≡ true → (s ≡ "STANDING") ⊎ (s ≡ "SINGLE_USE")
  usable_status s h = ground (arith, h, eq_iff s "STANDING", eq_iff s "SINGLE_USE")

  guarded :
      (b : Bool) (e : Error) (r : Result (Unit {0}))
      → (if not b then err e else r) ≡ ok tt
      → (b ≡ true) × (r ≡ ok tt)
  guarded true e r h = (refl, h)
  guarded false e r h = absurd (cc h)

  dated :
      (raw : String) (r : Result (Unit {0}))
      → (if is_nonempty raw then r else ok tt) ≡ ok tt
      → raw ≢ ""
      → r ≡ ok tt
  dated raw r h k = ground (arith, h, k, eq_iff raw "")

  pub validated-IsUsable :
      (now : ℕ) (i : Fields) → validate_instruction_at_create p now i ≡ ok tt → IsUsable now i
  unfolding validate_instruction_at_create
  validated-IsUsable now i h =
      let status = text_at "status" i in
      let raw = text_at "end_date" i in
      let w = guarded (is_approved_status status) _ _ h in
      record {
        in_status = usable_status status w.0;
        not_expired = λ k. unexpired now raw (parse_iso p raw) (dated raw _ w.1 k);
      }

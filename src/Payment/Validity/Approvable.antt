-- ===== src/Payment/Validity/Approvable.antt =====
-- When an instruction still backs the approval of a payment (service.py).
use security_event_rag_demo.Base.{
  ℕ, String, ◌≡◌, ◌≢◌, ◌≤◌, ◌↔◌, ◌⊎◌, refl, ap, sym, some_inj, Option, none, some, arith, eq_iff,
  ==_iff,
}
use security_event_rag_demo.Base.Json.{Fields, get}
use security_event_rag_demo.Payment.Model.{Payment}
use security_event_rag_demo.Payment.Platform.{PaymentPlatform, Datetime, as_utc}
use security_event_rag_demo.Payment.Validity.{
  text_at, int_or, or_else, parse_iso, current_type, check_version, check_status, check_expiry,
  check_effective, check_type, check_instruction_validity, expiry_reason, effective_reason,
}

module _ (p : PaymentPlatform) where
  -- A text that is there is a time, of which `P` holds.
  abbrev DateHolds : (ℕ → Type 0) → String → Type 0
  DateHolds P raw = raw ≢ "" → (d : Datetime) × (parse_iso p raw ≡ some d) × P (as_utc d)

  pub record IsApprovable (now : ℕ) (payment : Payment) (instruction : Fields) : Type 0 where
    pub same_version : int_or 0 (get "version_number" instruction) ≡ payment.instruction_version
    pub in_status :
        (text_at "status" instruction ≡ "STANDING") ⊎ (text_at "status" instruction ≡ "SINGLE_USE")
    pub not_expired : DateHolds (λ t. now ≤ t) (text_at "end_date" instruction)
    pub effective : DateHolds (λ t. t ≤ now) (text_at "effective_date" instruction)
    pub same_type :
        current_type p instruction ≢ ""
        → payment.instruction_type ≢ ""
        → current_type p instruction ≡ payment.instruction_type

  or_else-none : (a b : Option String) → (or_else a b ≡ none) ↔ ((a ≡ none) × (b ≡ none))
  or_else-none a b = ground arith

  version_ok : (a b : ℕ) → (check_version p a b ≡ none) ↔ (b ≡ a)
  unfolding check_version
  version_ok a b = ground (arith, ==_iff b a)

  status_ok : (s : String) → (check_status p s ≡ none) ↔ ((s ≡ "STANDING") ⊎ (s ≡ "SINGLE_USE"))
  unfolding check_status
  status_ok s = ground (arith, eq_iff s "STANDING", eq_iff s "SINGLE_USE")

  type_ok : (a b : String) → (check_type p a b ≡ none) ↔ (b ≢ "" → a ≢ "" → b ≡ a)
  unfolding check_type
  type_ok a b = ground (arith, eq_iff b "", eq_iff a "", eq_iff b a)

  parsed_effective :
      (now : ℕ) (raw : String) (o : Option Datetime)
      → (effective_reason p now raw o ≡ none) ↔ ((d : Datetime) × (o ≡ some d) × (as_utc d ≤ now))
  parsed_effective now raw none = (λ h. absurd (cc h), λ w. absurd (cc w.1))
  parsed_effective now raw (some d) = (
    λ h. (d, refl, ground arith),
    λ w. let e : as_utc w.0 ≡ as_utc d = ap as_utc (sym (some_inj w.1)) in ground (arith, e, w.2),
  )

  parsed_expiry :
      (now : ℕ) (raw : String) (o : Option Datetime)
      → (expiry_reason p now raw o ≡ none) ↔ ((d : Datetime) × (o ≡ some d) × (now ≤ as_utc d))
  parsed_expiry now raw none = (λ h. absurd (cc h), λ w. absurd (cc w.1))
  parsed_expiry now raw (some d) = (
    λ h. (d, refl, ground arith),
    λ w. let e : as_utc w.0 ≡ as_utc d = ap as_utc (sym (some_inj w.1)) in ground (arith, e, w.2),
  )

  expiry_ok :
      (now : ℕ) (raw : String) → (check_expiry p now raw ≡ none) ↔ DateHolds (λ t. now ≤ t) raw
  unfolding check_expiry
  expiry_ok now raw = ground (arith, eq_iff raw "", parsed_expiry now raw (parse_iso p raw))

  effective_ok :
      (now : ℕ) (raw : String) → (check_effective p now raw ≡ none) ↔ DateHolds (λ t. t ≤ now) raw
  unfolding check_effective
  effective_ok now raw = ground (arith, eq_iff raw "", parsed_effective now raw (parse_iso p raw))

  all_checks :
      (a b c d e : Option String)
      → (or_else a (or_else b (or_else c (or_else d e))) ≡ none)
        ↔ ((a ≡ none) × (b ≡ none) × (c ≡ none) × (d ≡ none) × (e ≡ none))
  all_checks a b c d e = ground (
    arith,
    or_else-none a (or_else b (or_else c (or_else d e))),
    or_else-none b (or_else c (or_else d e)),
    or_else-none c (or_else d e),
    or_else-none d e,
  )

  -- The check at approval finds no reason to cancel a payment exactly when its instruction has
  -- the version that the payment was made against, is in an approved status, has not ended, is in
  -- effect (where it has these dates, which then can be read) and has the payment's type (where
  -- both have one).
  pub check_instruction_validity-none :
      (now : ℕ) (payment : Payment) (instruction : Fields)
      → (check_instruction_validity p now payment instruction ≡ none)
        ↔ IsApprovable now payment instruction
  unfolding check_instruction_validity
  check_instruction_validity-none now payment instruction =
      let version =
        version_ok payment.instruction_version (int_or 0 (get "version_number" instruction)) in
      let status = status_ok (text_at "status" instruction) in
      let expiry = expiry_ok now (text_at "end_date" instruction) in
      let effect = effective_ok now (text_at "effective_date" instruction) in
      let kind = type_ok payment.instruction_type (current_type p instruction) in
      let checks =
        all_checks
          (check_version p payment.instruction_version
            (int_or 0 (get "version_number" instruction)))
          (check_status p (text_at "status" instruction))
          (check_expiry p now (text_at "end_date" instruction))
          (check_effective p now (text_at "effective_date" instruction))
          (check_type p payment.instruction_type (current_type p instruction)) in
      (
        λ h.
            let found = checks.0 h in
            record {
              same_version = version.0 found.0;
              in_status = status.0 found.1;
              not_expired = expiry.0 found.2;
              effective = effect.0 found.3;
              same_type = kind.0 found.4;
            },
        λ w. checks.1 (
          version.1 w.same_version,
          status.1 w.in_status,
          expiry.1 w.not_expired,
          effect.1 w.effective,
          kind.1 w.same_type,
        ),
      )

-- ===== src/Payment/Validity/Reasons.antt =====
-- The reasons for which an approval is turned into a cancellation (service.py) are texts.
use text.Mathlib.TextLemmas.{append-eq-nil_iff}
use security_event_rag_demo.Base.{
  ℕ, String, ◌<>◌, ◌≡◌, refl, Bool, true, false, Option, none, some, str_eq, is_nonempty, arith,
  eq_iff, if◌then◌else◌, not, ◌&&◌, ◌==◌, ltb,
}
use security_event_rag_demo.Base.Json.{Fields, get}
use security_event_rag_demo.Payment.Model.{Payment}
use security_event_rag_demo.Payment.Platform.{PaymentPlatform, Datetime, as_utc}
use security_event_rag_demo.Payment.Validity.{
  text_at, int_or, or_else, parse_iso, current_type, check_version, check_status, check_expiry,
  check_effective, check_type, check_instruction_validity, is_approved_status, expiry_reason,
  effective_reason, version_drift, not_approvable, has_expired, not_yet_effective, type_changed,
}

nonempty_append : (s t : String) → is_nonempty s ≡ true → is_nonempty (s <> t) ≡ true
nonempty_append s t h =
    ground (arith, eq_iff s "", eq_iff (s <> t) "", append-eq-nil_iff {p = s} {q = t})

module _ (p : PaymentPlatform) where
  -- A reason is never empty, so that `if invalid_reason` tests whether there is one.
  abbrev pub IsReason : Option String → Type 0
  IsReason none = Unit
  IsReason (some r) = is_nonempty r ≡ true

  or_else-IsReason : (a b : Option String) → IsReason a → IsReason b → IsReason (or_else a b)
  or_else-IsReason none b h k = k
  or_else-IsReason (some r) b h k = h

  when-IsReason :
      (b : Bool) (r : String) → is_nonempty r ≡ true → IsReason (if b then some r else none)
  when-IsReason true r h = h
  when-IsReason false r h = tt

  optional-IsReason : (b : Bool) (o : Option String) → IsReason o → IsReason (if b then o else none)
  optional-IsReason true o h = h
  optional-IsReason false o h = tt

  expiry_reason-IsReason :
      (now : ℕ) (raw : String) (o : Option Datetime) → IsReason (expiry_reason p now raw o)
  expiry_reason-IsReason now raw none = nonempty_append "instruction has an unparseable " _ refl
  expiry_reason-IsReason now raw (some d) =
      when-IsReason (ltb (as_utc d) now) (has_expired raw)
        (nonempty_append "instruction has expired (end_date=" _ refl)

  effective_reason-IsReason :
      (now : ℕ) (raw : String) (o : Option Datetime) → IsReason (effective_reason p now raw o)
  effective_reason-IsReason now raw none = nonempty_append "instruction has an unparseable " _ refl
  effective_reason-IsReason now raw (some d) =
      when-IsReason (ltb now (as_utc d)) (not_yet_effective raw)
        (nonempty_append "instruction is not yet effective (effective_date=" _ refl)

  dates-IsReason :
      (now : ℕ) (ends effective : String)
      → IsReason (check_expiry p now ends) × IsReason (check_effective p now effective)
  unfolding check_expiry check_effective
  dates-IsReason now ends effective = (
    optional-IsReason (is_nonempty ends) (expiry_reason p now ends (parse_iso p ends))
        (expiry_reason-IsReason now ends (parse_iso p ends)),
    optional-IsReason (is_nonempty effective)
        (effective_reason p now effective (parse_iso p effective))
        (effective_reason-IsReason now effective (parse_iso p effective)),
  )

  version-IsReason : (a b : ℕ) → IsReason (check_version p a b)
  unfolding check_version
  version-IsReason a b = when-IsReason (not (b == a)) (version_drift a b) (
      nonempty_append
        "instruction was modified after payment creation — payment was created against version " _
        refl)

  status-IsReason : (s : String) → IsReason (check_status p s)
  unfolding check_status
  status-IsReason s =
      when-IsReason (not (is_approved_status s)) (not_approvable s)
        (nonempty_append "instruction is no longer in an approvable state (current status=" _ refl)

  type-IsReason : (a b : String) → IsReason (check_type p a b)
  unfolding check_type
  type-IsReason a b =
      when-IsReason (is_nonempty b && is_nonempty a && not (str_eq b a)) (type_changed a b) (
        nonempty_append "instruction type changed since payment creation (payment snapshot=" _ refl)

  pub check_instruction_validity-IsReason :
      (now : ℕ) (payment : Payment) (instruction : Fields)
      → IsReason (check_instruction_validity p now payment instruction)
  unfolding check_instruction_validity
  check_instruction_validity-IsReason now payment i =
      let dates = dates-IsReason now (text_at "end_date" i) (text_at "effective_date" i) in
      let kind = check_type p payment.instruction_type (current_type p i) in
      let late = check_effective p now (text_at "effective_date" i) in
      let ended = check_expiry p now (text_at "end_date" i) in
      let status = check_status p (text_at "status" i) in
      or_else-IsReason
        (check_version p payment.instruction_version (int_or 0 (get "version_number" i)))
        (or_else status (or_else ended (or_else late kind)))
        (version-IsReason payment.instruction_version (int_or 0 (get "version_number" i)))
        (or_else-IsReason status (or_else ended (or_else late kind))
          (status-IsReason (text_at "status" i))
          (or_else-IsReason ended (or_else late kind) dates.0 (
            or_else-IsReason late kind dates.1
              (type-IsReason payment.instruction_type (current_type p i)))))

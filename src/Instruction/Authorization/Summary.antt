-- ===== src/Instruction/Authorization/Summary.antt =====
-- Which violation a denial reports first, and that a block carries its own summary.
use security_event_rag_demo.Base.{
  ◌≡◌, refl, String, Bool, true, false, List, [], ◌∷◌, arith, any, starts_with, contains, eq_iff,
}
use security_event_rag_demo.Instruction.Authorization.{primary_violation, first_alert, first_or}

abbrev pub is_alert_code : String → Bool
is_alert_code code = starts_with code "ALERT_"

first_alert-alert :
    (codes : List String) (d : String)
    → any is_alert_code codes ≡ true
    → is_alert_code (first_alert codes d) ≡ true
unfolding first_alert
first_alert-alert [] d h = cc
first_alert-alert (c ∷ codes) d h = ground (arith, first_alert-alert codes d)

first_alert-contains :
    (codes : List String) (d : String)
    → any is_alert_code codes ≡ true
    → contains codes (first_alert codes d) ≡ true
unfolding first_alert contains
first_alert-contains [] d h = cc
first_alert-contains (c ∷ codes) d h = ground (arith, first_alert-contains codes d, eq_iff c c)

first_alert-default :
    (codes : List String) (d : String) → any is_alert_code codes ≡ false → first_alert codes d ≡ d
unfolding first_alert
first_alert-default [] d h = refl
first_alert-default (c ∷ codes) d h = ground (arith, first_alert-default codes d)

-- A denial reports an alert code whenever the decision has one, and one that is in the decision.
-- Without an alert code it reports the first code, and `POLICY_DENIED` if there is none.
pub primary_violation_lem :
    (codes : List String)
    → (any is_alert_code codes ≡ true
        → (is_alert_code (primary_violation codes) ≡ true)
          × (contains codes (primary_violation codes) ≡ true))
      × (any is_alert_code codes ≡ false → primary_violation codes ≡ first_or codes "POLICY_DENIED")
unfolding primary_violation
primary_violation_lem codes = (
  λ h. (first_alert-alert codes _ h, first_alert-contains codes _ h),
  λ h. first_alert-default codes _ h,
)

-- ===== src/Authz/Eligibility.antt =====
-- Who may approve a payment (authorization-service/src/authz/eligibility.py).
pub mod Candidates
use security_event_rag_demo.Base.{ℕ, String, Bool, Option, List, [], ◌∷◌, length, if◌then◌else◌}
use security_event_rag_demo.Base.Exec.{Exec, ok, pure, ◌>>=◌}
use security_event_rag_demo.Authz.Sorting.{sorted_by}
use security_event_rag_demo.Authz.Records.{
  AuthzSubject, SeedUser, PaymentRecord, EligibleApprover, subject_display_name,
}
use security_event_rag_demo.Authz.Directory.{funding_approver_candidates}
use security_event_rag_demo.Authz.Opa.{OpaPlatform, can_approve_payment}

-- `PaymentEligibilityContext` has the fields of a `PaymentRecord`.
pub record EligibilityRequest : Type 0 where
  pub payment : PaymentRecord
  pub instruction_status : String
  pub instruction_end_date : String

pub record EligibilityResponse : Type 0 where
  pub payment_id : String
  pub instruction_id : String
  pub payment_status : String
  pub amount : String
  pub currency : String
  pub owning_lob : String
  pub instruction_status : String
  pub evaluated_at : String
  pub eligible : List EligibleApprover
  pub candidates_evaluated : ℕ

abbrev pub approver_row : AuthzSubject → List String → EligibleApprover
approver_row u basis = record {
  user_id = u.user_id;
  display_name = subject_display_name u;
  title = u.title;
  allow_basis = basis;
}

abbrev pub add_row :
    AuthzSubject → Bool × List String → List EligibleApprover → List EligibleApprover
add_row u d rows = if d.0 then approver_row u d.1 ∷ rows else rows

module _ {O : Type 0} where
  -- The loop over the candidates.
  unfoldable pub eligible_rows :
      (AuthzSubject → Exec O (Bool × List String))
      → List AuthzSubject
      → Exec O (List EligibleApprover)
  eligible_rows ask [] = pure []
  eligible_rows ask (u ∷ us) =
      let rest = eligible_rows ask us in ask u >>= λ d. rest >>= λ rows. pure (add_row u d rows)

module _ (p : OpaPlatform) (isonow : p.Outside → String × p.Outside) where
  unfoldable pub ask_approval :
      EligibilityRequest → AuthzSubject → Exec p.Outside (Bool × List String)
  ask_approval r u = can_approve_payment p u r.payment r.instruction_end_date r.instruction_status

  timestamp : Exec p.Outside String
  timestamp o = (ok (isonow o).0, (isonow o).1)

  abbrev pub eligibility_response :
      EligibilityRequest → ℕ → List EligibleApprover → String → EligibilityResponse
  eligibility_response r evaluated rows now = record {
    payment_id = r.payment.payment_id;
    instruction_id = r.payment.instruction_id;
    payment_status = r.payment.status;
    amount = r.payment.amount;
    currency = r.payment.currency;
    owning_lob = r.payment.owning_lob;
    instruction_status = r.instruction_status;
    evaluated_at = now;
    eligible = sorted_by (λ row. row.display_name) rows;
    candidates_evaluated = evaluated;
  }

  unfoldable pub payment_answer :
      EligibilityRequest → ℕ → List EligibleApprover → Exec p.Outside EligibilityResponse
  unfolding timestamp
  payment_answer r evaluated rows =
      timestamp >>= λ now. pure (eligibility_response r evaluated rows now)

  -- `eligible_approvers_for_payment`, of the users in the seed file.
  unfoldable pub eligible_approvers_for_payment :
      List SeedUser → EligibilityRequest → Exec p.Outside EligibilityResponse
  unfolding eligible_rows ask_approval funding_approver_candidates payment_answer
  eligible_approvers_for_payment users r =
      let candidates = funding_approver_candidates users r.payment.owning_lob in
      eligible_rows (ask_approval r) candidates >>= payment_answer r (length candidates)

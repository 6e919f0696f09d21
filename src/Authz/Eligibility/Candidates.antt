-- ===== src/Authz/Eligibility/Candidates.antt =====
-- Whom the list of eligible approvers names.
use mathlib.Core.Path.{subst}
use mathlib.Core.List.{Memᴰ}
use security_event_rag_demo.Base.{
  ℕ, String, ◌≡◌, refl, Bool, true, false, ◌&&◌, List, [], ◌∷◌, All, map, select, length, contains,
  if◌then◌else◌,
}
use security_event_rag_demo.Base.Exec.{Result, ok, err, pure, continue}
use security_event_rag_demo.Base.Exec.Frame.{ok_inj}
use security_event_rag_demo.Base.Exec.Post.{Post, Post-return, Post-bind}
use security_event_rag_demo.Base.Json.{Value, Fields, field, end, object}
use security_event_rag_demo.Base.Members.{contains_iff}
use security_event_rag_demo.Clients.Http.{truth}
use security_event_rag_demo.Authz.Sorting.{sorted_by-All}
use security_event_rag_demo.Authz.Records.{
  AuthzSubject, SeedUser, to_subject, EligibleApprover, to_opa_payment_record,
}
use security_event_rag_demo.Authz.Directory.{
  is_funding_approver, candidates_of, funding_approver_candidates,
}
use security_event_rag_demo.Authz.Opa.{
  OpaPlatform, opa_payload, post_data, approval_basis, can_approve, can_approve_payment,
}
use security_event_rag_demo.Authz.Eligibility.{
  EligibilityRequest, EligibilityResponse, add_row, approver_row, eligible_rows, ask_approval,
  payment_answer, eligible_approvers_for_payment,
}

-- A user of the seed file who may approve payments of a line of business.
pub record FundingApprover (users : List SeedUser) (owning_lob : String) (u : AuthzSubject)
    : Type 0 where
  pub user : SeedUser
  pub listed : Memᴰ user users
  pub subject : to_subject user ≡ u
  pub role : Memᴰ "FUNDING_APPROVER" user.roles
  pub group : Memᴰ "MIDDLE_OFFICE" user.groups
  pub covers : Memᴰ owning_lob user.covering_lobs

three : (a b c : Bool) → (a && b && c) ≡ true → (a ≡ true) × (b ≡ true) × (c ≡ true)
three true true c h = (refl, refl, h)
three true false c h = absurd (cc h)
three false b c h = absurd (cc h)

module _ (owning_lob : String) where
  approver :
      (users : List SeedUser) (u : SeedUser)
      → Memᴰ u users
      → is_funding_approver owning_lob u ≡ true
      → FundingApprover users owning_lob (to_subject u)
  unfolding is_funding_approver
  approver users u m h =
      let w =
        three (contains u.roles "FUNDING_APPROVER") (contains u.groups "MIDDLE_OFFICE")
          (contains u.covering_lobs owning_lob) h in
      record {
        user = u;
        listed = m;
        subject = refl;
        role = (contains_iff u.roles "FUNDING_APPROVER").0 w.0;
        group = (contains_iff u.groups "MIDDLE_OFFICE").0 w.1;
        covers = (contains_iff u.covering_lobs owning_lob).0 w.2;
      }

  kept_or_not :
      (users us : List SeedUser) (u : SeedUser) (b : Bool)
      → is_funding_approver owning_lob u ≡ b
      → Memᴰ u users
      → All
          (FundingApprover users owning_lob)
          (map to_subject (select (is_funding_approver owning_lob) us))
      → All (FundingApprover users owning_lob) (
          map to_subject (
            if b
            then u ∷ select (is_funding_approver owning_lob) us
            else select (is_funding_approver owning_lob) us))
  kept_or_not users us u true h m k = (approver users u m h, k)
  kept_or_not users us u false h m k = k

  selected :
      (users us : List SeedUser)
      → ((u : SeedUser) → Memᴰ u us → Memᴰ u users)
      → All
          (FundingApprover users owning_lob)
          (map to_subject (select (is_funding_approver owning_lob) us))
  selected users [] inside = tt
  selected users (u ∷ us) inside =
      kept_or_not users us u (is_funding_approver owning_lob u) refl (inside u (Memᴰ.head refl))
        (selected users us (λ v m. inside v (Memᴰ.tail m)))

  candidates-All :
      (users : List SeedUser)
      → All (FundingApprover users owning_lob) (funding_approver_candidates users owning_lob)
  unfolding funding_approver_candidates candidates_of
  candidates-All users =
      sorted_by-All (λ s. s.user_id) (FundingApprover users owning_lob) _
        (selected users users (λ v m. m))

module _ (p : OpaPlatform) (isonow : p.Outside → String × p.Outside) (r : EligibilityRequest) where
  -- The question whether a user may approve the payment.
  abbrev question : AuthzSubject → Fields
  question u = opa_payload "APPROVE_PAYMENT" u (
      field "payment"
        (object (to_opa_payment_record r.payment r.instruction_end_date r.instruction_status)) end)

  -- The policy engine answered the question with yes.
  pub record PolicyAllows (u : AuthzSubject) : Type 0 where
    pub asked_in : p.Outside
    pub answer : Value
    pub answered : (post_data p "payment/lifecycle/allow" (question u) asked_in).0 ≡ ok answer
    pub agrees : truth answer ≡ true

  -- What a row of the answer says.
  pub record Eligible (users : List SeedUser) (row : EligibleApprover) : Type 0 where
    pub subject : AuthzSubject
    pub is_row : row ≡ approver_row subject row.allow_basis
    pub approver : FundingApprover users r.payment.owning_lob subject
    pub allows : PolicyAllows subject

  said_yes :
      (u : AuthzSubject) (b : Bool) (o : p.Outside) (d : Bool × List String)
      → ((if b then approval_basis p "payment/lifecycle" (question u) else pure (false, [])) o).0
        ≡ ok d
      → d.0 ≡ true
      → b ≡ true
  said_yes u true o d h t = refl
  said_yes u false o d h t = absurd (cc (ok_inj h, t))

  from_answer :
      (u : AuthzSubject) (o : p.Outside) (v : Result Value) (t : p.Outside) (d : Bool × List String)
      → (post_data p "payment/lifecycle/allow" (question u) o).0 ≡ v
      → (continue v
          (λ allow.
            if truth allow
            then approval_basis p "payment/lifecycle" (question u)
            else pure (false, []))
          t).0
        ≡ ok d
      → d.0 ≡ true
      → PolicyAllows u
  from_answer u o (ok v) t d e h agrees = record {
    asked_in = o;
    answer = v;
    answered = e;
    agrees = said_yes u (truth v) t d h agrees;
  }
  from_answer u o (err x) t d e h agrees = absurd (cc h)

  asked :
      (u : AuthzSubject) (o : p.Outside) (d : Bool × List String)
      → (ask_approval p isonow r u o).0 ≡ ok d
      → d.0 ≡ true
      → PolicyAllows u
  unfolding ask_approval can_approve_payment can_approve
  asked u o d h agrees =
      from_answer u o (post_data p "payment/lifecycle/allow" (question u) o).0
        (post_data p "payment/lifecycle/allow" (question u) o).1 d refl h agrees

  module _ (users : List SeedUser) where
    added :
        (u : AuthzSubject) (b : Bool) (basis : List String) (rows : List EligibleApprover)
        → FundingApprover users r.payment.owning_lob u
        → (b ≡ true → PolicyAllows u)
        → All (Eligible users) rows
        → All (Eligible users) (if b then approver_row u basis ∷ rows else rows)
    added u true basis rows a allows k =
        (record { subject = u; is_row = refl; approver = a; allows = allows refl }, k)
    added u false basis rows a allows k = k

    eligible_rows-Post :
        (us : List AuthzSubject)
        → All (FundingApprover users r.payment.owning_lob) us
        → Post
            (λ _. Unit {0})
            (λ rows _. All (Eligible users) rows)
            (eligible_rows (ask_approval p isonow r) us)
    unfolding eligible_rows
    eligible_rows-Post [] h = Post-return [] (λ o w. tt)
    eligible_rows-Post (u ∷ us) h =
        Post-bind (λ d _. d.0 ≡ true → PolicyAllows u) (ask_approval p isonow r u) _
          (record { at = λ o w d e. asked u o d e })
          (λ d.
            Post-bind (λ rows _. (d.0 ≡ true → PolicyAllows u) × All (Eligible users) rows)
              (eligible_rows (ask_approval p isonow r) us) _
              (record { at = λ o w rows e. (w, (eligible_rows-Post us h.1).at o tt rows e) })
              (λ rows. Post-return (add_row u d rows) (λ o k. added u d.0 d.1 rows h.0 k.0 k.1)))

    payment_answer-Post :
        (n : ℕ) (rows : List EligibleApprover)
        → Post
            (λ _. All (Eligible users) rows)
            (λ a _. All (Eligible users) a.eligible)
            (payment_answer p isonow r n rows)
    unfolding payment_answer
    payment_answer-Post n rows = record {
      at = λ o h a e.
          subst (λ x. All (Eligible users) x.eligible) (ok_inj e)
            (sorted_by-All (λ row. row.display_name) (Eligible users) rows h);
    }

    -- If `eligible_approvers_for_payment` returns, every approver that it lists is a user of the seed
    -- file with the role FUNDING_APPROVER, in the group MIDDLE_OFFICE, who covers the payment's line of
    -- business, and the policy engine had answered that this user may approve the payment.
    pub eligible_approvers-Eligible :
        (o : p.Outside) (a : EligibilityResponse)
        → (eligible_approvers_for_payment p isonow users r o).0 ≡ ok a
        → All (Eligible users) a.eligible
    unfolding eligible_approvers_for_payment
    eligible_approvers-Eligible o a h =
        let us = funding_approver_candidates users r.payment.owning_lob in
        (Post-bind (λ rows _. All (Eligible users) rows)
            (eligible_rows (ask_approval p isonow r) us) (payment_answer p isonow r (length us))
            (eligible_rows-Post us (candidates-All r.payment.owning_lob users))
            (payment_answer-Post (length us))).at
          o tt a h

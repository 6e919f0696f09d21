-- ===== src/Payment/Service/Queries/MayView.antt =====
-- Who may see a payment, as the rules of `_can_view_payment` say.
use mathlib.Core.List.{Memᴰ}
use security_event_rag_demo.Base.{
  String, ◌≡◌, ◌↔◌, refl, ap, inl, inr, Bool, true, false, ◌&&◌, ◌||◌, Option, none, some, contains,
  str_eq, some_inj, eq_iff,
}
use security_event_rag_demo.Base.Members.{contains_iff, or_cases, or_left, or_right}
use security_event_rag_demo.Payment.Model.{PaymentSubject, Payment}
use security_event_rag_demo.Payment.Service.Queries.{
  is_platform_admin, covers_payment_lob, has_lob, can_view_payment,
}

pub data MayView (u : PaymentSubject) (d : Payment) : Type 0 where
  by_admin_role : Memᴰ "PLATFORM_ADMIN" u.roles → MayView u d
  by_admin_group : Memᴰ "ADMIN" u.groups → MayView u d
  by_author : u.user_id ≡ d.created_by.user_id → MayView u d
  by_covering_creator :
      Memᴰ "PAYMENT_CREATOR" u.roles → Memᴰ d.owning_lob u.covering_lobs → MayView u d
  by_desk_creator : Memᴰ "PAYMENT_CREATOR" u.roles → u.lob ≡ some d.owning_lob → MayView u d
  by_covering_approver :
      Memᴰ "FUNDING_APPROVER" u.roles → Memᴰ d.owning_lob u.covering_lobs → MayView u d

and_both : (a b : Bool) → (a && b) ≡ true → (a ≡ true) × (b ≡ true)
and_both true b h = (refl, h)
and_both false b h = absurd (cc h)

both_and : (a b : Bool) → a ≡ true → b ≡ true → (a && b) ≡ true
both_and true b h k = k
both_and false b h k = absurd (cc h)

has_lob_iff : (lob : Option String) (l : String) → (has_lob lob l ≡ true) ↔ (lob ≡ some l)
has_lob_iff none l = (λ h. absurd (cc h), λ h. absurd (cc h))
has_lob_iff (some s) l = (λ h. ap some ((eq_iff s l).0 h), λ h. (eq_iff s l).1 (some_inj h))

-- The five alternatives of the code, from left to right.
module _ (u : PaymentSubject) (d : Payment) where
  creator : Bool
  creator =
      contains u.roles "PAYMENT_CREATOR"
      && (covers_payment_lob u d.owning_lob || has_lob u.lob d.owning_lob)

  approver : Bool
  approver = contains u.roles "FUNDING_APPROVER" && covers_payment_lob u d.owning_lob

  covers : (covers_payment_lob u d.owning_lob ≡ true) ↔ Memᴰ d.owning_lob u.covering_lobs
  unfolding covers_payment_lob
  covers = contains_iff u.covering_lobs d.owning_lob

  admin-MayView : is_platform_admin u.roles u.groups ≡ true → MayView u d
  unfolding is_platform_admin
  admin-MayView h = elim (or_cases (contains u.roles "PLATFORM_ADMIN") _ h) [
    | inl e ↦ MayView.by_admin_role ((contains_iff u.roles "PLATFORM_ADMIN").0 e)
    | inr e ↦ MayView.by_admin_group ((contains_iff u.groups "ADMIN").0 e)
  ]

  creator-MayView : creator ≡ true → MayView u d
  unfolding creator
  creator-MayView h =
      let w = and_both (contains u.roles "PAYMENT_CREATOR") _ h in
      let role = (contains_iff u.roles "PAYMENT_CREATOR").0 w.0 in
      elim (or_cases (covers_payment_lob u d.owning_lob) _ w.1) [
        | inl e ↦ MayView.by_covering_creator role (covers.0 e)
        | inr e ↦ MayView.by_desk_creator role ((has_lob_iff u.lob d.owning_lob).0 e)
      ]

  approver-MayView : approver ≡ true → MayView u d
  unfolding approver
  approver-MayView h =
      let w = and_both (contains u.roles "FUNDING_APPROVER") _ h in
      MayView.by_covering_approver ((contains_iff u.roles "FUNDING_APPROVER").0 w.0) (covers.0 w.1)

-- `_can_view_payment` lets exactly those see a payment who are platform admins by role or by group,
-- who created it, who are payment creators that cover its line of business or belong to it, or who
-- are funding approvers that cover it.
pub can_view_payment_iff :
    (u : PaymentSubject) (d : Payment) → (can_view_payment u d ≡ true) ↔ MayView u d
unfolding can_view_payment is_platform_admin creator approver
can_view_payment_iff u d = (seen, allowed)
  where
    admin : Bool
    admin = is_platform_admin u.roles u.groups

    author : Bool
    author = str_eq u.user_id d.created_by.user_id

    seen : can_view_payment u d ≡ true → MayView u d
    seen h = elim (or_cases ((admin || author) || creator u d) (approver u d) h) [
      | inr e ↦ approver-MayView u d e
      | inl rest ↦ elim (or_cases (admin || author) (creator u d) rest) [
        | inr e ↦ creator-MayView u d e
        | inl more ↦ elim (or_cases admin author more) [
          | inl e ↦ admin-MayView u d e
          | inr e ↦ MayView.by_author ((eq_iff u.user_id d.created_by.user_id).0 e)
        ]
      ]
    ]

    by_creator : creator u d ≡ true → can_view_payment u d ≡ true
    by_creator h =
        or_left ((admin || author) || creator u d) (approver u d)
          (or_right (admin || author) (creator u d) h)

    early : (admin || author) ≡ true → can_view_payment u d ≡ true
    early h =
        or_left ((admin || author) || creator u d) (approver u d)
          (or_left (admin || author) (creator u d) h)

    has_role : (role : String) → Memᴰ role u.roles → contains u.roles role ≡ true
    has_role role m = (contains_iff u.roles role).1 m

    allowed : MayView u d → can_view_payment u d ≡ true
    allowed (MayView.by_admin_role m) =
        early (or_left admin author (or_left (contains u.roles "PLATFORM_ADMIN") _ (has_role _ m)))
    allowed (MayView.by_admin_group m) = early (
        or_left admin author
          (or_right (contains u.roles "PLATFORM_ADMIN") _ ((contains_iff u.groups "ADMIN").1 m)))
    allowed (MayView.by_author e) =
        early (or_right admin author ((eq_iff u.user_id d.created_by.user_id).1 e))
    allowed (MayView.by_covering_creator r c) = by_creator (
        both_and (contains u.roles "PAYMENT_CREATOR") _ (has_role _ r)
          (or_left (covers_payment_lob u d.owning_lob) _ ((covers u d).1 c)))
    allowed (MayView.by_desk_creator r e) = by_creator (
        both_and (contains u.roles "PAYMENT_CREATOR") _ (has_role _ r)
          (or_right (covers_payment_lob u d.owning_lob) _ ((has_lob_iff u.lob d.owning_lob).1 e)))
    allowed (MayView.by_covering_approver r c) =
        or_right ((admin || author) || creator u d) (approver u d)
          (both_and (contains u.roles "FUNDING_APPROVER") _ (has_role _ r) ((covers u d).1 c))

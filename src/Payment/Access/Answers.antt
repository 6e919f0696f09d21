-- ===== src/Payment/Access/Answers.antt =====
-- What `get_subject` and `get_compliance_subject` answer (payment-service/src/ps/dependencies.py).
use mathlib.Core.Path.{subst}
use mathlib.Core.List.{Memᴰ}
use security_event_rag_demo.Base.Members.{contains_iff, any_iff, or_cases, or_left, or_right}
use security_event_rag_demo.Base.{
  contains, inl, inr, ◌<>◌, str_eq, String, ◌≡◌, ◌↔◌, refl, sym, ap, ◌∙◌, Bool, true, false, not,
  ◌&&◌, ◌||◌, List, [], ◌∷◌, is_nonempty, or_empty, if◌then◌else◌, arith,
}
use security_event_rag_demo.Base.Text.{stripped_parts, join}
use security_event_rag_demo.Base.Exec.{
  continue, Error, Result, ok, err, Exec, pure, raise_if, ◌>>=◌,
}
use security_event_rag_demo.Base.Exec.Frame.{ok_inj}
use security_event_rag_demo.Base.Exec.Post.{Post-raise, Post-if}
use security_event_rag_demo.Payment.Service.Queries.{is_platform_admin}
use security_event_rag_demo.Payment.Access.Known.{IsKnown, subject_of_token-Known}
use security_event_rag_demo.Payment.Model.{PaymentSubject}
use security_event_rag_demo.Payment.Access.Platform.{AccessPlatform, AccessSettings}
use security_event_rag_demo.Payment.Access.Metadata.{is_empty_list}
use security_event_rag_demo.Payment.Access.{
  get_compliance_subject, has_compliance_role, header_subject, has_bearer, AccessHeaders,
  missing_headers, subject_from_headers, checked_headers, subject_of_token, get_subject, uses_token,
}

-- What the headers give, where the list of roles is not empty.
subject_from_headers_lem :
    (h : AccessHeaders) (u : PaymentSubject)
    → subject_from_headers h ≡ ok u
    → (or_empty h.x_subject_user_id ≡ u.user_id)
      × (or_empty h.x_subject_title ≡ u.title)
      × (is_empty_list u.roles ≡ false)
unfolding subject_from_headers header_subject
subject_from_headers_lem h u = from_roles (stripped_parts (or_empty h.x_subject_roles))
  where
    from_roles :
        (roles : List String)
        → (elim roles [
          | [] ↦ err (Error.http_exception 400 "X-Subject-Roles must not be empty")
          | role ∷ more ↦ ok (header_subject h (role ∷ more))
        ])
          ≡ ok u
        → (or_empty h.x_subject_user_id ≡ u.user_id)
          × (or_empty h.x_subject_title ≡ u.title)
          × (is_empty_list u.roles ≡ false)
    from_roles [] e = absurd (cc e)
    from_roles (role ∷ more) e =
        let same = ok_inj e in
        (
          ap (λ v. v.user_id) same,
          ap (λ v. v.title) same,
          ap (λ v. is_empty_list v.roles) (sym same),
        )

nothing_missing :
    (h : AccessHeaders)
    → missing_headers h ≡ []
    → (is_nonempty (or_empty h.x_subject_user_id) ≡ true)
      × (is_nonempty (or_empty h.x_subject_title) ≡ true)
unfolding missing_headers
nothing_missing h e = (ground (arith, e), ground (arith, e))

-- Headers that miss nothing name a user and a title, and the roles are checked.
headers-IsKnown : (h : AccessHeaders) (u : PaymentSubject) → checked_headers h ≡ ok u → IsKnown u
unfolding checked_headers
headers-IsKnown h u = none_missing (missing_headers h) refl
  where
    none_missing :
        (names : List String)
        → missing_headers h ≡ names
        → (elim names [
          | [] ↦ subject_from_headers h
          | name ∷ more ↦
              err
                (Error.http_exception 401 ("Missing required headers: " <> join ", " (name ∷ more)))
        ])
          ≡ ok u
        → IsKnown u
    none_missing [] w e =
        let given = nothing_missing h w in
        let k = subject_from_headers_lem h u e in
        (
          subst (λ s. is_nonempty s ≡ true) k.0 given.0,
          subst (λ s. is_nonempty s ≡ true) k.1 given.1,
          k.2,
        )
    none_missing (name ∷ more) w e = absurd (cc e)

module _ (p : AccessPlatform) (cfg : AccessSettings) where
  -- If `get_subject` returns, from a token or from headers, the subject has a user id, a title and at
  -- least one role.
  pub get_subject-IsKnown :
      (h : AccessHeaders) (o : p.Outside) (u : PaymentSubject)
      → (get_subject p cfg h o).0 ≡ ok u
      → IsKnown u
  unfolding get_subject
  get_subject-IsKnown h o u e =
      (Post-if (uses_token p cfg h.authorization) _ _
          (subject_of_token-Known p cfg h.authorization h.x_session_id)
          (Post-if (str_eq cfg.auth_mode "headers" || not (has_bearer h.authorization)) _ _
            (record { at = λ t w v k. headers-IsKnown h v k })
            (Post-raise (Error.http_exception 401 "unsupported authorization mode")))).at
        o tt u e

  by_token : (b : Bool) (m n : Exec p.Outside PaymentSubject) → b ≡ true → (if b then m else n) ≡ m
  by_token true m n k = refl
  by_token false m n k = absurd (cc k)

  -- If the mode of authentication and the `Authorization` header call for a token, the
  -- `X-Subject-*` headers decide nothing: two requests with the same `Authorization` and `X-Session-Id`
  -- have the same answer.
  pub get_subject-token :
      (h g : AccessHeaders)
      → uses_token p cfg h.authorization ≡ true
      → h.authorization ≡ g.authorization
      → h.x_session_id ≡ g.x_session_id
      → get_subject p cfg h ≡ get_subject p cfg g
  unfolding get_subject
  get_subject-token h g needed same session =
      by_token (uses_token p cfg h.authorization) _ _ needed
      ∙ ap (λ a. subject_of_token p cfg a h.x_session_id) same
      ∙ ap (subject_of_token p cfg g.authorization) session
      ∙ sym (
          by_token (uses_token p cfg g.authorization) _ _
            (ap (uses_token p cfg) (sym same) ∙ needed))

passes :
    {S A : Type 0} (x : Bool) (e : Error) (b a : A) (t : S)
    → (((raise_if x e >>= λ _. pure b) t).0 ≡ ok a) ↔ ((ok b ≡ ok a) × (x ≡ false))
passes true e b a t = (λ h. absurd (cc h), λ h. absurd (cc h.1))
passes false e b a t = (λ h. (h, refl), λ h. h.0)

-- A result that goes on only where a test lets it.
guard_returns :
    {S A : Type 0} (r : Result A) (t : S) (c : A → Bool) (e : Error) (a : A)
    → ((continue r (λ b. raise_if (c b) e >>= λ _. pure b) t).0 ≡ ok a)
      ↔ ((r ≡ ok a) × (c a ≡ false))
guard_returns (err x) t c e a = (λ h. absurd (cc h), λ h. absurd (cc h.0))
guard_returns (ok b) t c e a =
    let k = passes (c b) e b a t in
    (
      λ h. let w = k.0 h in (w.0, ap c (sym (ok_inj w.0)) ∙ w.1),
      λ h. k.1 (h.0, ap c (ok_inj h.0) ∙ h.1),
    )

-- Who may inquire into the policies.
pub data MayInquire (cfg : AccessSettings) (u : PaymentSubject) : Type 0 where
  by_admin_role : Memᴰ "PLATFORM_ADMIN" u.roles → MayInquire cfg u
  by_admin_group : Memᴰ "ADMIN" u.groups → MayInquire cfg u
  by_compliance_role :
      (role : String)
      → Memᴰ role u.roles
      → Memᴰ role (stripped_parts cfg.compliance_roles)
      → MayInquire cfg u

module _ (p : AccessPlatform) (cfg : AccessSettings) (u : PaymentSubject) where
  may_inquire :
      (is_platform_admin u.roles u.groups || has_compliance_role p cfg u) ≡ true → MayInquire cfg u
  unfolding is_platform_admin has_compliance_role
  may_inquire h = elim (or_cases (is_platform_admin u.roles u.groups) _ h) [
    | inl admin ↦ elim (or_cases (contains u.roles "PLATFORM_ADMIN") _ admin) [
      | inl e ↦ MayInquire.by_admin_role ((contains_iff u.roles "PLATFORM_ADMIN").0 e)
      | inr e ↦ MayInquire.by_admin_group ((contains_iff u.groups "ADMIN").0 e)
    ]
    | inr e ↦
        let w = (any_iff (contains u.roles) (stripped_parts cfg.compliance_roles)).0 e in
        MayInquire.by_compliance_role w.0 ((contains_iff u.roles w.0).0 w.2) w.1
  ]

  inquires :
      MayInquire cfg u → (is_platform_admin u.roles u.groups || has_compliance_role p cfg u) ≡ true
  unfolding is_platform_admin has_compliance_role
  inquires (MayInquire.by_admin_role m) =
      or_left (is_platform_admin u.roles u.groups) _ (
        or_left (contains u.roles "PLATFORM_ADMIN") _ ((contains_iff u.roles "PLATFORM_ADMIN").1 m))
  inquires (MayInquire.by_admin_group m) =
      or_left (is_platform_admin u.roles u.groups) _
        (or_right (contains u.roles "PLATFORM_ADMIN") _ ((contains_iff u.groups "ADMIN").1 m))
  inquires (MayInquire.by_compliance_role role m n) =
      or_right (is_platform_admin u.roles u.groups) _ (
        (any_iff (contains u.roles) (stripped_parts cfg.compliance_roles)).1
          (role, n, (contains_iff u.roles role).1 m))

module _ (p : AccessPlatform) (cfg : AccessSettings) where
  -- `get_compliance_subject` returns a subject exactly if `get_subject` returns it and it has the role
  -- PLATFORM_ADMIN, is in the group ADMIN, or has one of the roles that the setting
  -- `compliance_roles` lists.
  pub get_compliance_subject_iff :
      (h : AccessHeaders) (o : p.Outside) (u : PaymentSubject)
      → ((get_compliance_subject p cfg h o).0 ≡ ok u)
        ↔ (((get_subject p cfg h o).0 ≡ ok u) × MayInquire cfg u)
  unfolding get_compliance_subject
  get_compliance_subject_iff h o u =
      let k =
        guard_returns (get_subject p cfg h o).0 (get_subject p cfg h o).1
          (λ v. not (is_platform_admin v.roles v.groups) && not (has_compliance_role p cfg v))
          (Error.http_exception 403 "COMPLIANCE_ANALYST role required for policy inquiry") u in
      (
        λ e. let w = k.0 e in (w.0, may_inquire p cfg u (ground (arith, w.1))),
        λ e. let passed = inquires p cfg u e.1 in k.1 (e.0, ground (arith, passed)),
      )

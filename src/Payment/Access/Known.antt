-- ===== src/Payment/Access/Known.antt =====
-- Whom a bearer token lets in (payment-service/src/ps/auth.py).
use mathlib.Core.Path.{subst}
use security_event_rag_demo.Base.{
  String, ◌≡◌, refl, Bool, true, false, not, Option, none, some, is_nonempty, truthy, or_empty,
  if◌then◌else◌, arith,
}
use security_event_rag_demo.Base.Exec.{Error, Result, ok, err, Exec, raise, lift, raise_if, catch}
use security_event_rag_demo.Base.Exec.Frame.{ok_inj}
use security_event_rag_demo.Base.Exec.Post.{
  Post, Post-raise, Post-catch, Post-skip, Post-recover, Post-if,
}
use security_event_rag_demo.Base.Json.{Value, Fields, object, field, get}
use security_event_rag_demo.Instruction.Service.Identity.{first_of_keys}
use security_event_rag_demo.Payment.Model.{PaymentSubject}
use security_event_rag_demo.Payment.Access.Platform.{AccessPlatform, AccessSettings}
use security_event_rag_demo.Payment.Access.Metadata.{
  subject_from_metadata, is_empty_list, decode_metadata_values, first_truthy, metadata_text,
  parse_json_list, described_subject,
}
use security_event_rag_demo.Payment.Access.Tokens.{
  subject_from_session_token, session_user, account_metadata, fetch_userinfo_metadata, decode_token,
  from_session, after_userinfo, from_userinfo, from_claims, subject_from_bearer_token,
  as_unauthorized, as_session_refusal, metadata_claim,
}
use security_event_rag_demo.Payment.Access.{has_bearer, token_of, subject_of_token}

-- A user id, a title and at least one role.
abbrev pub IsKnown : PaymentSubject → Type 0
IsKnown u =
    (is_nonempty u.user_id ≡ true) × (is_nonempty u.title ≡ true) × (is_empty_list u.roles ≡ false)

passed :
    {A : Type 0} (b : Bool) (e : Error) (r : Result A) (a : A)
    → (if b then err e else r) ≡ ok a
    → (b ≡ false) × (r ≡ ok a)
passed true e r a h = absurd (cc h)
passed false e r a h = (refl, h)

truthy-nonempty : (x : Option String) → not (truthy x) ≡ false → is_nonempty (or_empty x) ≡ true
truthy-nonempty none h = absurd (cc h)
truthy-nonempty (some s) h = ground (arith, h)

-- Four guards before a subject.
guarded :
    (x t r : Option String) (b : Bool) (e1 e2 e3 e4 : Error) (s u : PaymentSubject)
    → (if not (truthy x)
        then err e1
        else if not (truthy t)
        then err e2
        else if not (truthy r)
        then err e3
        else if b
        then err e4
        else ok s)
      ≡ ok u
    → (is_nonempty (or_empty x) ≡ true) × (is_nonempty (or_empty t) ≡ true) × (b ≡ false) × (s ≡ u)
guarded x t r b e1 e2 e3 e4 s u h =
    let user = passed (not (truthy x)) e1 _ u h in
    let title = passed (not (truthy t)) e2 _ u user.1 in
    let roles = passed (not (truthy r)) e3 _ u title.1 in
    let listed = passed b e4 (ok s) u roles.1 in
    (truthy-nonempty x user.0, truthy-nonempty t title.0, listed.0, ok_inj listed.1)

module _ (p : AccessPlatform) where
  metadata-IsKnown :
      (m : Fields) (fallback : Option String) (u : PaymentSubject)
      → subject_from_metadata p m fallback ≡ ok u
      → IsKnown u
  unfolding subject_from_metadata described_subject
  metadata-IsKnown m fallback u h =
      let user = first_truthy (metadata_text "subject_user_id" m) fallback in
      let roles = parse_json_list p (or_empty (metadata_text "roles" m)) in
      let k =
        guarded user (metadata_text "title" m) (metadata_text "roles" m) (is_empty_list roles) _ _ _
          _ (described_subject p m (or_empty user) roles) u h in
      subst IsKnown k.3 (k.0, k.1, k.2)

  metadata_Known :
      (m : Fields) (fallback : Option String)
      → Post {S = p.Outside}
          (λ _. Unit {0})
          (λ u _. IsKnown u)
          (lift (subject_from_metadata p m fallback))
  metadata_Known m fallback = record { at = λ o w u h. metadata-IsKnown m fallback u h }

module _ (p : AccessPlatform) (cfg : AccessSettings) where
  -- An action that returns known subjects alone.
  abbrev Knows : Exec p.Outside PaymentSubject → Type 0
  Knows m = Post (λ _. Unit {0}) (λ u _. IsKnown u) m

  subject_from_session_token-Known :
      (sid token : String) → Knows (subject_from_session_token p cfg sid token)
  unfolding subject_from_session_token
  subject_from_session_token-Known sid token = Post-skip (session_user p cfg sid token) _ (λ user.
      Post-skip (account_metadata p cfg user) _
        (λ m. metadata_Known p m (metadata_text "loginName" user)))

  from_session-Known : (token : String) (sid : Option String) → Knows (from_session p cfg token sid)
  unfolding from_session
  from_session-Known token sid =
      Post-if (truthy sid) _ _
        (Post-catch _ as_session_refusal (subject_from_session_token-Known (or_empty sid) token))
        (Post-raise (Error.http_exception 401 "invalid access token"))

  after_userinfo-Known :
      (token : String) (sid : Option String) (e : Error)
      → (Knows (from_session p cfg token sid))
      → Knows (after_userinfo p cfg token sid e)
  unfolding after_userinfo
  after_userinfo-Known token sid e k = record { at = λ o w u h. ground (arith, h, k.at o w u) }

  from_userinfo-Known :
      (token : String) (sid fallback : Option String)
      → Knows (from_userinfo p cfg token sid fallback)
  unfolding from_userinfo
  from_userinfo-Known token sid fallback =
      Post-recover _ _
        (Post-skip (fetch_userinfo_metadata p cfg token) _ (λ m. metadata_Known p m fallback))
        (λ e. after_userinfo-Known token sid e (from_session-Known token sid))

  -- The cases of the metadata claim.
  claim_Known :
      (token : String) (sid fallback : Option String) (claim : Value)
      → Knows (elim claim [
        | object (field k v rest) ↦
            catch
              (lift (subject_from_metadata p (decode_metadata_values p (field k v rest)) fallback))
              (λ e. raise (as_unauthorized e))
        | _ ↦ from_userinfo p cfg token sid fallback
      ])
  claim_Known token sid fallback (object (field k v rest)) =
      Post-catch _ as_unauthorized (metadata_Known p _ fallback)
  claim_Known token sid fallback _ = from_userinfo-Known token sid fallback

  from_claims-Known :
      (token : String) (sid : Option String) (claims : Option Fields)
      → Knows (from_claims p cfg token sid claims)
  unfolding from_claims
  from_claims-Known token sid none = from_userinfo-Known token sid none
  from_claims-Known token sid (some claims) =
      claim_Known token sid (first_of_keys "preferred_username" "sub" claims)
        (get metadata_claim claims)

  bearer-Known :
      (token : String) (sid : Option String) → Knows (subject_from_bearer_token p cfg token sid)
  unfolding subject_from_bearer_token
  bearer-Known token sid =
      Post-skip (decode_token p cfg token) _ (λ claims. from_claims-Known token sid claims)

  pub subject_of_token-Known : (a sid : Option String) → Knows (subject_of_token p cfg a sid)
  unfolding subject_of_token
  subject_of_token-Known a sid =
      Post-skip
        (raise_if (not (has_bearer a))
          (Error.http_exception 401 "Authorization Bearer token required"))
        _
        (λ _.
          Post-skip
            (raise_if (not (truthy cfg.oidc_issuer_url))
              (Error.http_exception 500 "OIDC issuer is not configured"))
            _ (λ _. bearer-Known (token_of a) sid))

-- ===== src/Base/Exec/Post.antt =====
-- What holds of the state and the result after an action that returns, one rule for each way to
-- build an action.
use mathlib.Core.Path.{◌≡◌, refl, subst, sym, ◌∙◌}
use security_event_rag_demo.Base.Exec.Frame.{Frame, ok_inj}
use mathlib.Core.Bool.{Bool, true, false}
use security_event_rag_demo.Base.Tests.{if◌then◌else◌}
use security_event_rag_demo.Base.Exec.{
  Error, Result, ok, err, Exec, pure, raise, lift, raise_if, catch, continue, ◌>>=◌,
}

-- From a state with `P`, if `m` returns `a`, then `Q a` holds of the state after it.
pub record Post {S A : Type 0} (P : S → Type 0) (Q : A → S → Type 0) (m : Exec S A) : Type 0 where
  pub at : (s : S) → P s → (a : A) → (m s).0 ≡ ok a → Q a (m s).1

module _ {S A : Type 0} where
  -- A value whose conclusion the state before it gives.
  pub Post-return :
      {P : S → Type 0} {Q : A → S → Type 0} (a : A) → ((s : S) → P s → Q a s) → Post P Q (pure a)
  Post-return {Q} a k = record { at = λ s h b e. subst (λ x. Q x s) (ok_inj e) (k s h) }

  pub Post-lift : {P : S → Type 0} (r : Result A) → Post P (λ a s. P s × (r ≡ ok a)) (lift r)
  Post-lift r = record { at = λ s h a e. (h, e) }

  pub Post-raise : {P : S → Type 0} {Q : A → S → Type 0} (e : Error) → Post P Q (raise e)
  Post-raise e = record { at = λ s h a c. absurd (cc c) }

  catch-post :
      (Q : A → S → Type 0) (r : Result A) (t : S) (g : Error → Error) (a : A)
      → (catch (λ _. (r, t)) (λ e. raise (g e)) t).0 ≡ ok a
      → ((b : A) → r ≡ ok b → Q b t)
      → Q a (catch (λ _. (r, t)) (λ e. raise (g e)) t).1
  catch-post Q (ok b) t g a e k = k a e
  catch-post Q (err x) t g a e k = absurd (cc e)

  -- A handler that always raises leaves the returns alone.
  pub Post-catch :
      {P : S → Type 0} {Q : A → S → Type 0} (m : Exec S A) (g : Error → Error)
      → Post P Q m
      → Post P Q (catch m (λ e. raise (g e)))
  Post-catch {Q} m g km = record {
    at = λ s h a e. catch-post Q (m s).0 (m s).1 g a e (λ b. km.at s h b);
  }

pub Post-raise_if :
    {S : Type 0} {P : S → Type 0} (b : Bool) (e : Error)
    → Post P (λ _ s. P s × (b ≡ false)) (raise_if b e)
Post-raise_if true e = record { at = λ s h a c. absurd (cc c) }
Post-raise_if false e = record { at = λ s h a c. (h, refl) }

module _ {S A B : Type 0} where
  continue-post :
      {R : A → S → Type 0} {Q : B → S → Type 0} (r : Result A) (f : A → Exec S B) (t : S) (b : B)
      → ((a : A) → Post (R a) Q (f a))
      → ((a : A) → r ≡ ok a → R a t)
      → (continue r f t).0 ≡ ok b
      → Q b (continue r f t).1
  continue-post (ok a) f t b kf k e = (kf a).at t (k a refl) b e
  continue-post (err x) f t b kf k e = absurd (cc e)

  pub Post-bind :
      {P : S → Type 0} (R : A → S → Type 0) {Q : B → S → Type 0} (m : Exec S A) (f : A → Exec S B)
      → Post P R m
      → ((a : A) → Post (R a) Q (f a))
      → Post P Q (m >>= f)
  Post-bind R m f km kf = record {
    at = λ s h b e. continue-post {R = R} (m s).0 f (m s).1 b kf (λ a. km.at s h a) e;
  }

-- What an action leaves alone is as it was.
pub Post-Frame :
    {S V A : Type 0} {view : S → V} {m : Exec S A} (c : V)
    → Frame view m
    → Post (λ s. view s ≡ c) (λ _ s. view s ≡ c) m
Post-Frame c k = record { at = λ s h a e. k.at s ∙ h }

-- A first step of which nothing need be known.
pub Post-skip :
    {S A B : Type 0} {Q : B → S → Type 0} (m : Exec S A) (f : A → Exec S B)
    → ((a : A) → Post (λ _. Unit {0}) Q (f a))
    → Post (λ _. Unit {0}) Q (m >>= f)
Post-skip m f k = Post-bind (λ _ _. Unit {0}) m f (record { at = λ s h a e. tt }) k

-- A first step that only computes a result.
pub Post-computed :
    {S A B : Type 0} {Q : B → S → Type 0} (r : Result A) (f : A → Exec S B)
    → ((a : A) → r ≡ ok a → Post (λ _. Unit {0}) Q (f a))
    → Post (λ _. Unit {0}) Q (lift r >>= f)
Post-computed r f k =
    Post-bind (λ a _. r ≡ ok a) (lift r) f (record { at = λ s h a e. e })
      (λ a. record { at = λ s h b e. (k a h).at s tt b e })

-- A premise that the state before gives; and a stronger condition on that state.
pub Post-given :
    {S A X : Type 0} {P : S → Type 0} {Q : A → S → Type 0} {m : Exec S A}
    → ((s : S) → P s → X)
    → (X → Post P Q m)
    → Post P Q m
Post-given w k = record { at = λ s h. (k (w s h)).at s h }

pub Post-from :
    {S A : Type 0} {P R : S → Type 0} {Q : A → S → Type 0} {m : Exec S A}
    → ((s : S) → P s → R s)
    → Post R Q m
    → Post P Q m
Post-from w k = record { at = λ s h. k.at s (w s h) }

-- A weaker conclusion.
pub Post-weaken :
    {S A : Type 0} {P : S → Type 0} {Q R : A → S → Type 0} {m : Exec S A}
    → Post P Q m
    → ((a : A) (s : S) → Q a s → R a s)
    → Post P R m
Post-weaken k w = record { at = λ s h a e. w a _ (k.at s h a e) }

-- What holds of the view after a step holds after further steps that leave it alone.
pub Post-then :
    {S V A B : Type 0} {P : S → Type 0} (view : S → V) (R : V → Type 0) (m : Exec S A)
    (f : A → Exec S B)
    → Post P (λ _ s. R (view s)) m
    → ((a : A) → Frame view (f a))
    → Post P (λ _ s. R (view s)) (m >>= f)
Post-then view R m f km kf =
    Post-bind (λ _ s. R (view s)) m f km
      (λ a. record { at = λ s h b e. subst R (sym ((kf a).at s)) h })

-- An action that never returns.
pub record Raises {S A : Type 0} (m : Exec S A) : Type 0 where
  pub never : (s : S) (a : A) → (m s).0 ≡ ok a → ⊥

raise_after :
    {S A B : Type 0} (r : Result A) (e : Error) (t : S) (b : B)
    → ◌≡◌ {A = Result B} (continue r (λ _. raise e) t).0 (ok b)
    → ⊥
raise_after (ok a) e t b h = cc h
raise_after (err x) e t b h = cc h

-- `m; raise e`
pub Raises-after : {S A B : Type 0} (m : Exec S A) (e : Error) → Raises {A = B} (m >>= λ _. raise e)
Raises-after m e = record { never = λ s b h. raise_after (m s).0 e (m s).1 b h }

handled :
    {S A : Type 0} (Q : A → S → Type 0) (r : Result A) (t : S) (h : Error → Exec S A) (a : A)
    → ((e : Error) → Raises (h e))
    → (catch (λ _. (r, t)) h t).0 ≡ ok a
    → ((b : A) → r ≡ ok b → Q b t)
    → Q a (catch (λ _. (r, t)) h t).1
handled Q (ok b) t h a kh e k = k a e
handled Q (err x) t h a kh e k = absurd ((kh x).never t a e)

-- A handler that never returns leaves the returns alone.
pub Post-handled :
    {S A : Type 0} {P : S → Type 0} {Q : A → S → Type 0} (m : Exec S A) (h : Error → Exec S A)
    → Post P Q m
    → ((e : Error) → Raises (h e))
    → Post P Q (catch m h)
Post-handled {Q} m h km kh = record {
  at = λ s p a e. handled Q (m s).0 (m s).1 h a kh e (λ b. km.at s p b);
}

-- An action that is tried, and its handler, each of which ends with `Q` where it returns.
recovered :
    {S A : Type 0} (Q : A → S → Type 0) (r : Result A) (t : S) (h : Error → Exec S A) (a : A)
    → ((e : Error) → Post (λ _. Unit {0}) Q (h e))
    → (catch (λ _. (r, t)) h t).0 ≡ ok a
    → ((b : A) → r ≡ ok b → Q b t)
    → Q a (catch (λ _. (r, t)) h t).1
recovered Q (ok b) t h a kh e k = k a e
recovered Q (err x) t h a kh e k = (kh x).at t tt a e

pub Post-recover :
    {S A : Type 0} {P : S → Type 0} {Q : A → S → Type 0} (m : Exec S A) (h : Error → Exec S A)
    → Post P Q m
    → ((e : Error) → Post (λ _. Unit {0}) Q (h e))
    → Post P Q (catch m h)
Post-recover {Q} m h km kh = record {
  at = λ s w a e. recovered Q (m s).0 (m s).1 h a kh e (λ b. km.at s w b);
}

-- Both branches of a test.
pub Post-if :
    {S A : Type 0} {P : S → Type 0} {Q : A → S → Type 0} (b : Bool) (m n : Exec S A)
    → Post P Q m
    → Post P Q n
    → Post P Q (if b then m else n)
Post-if true m n km kn = km
Post-if false m n km kn = kn

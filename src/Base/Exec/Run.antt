-- ===== src/Base/Exec/Run.antt =====
-- Actions that change a part of the state once: an action that returns has made the change, and
-- one that raises has made it or has left that part alone.
use mathlib.Core.Path.{◌≡◌, refl, ◌∙◌}
use mathlib.Core.Logic.{◌⊎◌, inl, inr}
use mathlib.Core.Path.{subst, sym}
use security_event_rag_demo.Base.Exec.{Error, Result, ok, err, Exec, raise, continue, ◌>>=◌}
use security_event_rag_demo.Base.Exec.Frame.{Frame}
use security_event_rag_demo.Base.Exec.Post.{Post}

-- From a state whose `view` is `c`: `R` of the view after `m`, or an error and the view as before.
pub record Run {S V A : Type 0} (view : S → V) (c : V) (R : V → Type 0) (m : Exec S A)
    : Type 0 where
  pub at :
      (s : S)
      → view s ≡ c
      → R (view (m s).1) ⊎ (((e : Error) × ((m s).0 ≡ err e)) × (view (m s).1 ≡ c))

module _ {S V A : Type 0} {view : S → V} {c : V} {R : V → Type 0} where
  pub Run-raise : (e : Error) → Run view c R (raise {A = A} e)
  Run-raise e = record { at = λ s h. inr ((e, refl), h) }

  pub Run-given :
      {X : Type 0} {m : Exec S A}
      → ((s : S) → view s ≡ c → X)
      → (X → Run view c R m)
      → Run view c R m
  Run-given w k = record { at = λ s h. (k (w s h)).at s h }

after :
    {S V A B : Type 0} {view : S → V} {c : V} (R : V → Type 0) (f : A → Exec S B) (r : Result A)
    (t : S)
    → ((a : A) → Frame view (f a))
    → R (view t) ⊎ (((e : Error) × (r ≡ err e)) × (view t ≡ c))
    → R (view (continue r f t).1)
      ⊎ (((e : Error) × ((continue r f t).0 ≡ err e)) × (view (continue r f t).1 ≡ c))
after R f (ok a) t kf (inl h) = inl (subst R (sym ((kf a).at t)) h)
after R f (ok a) t kf (inr h) = absurd (cc h.0.1)
after R f (err e) t kf (inl h) = inl h
after R f (err e) t kf (inr h) = inr ((e, refl), h.1)

module _ {S V A B : Type 0} {view : S → V} {c : V} {R : V → Type 0} where
  before :
      (G : A → Type 0) (f : A → Exec S B) (r : Result A) (t : S)
      → view t ≡ c
      → ((a : A) → r ≡ ok a → G a)
      → ((a : A) → G a → Run view c R (f a))
      → R (view (continue r f t).1)
        ⊎ (((e : Error) × ((continue r f t).0 ≡ err e)) × (view (continue r f t).1 ≡ c))
  before G f (ok a) t h g k = (k a (g a refl)).at t h
  before G f (err e) t h g k = inr ((e, refl), h)

  -- A first step that leaves the view alone, and of whose result `G` holds.
  pub Run-after :
      (G : A → Type 0) (m : Exec S A) (f : A → Exec S B)
      → Frame view m
      → Post (λ s. view s ≡ c) (λ a _. G a) m
      → ((a : A) → G a → Run view c R (f a))
      → Run view c R (m >>= f)
  Run-after G m f km kp kf = record {
    at = λ s h. before G f (m s).0 (m s).1 (km.at s ∙ h) (λ a. kp.at s h a) kf;
  }

  -- A first step that leaves the view alone.
  pub Run-bind :
      (m : Exec S A) (f : A → Exec S B)
      → Frame view m
      → ((a : A) → Run view c R (f a))
      → Run view c R (m >>= f)
  Run-bind m f km kf = record {
    at = λ s h. before (λ _. Unit {0}) f (m s).0 (m s).1 (km.at s ∙ h) (λ a _. tt) (λ a _. kf a);
  }

  -- The steps after the change leave the view alone.
  pub Run-then :
      (m : Exec S A) (f : A → Exec S B)
      → Run view c R m
      → ((a : A) → Frame view (f a))
      → Run view c R (m >>= f)
  Run-then m f km kf = record { at = λ s h. after R f (m s).0 (m s).1 kf (km.at s h) }

-- A weaker change.
pub Run-weaken :
    {S V A : Type 0} {view : S → V} {c : V} {R T : V → Type 0} {m : Exec S A}
    → ((v : V) → R v → T v)
    → Run view c R m
    → Run view c T m
Run-weaken w k = record { at = λ s h. elim (k.at s h) [ inl r ↦ inl (w _ r) | inr e ↦ inr e ] }

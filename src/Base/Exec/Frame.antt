-- ===== src/Base/Exec/Frame.antt =====
-- Actions that leave a part of the state alone, one rule for each way to build an action.
use security_event_rag_demo.Base.Tests.{if◌then◌else◌}
use mathlib.Core.Path.{◌≡◌, refl, ◌∙◌}
use mathlib.Core.Bool.{Bool, true, false}
use mathlib.Core.Logic.{◌⊎◌, inl, inr}
use security_event_rag_demo.Base.Exec.{
  Error, Result, ok, err, Exec, pure, raise, lift, gets, raise_if, catch, continue, ◌>>=◌,
}

-- To split on a result and keep the equation.
pub Result-cases :
    {A : Type 0} (r : Result A) → ((a : A) × (r ≡ ok a)) ⊎ ((e : Error) × (r ≡ err e))
Result-cases (ok a) = inl (a, refl)
Result-cases (err e) = inr (e, refl)

pub ok_inj : {A : Type 0} {x y : A} → ◌≡◌ {A = Result A} (ok x) (ok y) → x ≡ y
ok_inj e = cc

-- `m` leaves what `view` shows as it was, whether it returns or raises.
pub record Frame {S V A : Type 0} (view : S → V) (m : Exec S A) : Type 0 where
  pub at : (s : S) → view (m s).1 ≡ view s

module _ {S V A : Type 0} {view : S → V} where
  pub Frame-pure : (a : A) → Frame view (pure a)
  Frame-pure a = record { at = λ s. refl }

  pub Frame-raise : (e : Error) → Frame view (raise {A = A} e)
  Frame-raise e = record { at = λ s. refl }

  pub Frame-lift : (r : Result A) → Frame view (lift r)
  Frame-lift r = record { at = λ s. refl }

  pub Frame-gets : (f : S → A) → Frame view (gets f)
  Frame-gets f = record { at = λ s. refl }

  pub Frame-if :
      (b : Bool) (m n : Exec S A) → Frame view m → Frame view n → Frame view (if b then m else n)
  Frame-if true m n km kn = km
  Frame-if false m n km kn = kn

  catch-at :
      (h : Error → Exec S A) (r : Result A) (s t : S)
      → ((e : Error) → Frame view (h e))
      → view t ≡ view s
      → view (catch (λ _. (r, t)) h s).1 ≡ view s
  catch-at h (ok a) s t kh e = e
  catch-at h (err x) s t kh e = (kh x).at t ∙ e

  pub Frame-catch :
      (m : Exec S A) (h : Error → Exec S A)
      → Frame view m
      → ((e : Error) → Frame view (h e))
      → Frame view (catch m h)
  Frame-catch m h km kh = record { at = λ s. catch-at h (m s).0 s (m s).1 kh (km.at s) }

module _ {S V : Type 0} {view : S → V} where
  pub Frame-raise_if : (b : Bool) (e : Error) → Frame view (raise_if b e)
  Frame-raise_if true e = record { at = λ s. refl }
  Frame-raise_if false e = record { at = λ s. refl }

module _ {S V A B : Type 0} {view : S → V} where
  continue-at :
      (r : Result A) (f : A → Exec S B) (s t : S)
      → ((a : A) → Frame view (f a))
      → view t ≡ view s
      → view (continue r f t).1 ≡ view s
  continue-at (ok a) f s t kf e = (kf a).at t ∙ e
  continue-at (err x) f s t kf e = e

  pub Frame-bind :
      (m : Exec S A) (f : A → Exec S B)
      → Frame view m
      → ((a : A) → Frame view (f a))
      → Frame view (m >>= f)
  Frame-bind m f km kf = record { at = λ s. continue-at (m s).0 f s (m s).1 kf (km.at s) }

pub ruleset frame_rules = (
  Frame-pure, Frame-raise, Frame-lift, Frame-gets, Frame-if, Frame-raise_if, Frame-catch,
  Frame-bind,
)

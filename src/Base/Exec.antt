-- ===== src/Base/Exec.antt =====
-- Methods that change the state of a service and may raise. What was written before a raise stays
-- written, so the state comes back beside the error too.
pub mod Frame
pub mod Post
pub mod Run
use mathlib.Core.Bool.{Bool, true, false}
use Prim.Native.Nat.{ℕ}
use Prim.Native.String.{String}

-- The exceptions of the services, each with its message.
pub data Error : Type 0 where
  instruction_not_found : String → Error
  concurrent_modification : String → Error
  invalid_state_transition : String → Error
  instruction_state : String → Error
  permission_error : String → Error
  value_error : String → Error
  validation_error : String → Error
  runtime_error : String → Error
  lookup_error : String → Error
  payment_not_found : String → Error
  authz_client_error : String → Error
  authz_service_unavailable : String → Error
  sequence_client_error : String → Error
  sequence_service_unavailable : String → Error
  duplicate_key : Error
  operation_failure : Bool → Error
  http_error : String → Error
  key_error : String → Error
  type_error : String → Error
  http_exception : ℕ → String → Error

pub data Result (A : Type 0) : Type 0 where
  ok : A → Result A
  err : Error → Result A

abbrev pub Exec : Type 0 → Type 0 → Type 0
Exec S A = S → Result A × S

module _ {S A : Type 0} where
  abbrev pub pure : A → Exec S A
  pure a s = (ok a, s)

  abbrev pub raise : Error → Exec S A
  raise e s = (err e, s)

  abbrev pub lift : Result A → Exec S A
  lift r s = (r, s)

  abbrev pub gets : (S → A) → Exec S A
  gets f s = (ok (f s), s)

  -- The rest of a method, after the result of its first call.
  abbrev pub continue : {B : Type 0} → Result B → (B → Exec S A) → Exec S A
  continue (ok b) f s = f b s
  continue (err e) f s = (err e, s)

module _ {S : Type 0} where
  abbrev pub modify : (S → S) → Exec S (Unit {0})
  modify f s = (ok tt, f s)

  -- `if bad: raise e`
  abbrev pub raise_if : Bool → Error → Exec S (Unit {0})
  raise_if true e s = (err e, s)
  raise_if false e s = (ok tt, s)

module _ {S A B : Type 0} where
  infixl 5 ◌>>=◌ ◌>>◌
  abbrev pub ◌>>=◌ : Exec S A → (A → Exec S B) → Exec S B
  ◌>>=◌ m f s = continue (m s).0 f (m s).1

  abbrev pub ◌>>◌ : Exec S A → Exec S B → Exec S B
  m >> n = m >>= λ _. n

-- `try: return m except …`: the handler may raise again.
abbrev pub catch : {S A : Type 0} → Exec S A → (Error → Exec S A) → Exec S A
catch {S} {A} m h s = handle (m s)
  where
    handle : Result A × S → Result A × S
    handle (ok a, s') = (ok a, s')
    handle (err e, s') = h e s'

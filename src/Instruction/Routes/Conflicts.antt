-- ===== src/Instruction/Routes/Conflicts.antt =====
-- What a lifecycle route answers to a request that the state machine does not allow, and what it
-- answers where the service returns.
use security_event_rag_demo.Base.{String, ◌≡◌, refl, ap, ◌∙◌, Option, false}
use security_event_rag_demo.Base.Exec.{Error, Result, ok, err, raise, catch}
use security_event_rag_demo.Instruction.Subject.{Subject}
use security_event_rag_demo.Instruction.Storage.{VersionedInstruction}
use security_event_rag_demo.Instruction.Platform.{Platform, Settings, State}
use security_event_rag_demo.Instruction.Repository.{get_current}
use security_event_rag_demo.Instruction.Repository.Appends.{documents}
use security_event_rag_demo.Instruction.Service.Calls.{perform}
use security_event_rag_demo.Instruction.Service.Calls.Refusals.{allows, call_refused}
use security_event_rag_demo.Instruction.Routes.{
  LifecycleRoute, call_of, request_caller, lifecycle_error, lifecycle_action,
}

-- The error that a handler makes of an error, and the state.
module _ {S A : Type 0} (f : Error → Error) where
  handled_error :
      (r : Result A) (t : S) (e : Error)
      → r ≡ err e
      → (catch (λ _. (r, t)) (λ x. raise (f x)) t).0 ≡ err (f e)
  handled_error (ok a) t e h = absurd (cc h)
  handled_error (err x) t e h = cc

  handled_state : (r : Result A) (t : S) → (catch (λ _. (r, t)) (λ x. raise (f x)) t).1 ≡ t
  handled_state (ok a) t = refl
  handled_state (err x) t = refl

module _ (p : Platform) (cfg : Settings) where
  -- If the current version is read and its status does not allow the request, the route answers 409
  -- and leaves the documents as they were.
  pub lifecycle_action-conflict :
      (route : LifecycleRoute) (id : String) (u : Subject) (authorization session : Option String)
      (s : State p) (v : VersionedInstruction)
      → (get_current p id s).0 ≡ ok v
      → allows (call_of route) v.instruction.status ≡ false
      → ((message : String) × ((lifecycle_action p cfg route id u authorization session s).0
            ≡ err (Error.http_exception 409 message)))
        × (documents p (lifecycle_action p cfg route id u authorization session s).1
            ≡ documents p s)
  unfolding lifecycle_action lifecycle_error
  lifecycle_action-conflict route id u authorization session s v h refused =
      let k = request_caller authorization session in
      let m = perform p cfg (call_of route) id u k in
      let r = call_refused p cfg (call_of route) id u k s v h refused in
      (
        (r.0.0, handled_error lifecycle_error (m s).0 (m s).1 _ r.0.1),
        ap (documents p) (handled_state lifecycle_error (m s).0 (m s).1) ∙ r.1,
      )

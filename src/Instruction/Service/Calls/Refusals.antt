-- ===== src/Instruction/Service/Calls/Refusals.antt =====
-- Requests that the state machine does not allow.
use mathlib.Core.Path.{subst}
use security_event_rag_demo.Base.{String, ◌≡◌, refl, sym, ap, ◌∙◌, Bool, true, false, not}
use security_event_rag_demo.Base.Exec.{Error, ok, err, continue, raise_if, ◌>>=◌}
use security_event_rag_demo.Instruction.Enums.{
  InstructionStatus, is_draft, is_pending, is_suspended, is_active, is_deleted, is_draft_or_pending,
}
use security_event_rag_demo.Instruction.Subject.{Subject}
use security_event_rag_demo.Instruction.Storage.{VersionedInstruction}
use security_event_rag_demo.Instruction.Platform.{Platform, Settings, State, Action}
use security_event_rag_demo.Instruction.Repository.{get_current}
use security_event_rag_demo.Instruction.Repository.Appends.{documents}
use security_event_rag_demo.Instruction.Service.Response.{InstructionResponse}
use security_event_rag_demo.Instruction.Service.Persist.{Caller}
use security_event_rag_demo.Instruction.Service.Persist.Silent.{get_current-Frame}
use security_event_rag_demo.Instruction.Service.Operations.{
  soft_delete, update, update_from, delete, delete_from, submit, submit_from, approve, approve_from,
  reject, reject_from, suspend, suspend_from, reactivate, reactivate_from, use_from,
  use_instruction,
}
use security_event_rag_demo.Instruction.Service.Calls.{Call, perform}

-- The statuses from which a request may go on.
abbrev pub allows : Call → InstructionStatus → Bool
allows (Call.update_call _) s = is_draft s
allows (Call.delete_call _) s = is_draft_or_pending s
allows Call.submit_call s = is_draft s
allows Call.approve_call s = is_pending s
allows (Call.reject_call _) s = is_pending s
allows Call.suspend_call s = is_active s
allows Call.reactivate_call s = is_suspended s
allows (Call.use_call _) s = is_active s

-- `m` raises an `InvalidStateTransitionError`, and changes nothing.
record Refused {p : Platform} {A : Type 0} (m : Action p A) : Type 0 where
  pub at :
      (s : State p)
      → ((message : String) × ((m s).0 ≡ err (Error.invalid_state_transition message)))
        × ((m s).1 ≡ s)

module _ {p : Platform} {A : Type 0} where
  -- A guard that fails.
  Refused-guard :
      (b : Bool) (message : String) (f : Unit {0} → Action p A)
      → b ≡ false
      → Refused {p = p} (raise_if (not b) (Error.invalid_state_transition message) >>= f)
  Refused-guard true message f h = absurd (cc h)
  Refused-guard false message f h = record { at = λ s. ((message, refl), refl) }

  -- A guard before a refusal.
  Refused-after :
      (b : Bool) (message : String) (f : Unit {0} → Action p A)
      → Refused {p = p} (f tt)
      → Refused {p = p} (raise_if b (Error.invalid_state_transition message) >>= f)
  Refused-after true message f k = record { at = λ s. ((message, refl), refl) }
  Refused-after false message f k = k

  -- A refusal after the current version is read.
  read-Refused :
      (id : String) (s : State p) (v : VersionedInstruction) (f : VersionedInstruction → Action p A)
      → (get_current p id s).0 ≡ ok v
      → Refused {p = p} (f v)
      → ((message : String) × (((get_current p id >>= f) s).0
            ≡ err (Error.invalid_state_transition message)))
        × (documents p ((get_current p id >>= f) s).1 ≡ documents p s)
  read-Refused id s v f h k =
      subst
        (λ r.
          ((message : String) × ((continue r f (get_current p id s).1).0
              ≡ err (Error.invalid_state_transition message)))
          × (documents p (continue r f (get_current p id s).1).1 ≡ documents p s))
        (sym h)
        (let refusal = k.at (get_current p id s).1 in
          (refusal.0, ap (documents p) refusal.1 ∙ (get_current-Frame p id).at s))

module _ (p : Platform) (cfg : Settings) where
  -- What a request goes on with once the current version is read.
  rest : Call → Subject → Caller → VersionedInstruction → Action p InstructionResponse
  rest (Call.update_call r) u k v = update_from p cfg r u k v
  rest (Call.delete_call r) u k v = delete_from p cfg u r k v
  rest Call.submit_call u k v = submit_from p cfg u k v
  rest Call.approve_call u k v = approve_from p cfg u k v
  rest (Call.reject_call r) u k v = reject_from p cfg u r k v
  rest Call.suspend_call u k v = suspend_from p cfg u k v
  rest Call.reactivate_call u k v = reactivate_from p cfg u k v
  rest (Call.use_call r) u k v = use_from p cfg u r k v

  perform-rest :
      (k : Call) (id : String) (u : Subject) (by_ : Caller)
      → perform p cfg k id u by_ ≡ (get_current p id >>= rest k u by_)
  unfolding rest update delete submit approve reject suspend reactivate use_instruction
  perform-rest (Call.update_call r) id u by_ = refl
  perform-rest (Call.delete_call r) id u by_ = refl
  perform-rest Call.submit_call id u by_ = refl
  perform-rest Call.approve_call id u by_ = refl
  perform-rest (Call.reject_call r) id u by_ = refl
  perform-rest Call.suspend_call id u by_ = refl
  perform-rest Call.reactivate_call id u by_ = refl
  perform-rest (Call.use_call r) id u by_ = refl

  rest-Refused :
      (k : Call) (u : Subject) (by_ : Caller) (v : VersionedInstruction)
      → allows k v.instruction.status ≡ false
      → Refused (rest k u by_ v)
  unfolding rest update_from delete_from submit_from approve_from reject_from suspend_from
      reactivate_from use_from
  rest-Refused (Call.update_call r) u by_ v h = Refused-guard _ _ _ h
  rest-Refused (Call.delete_call r) u by_ v h =
      Refused-after (is_deleted v.instruction.status) "instruction is already deleted"
        (λ _. soft_delete p cfg u r by_ v.instruction)
        (Refused-guard (is_draft_or_pending v.instruction.status)
          "only DRAFT or PENDING instructions can be soft deleted" _ h)
  rest-Refused Call.submit_call u by_ v h = Refused-guard _ _ _ h
  rest-Refused Call.approve_call u by_ v h = Refused-guard _ _ _ h
  rest-Refused (Call.reject_call r) u by_ v h = Refused-guard _ _ _ h
  rest-Refused Call.suspend_call u by_ v h = Refused-guard _ _ _ h
  rest-Refused Call.reactivate_call u by_ v h = Refused-guard _ _ _ h
  rest-Refused (Call.use_call r) u by_ v h = Refused-guard _ _ _ h

  -- If the current version is read and its status does not allow the request, the request raises
  -- an `InvalidStateTransitionError` and leaves the documents as they were.
  pub call_refused :
      (k : Call) (id : String) (u : Subject) (by_ : Caller) (s : State p) (v : VersionedInstruction)
      → (get_current p id s).0 ≡ ok v
      → allows k v.instruction.status ≡ false
      → ((message : String) × ((perform p cfg k id u by_ s).0
            ≡ err (Error.invalid_state_transition message)))
        × (documents p (perform p cfg k id u by_ s).1 ≡ documents p s)
  call_refused k id u by_ s v h refused =
      subst
        (λ m.
          ((message : String) × ((m s).0 ≡ err (Error.invalid_state_transition message)))
          × (documents p (m s).1 ≡ documents p s))
        (sym (perform-rest k id u by_))
        (read-Refused id s v (rest k u by_) h (rest-Refused k u by_ v refused))

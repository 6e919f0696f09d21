-- ===== src/Instruction/Service/Persist/Silent.antt =====
-- The calls of the service that leave the instructions alone, however they end.
use security_event_rag_demo.Base.{
  ℕ, zero, suc, String, refl, arith, Bool, Option, none, some, truthy,
}
use security_event_rag_demo.Base.Exec.{modify, Exec}
use security_event_rag_demo.Base.Exec.Frame.{
  Frame, Frame-bind, Frame-if, Frame-pure, Frame-gets, frame_rules,
}
use security_event_rag_demo.Base.Json.{Fields}
use security_event_rag_demo.Instruction.Enums.{LifecycleAction}
use security_event_rag_demo.Instruction.Subject.{Subject, CreateInstructionRequest}
use security_event_rag_demo.Instruction.Parties.{UserReference}
use security_event_rag_demo.Instruction.Enums.{InstructionStatus}
use security_event_rag_demo.Instruction.Model.{CashSettlementInstruction}
use security_event_rag_demo.Instruction.Fact.{InstructionFact}
use security_event_rag_demo.Instruction.SecurityEvent.{SecurityEvent}
use security_event_rag_demo.Instruction.Authorization.{AuthorizationBlock}
use security_event_rag_demo.Instruction.Storage.{Document, VersionedInstruction}
use security_event_rag_demo.Instruction.Platform.{Stored, Platform, Settings, clock, external}
use security_event_rag_demo.Instruction.Repository.{get_current, find_one, current_of}
use security_event_rag_demo.Instruction.Repository.Appends.{documents}
use security_event_rag_demo.Instruction.Service.Identity.{
  request, store, attempts, login, ensure_logged_in,
}
use security_event_rag_demo.Instruction.Service.Build.{instruction_from_request}
use security_event_rag_demo.Instruction.Service.Events.{
  remote, allocate_event_id, insert_document, publish, publish_instruction_fact,
  record_policy_denial,
}
use security_event_rag_demo.Instruction.Service.Persist.{
  Caller, evaluate_policy, deny, authorize, record_event, announce,
}

module _ (p : Platform) where
  pub clock-Frame_lem : Frame (documents p) (clock p)
  clock-Frame_lem = record { at = λ s. refl }

  pub external-Frame :
      {A : Type 0} (f : p.Outside → A × p.Outside) → Frame (documents p) (external p f)
  external-Frame f = record { at = λ s. refl }

  pub find_one-Frame : (q : Stored Document → Bool) → Frame (documents p) (find_one p q)
  find_one-Frame q = record { at = λ s. refl }

  pub current_of-Frame :
      (id : String) (r : Option (Stored Document)) → Frame (documents p) (current_of p id r)
  current_of-Frame id none = record { at = λ s. refl }
  current_of-Frame id (some (k, d)) = record { at = λ s. refl }

  pub get_current-Frame : (id : String) → Frame (documents p) (get_current p id)
  unfolding get_current
  get_current-Frame id = search (frame_rules, find_one-Frame, current_of-Frame)

  pub instruction_from_request-Frame :
      (r : CreateInstructionRequest) (s : Subject) (id : String) (st : InstructionStatus)
      (u : Option UserReference)
      → Frame (documents p) (instruction_from_request p r s id st u)
  unfolding instruction_from_request
  instruction_from_request-Frame r s id st u = search (frame_rules, external-Frame)

module _ (p : Platform) (cfg : Settings) where
  pub remote-Frame : {A : Type 0} (m : Exec p.Outside A) → Frame (documents p) (remote p cfg m)
  remote-Frame m = record { at = λ s. refl }

  pub allocate_event_id-Frame : (id : String) → Frame (documents p) (allocate_event_id p cfg id)
  unfolding allocate_event_id
  allocate_event_id-Frame id = search (frame_rules, remote-Frame)

  pub insert_document-Frame : (e : SecurityEvent) → Frame (documents p) (insert_document p cfg e)
  unfolding insert_document
  insert_document-Frame e = record { at = λ s. ground arith }

  publish-Frame : (e : SecurityEvent) → Frame (documents p) (publish p cfg e)
  unfolding publish
  publish-Frame e = record { at = λ s. ground arith }

  publish_instruction_fact-Frame :
      (f : InstructionFact) → Frame (documents p) (publish_instruction_fact p cfg f)
  unfolding publish_instruction_fact
  publish_instruction_fact-Frame e = record { at = λ s. ground arith }

  record_policy_denial-Frame :
      (a : LifecycleAction) (s : Subject) (i : CashSettlementInstruction) (r : String)
      (d : Option Fields)
      → Frame (documents p) (record_policy_denial p cfg a s i r d)
  unfolding record_policy_denial
  record_policy_denial-Frame a s i r d =
      search
        (frame_rules, external-Frame, allocate_event_id-Frame, insert_document-Frame, publish-Frame)

  request-Frame : Frame (documents p) (request p cfg)
  unfolding request
  request-Frame = record { at = λ s. ground arith }

  store-Frame : (b : Option Fields) → Frame (documents p) (modify (store p cfg b))
  unfolding store
  store-Frame none = record { at = λ s. refl }
  store-Frame (some b) = record { at = λ s. ground arith }

  attempts-Frame : (n : ℕ) → Frame (documents p) (attempts p cfg n)
  unfolding attempts
  attempts-Frame zero = search frame_rules
  attempts-Frame (suc n) = Frame-bind _ _ request-Frame (λ b. Frame-bind _ _ (store-Frame b) (λ _.
      Frame-bind _ _ (Frame-gets (λ st. st.session_token))
        (λ t. Frame-if (truthy t) _ _ (Frame-pure tt) (attempts-Frame n))))

  login-Frame : (n : ℕ) → Frame (documents p) (login p cfg n)
  unfolding login
  login-Frame n = search (frame_rules, attempts-Frame)

  ensure_logged_in-Frame : Frame (documents p) (ensure_logged_in p cfg)
  unfolding ensure_logged_in
  ensure_logged_in-Frame = record { at = λ s. ground (arith, (login-Frame 3).at s) }

  evaluate_policy-Frame :
      (a : LifecycleAction) (s : Subject) (i : CashSettlementInstruction) (c : Caller)
      → Frame (documents p) (evaluate_policy p cfg a s i c)
  unfolding evaluate_policy
  evaluate_policy-Frame a s i c = search (frame_rules, remote-Frame, ensure_logged_in-Frame)

  deny-Frame :
      (w : Bool) (a : LifecycleAction) (s : Subject) (i : CashSettlementInstruction)
      (d : Option Fields) (b : AuthorizationBlock)
      → Frame (documents p) (deny p cfg w a s i d b)
  unfolding deny
  deny-Frame w a s i d b = search (frame_rules, record_policy_denial-Frame)

  pub authorize-Frame :
      (a : LifecycleAction) (s : Subject) (i : CashSettlementInstruction) (c : Caller) (w : Bool)
      (d : Option Fields)
      → Frame (documents p) (authorize p cfg a s i c w d)
  unfolding authorize
  authorize-Frame a s i c w d = search (frame_rules, evaluate_policy-Frame, deny-Frame)

  pub record_event-Frame :
      (i : CashSettlementInstruction) (a : LifecycleAction) (s : Subject) (d : Option Fields)
      → Frame (documents p) (record_event p cfg i a s d)
  unfolding record_event
  record_event-Frame i a s d = search (frame_rules, external-Frame)

  pub announce-Frame :
      (v : VersionedInstruction) (a : LifecycleAction) (s : Subject) (d : Option Fields)
      (e : Option SecurityEvent)
      → Frame (documents p) (announce p cfg v a s d e)
  unfolding announce
  announce-Frame v a s d none = search frame_rules
  announce-Frame v a s d (some e) =
      search (frame_rules, publish-Frame, external-Frame, publish_instruction_fact-Frame)

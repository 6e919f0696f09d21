-- ===== src/Instruction/Service/Persist/Allowed.antt =====
-- Authorization goes on only with the policy's permission.
use security_event_rag_demo.Base.{String, ◌≡◌, refl, sym, Bool, true, false, Option, if◌then◌else◌}
use security_event_rag_demo.Base.Exec.{Error, Result, ok, err, continue, raise, pure}
use security_event_rag_demo.Base.Exec.Frame.{ok_inj}
use security_event_rag_demo.Base.Json.{Fields}
use security_event_rag_demo.Clients.Authz.{PolicyDecision}
use security_event_rag_demo.Instruction.Enums.{LifecycleAction}
use security_event_rag_demo.Instruction.Subject.{Subject}
use security_event_rag_demo.Instruction.Model.{CashSettlementInstruction}
use security_event_rag_demo.Instruction.Authorization.{
  AuthorizationBlock, build_authorization_block, instruction_resource_context,
}
use security_event_rag_demo.Instruction.Platform.{Platform, Settings, State}
use security_event_rag_demo.Instruction.Service.Persist.{Caller, evaluate_policy, deny, authorize}

module _ {p : Platform} where
  raises :
      {A B : Type 0} (r : Result A) (e : Error) (t : State p) (b : B)
      → ◌≡◌ {A = Result B} (continue r (λ _. raise e) t).0 (ok b)
      → ⊥
  raises (ok a) e t b h = cc h
  raises (err x) e t b h = cc h

module _ (p : Platform) (cfg : Settings) where
  deny-raises :
      (w : Bool) (a : LifecycleAction) (u : Subject) (i : CashSettlementInstruction)
      (d : Option Fields) (b c : AuthorizationBlock) (s : State p)
      → (deny p cfg w a u i d b s).0 ≡ ok c
      → ⊥
  unfolding deny
  deny-raises w a u i d b c s h = raises _ _ _ c h

  -- What a block that was returned rests on.
  pub record Permission (a : LifecycleAction) (u : Subject) (i : CashSettlementInstruction)
      (k : Caller) (s : State p) (b : AuthorizationBlock) : Type 0 where
    pub decision : PolicyDecision
    pub decided : (evaluate_policy p cfg a u i k s).0 ≡ ok decision
    pub allowed : decision.allowed ≡ true
    pub block : b ≡ build_authorization_block decision u a (instruction_resource_context i)

  branch :
      (w : Bool) (a : LifecycleAction) (u : Subject) (i : CashSettlementInstruction)
      (details : Option Fields) (answer b : AuthorizationBlock) (t : State p) (allowed : Bool)
      → ((if allowed then pure answer else deny p cfg w a u i details answer) t).0 ≡ ok b
      → (allowed ≡ true) × (b ≡ answer)
  branch w a u i details answer b t true h = (refl, sym (ok_inj h))
  branch w a u i details answer b t false h = absurd (deny-raises w a u i details answer b t h)

  granted :
      (a : LifecycleAction) (u : Subject) (i : CashSettlementInstruction) (k : Caller) (w : Bool)
      (details : Option Fields) (s : State p) (b : AuthorizationBlock) (r : Result PolicyDecision)
      (t : State p)
      → (evaluate_policy p cfg a u i k s).0 ≡ r
      → (continue r
          (λ decision.
            let authorization =
              build_authorization_block decision u a (instruction_resource_context i) in
            if decision.allowed
            then pure authorization
            else deny p cfg w a u i details authorization)
          t).0
        ≡ ok b
      → Permission a u i k s b
  granted a u i k w details s b (err e) t decided h = absurd (cc h)
  granted a u i k w details s b (ok d) t decided h =
      let answer = build_authorization_block d u a (instruction_resource_context i) in
      let both = branch w a u i details answer b t d.allowed h in
      record { decision = d; decided = decided; allowed = both.0; block = both.1 }

  -- If `authorize` returns, the policy was asked and it allowed the action, and the block that
  -- comes back is the one built of its decision.
  pub authorize-permitted :
      (a : LifecycleAction) (u : Subject) (i : CashSettlementInstruction) (k : Caller) (w : Bool)
      (details : Option Fields) (s : State p) (b : AuthorizationBlock)
      → (authorize p cfg a u i k w details s).0 ≡ ok b
      → Permission a u i k s b
  unfolding authorize
  authorize-permitted a u i k w details s b h =
      granted a u i k w details s b (evaluate_policy p cfg a u i k s).0
        (evaluate_policy p cfg a u i k s).1 refl h

  -- The policy allowed a subject an action on the instruction of an id.
  pub record Granted (a : LifecycleAction) (u : Subject) (k : Caller) (id : String) : Type 0 where
    pub asked_for : CashSettlementInstruction
    pub same_id : asked_for.instruction_id ≡ id
    pub asked_in : State p
    pub block : AuthorizationBlock
    pub permission : Permission a u asked_for k asked_in block

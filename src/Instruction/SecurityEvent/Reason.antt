-- ===== src/Instruction/SecurityEvent/Reason.antt =====
-- The reason that a security event gives for an authorized action.
use security_event_rag_demo.Base.{ℕ, ◌≡◌, refl, ap, ◌∙◌, String, Option, some, or_default}
use security_event_rag_demo.Base.Json.{Fields, end, get, object, fields_of, text_of}
use security_event_rag_demo.Base.Json.Merge.{HasUniqueKeys, get-merge-put}
use security_event_rag_demo.Clients.Authz.{PolicyDecision}
use security_event_rag_demo.Instruction.Enums.{LifecycleAction}
use security_event_rag_demo.Instruction.Subject.{Subject}
use security_event_rag_demo.Instruction.Model.{CashSettlementInstruction}
use security_event_rag_demo.Instruction.Authorization.{
  build_authorization_block, details_with_authorization,
}
use security_event_rag_demo.Instruction.SecurityEvent.{
  SecurityEventSource, authorized_action, delegation_details,
}

block-summary :
    (d : PolicyDecision) (u : Subject) (a : LifecycleAction) (context : Fields)
    → text_of (get "summary" (build_authorization_block d u a context).fields)
      ≡ some (build_authorization_block d u a context).summary
unfolding build_authorization_block get
block-summary d u a context = refl

-- The event of an authorized action, with the details that the service makes of the policy's
-- decision, gives the summary of that decision as its reason. The details before are a dictionary
-- without repeated keys.
pub authorized_action-reason :
    (src : SecurityEventSource) (d : PolicyDecision) (u : Subject) (a : LifecycleAction)
    (context : Fields) (i : CashSettlementInstruction) (event_id : String)
    (version_number : Option ℕ) (details : Option Fields) (now : ℕ)
    → HasUniqueKeys (or_default details end)
    → (authorized_action src a u i event_id version_number
        (some (details_with_authorization details (build_authorization_block d u a context)))
        now).event.reason
      ≡ some (build_authorization_block d u a context).summary
unfolding authorized_action details_with_authorization
authorized_action-reason src d u a context i event_id version_number details now unique =
    ap (λ v. text_of (get "summary" (fields_of v)))
      (get-merge-put "authorization" (object (build_authorization_block d u a context).fields)
        (delegation_details u) (or_default details end) unique)
    ∙ block-summary d u a context

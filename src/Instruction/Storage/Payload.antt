-- ===== src/Instruction/Storage/Payload.antt =====
-- Reading a document back gives its payload.
use security_event_rag_demo.Base.{ℕ, ◌≡◌, refl, Bool, true, false, Option, if◌then◌else◌}
use mathlib.Core.Path.{subst}
use security_event_rag_demo.Base.Exec.Frame.{ok_inj}
use security_event_rag_demo.Base.Exec.{Error, Result, ok, err}
use security_event_rag_demo.Instruction.Model.{
  CashSettlementInstruction, check_fields, after_rules, validate_route_rules, model_validate,
}
use security_event_rag_demo.Instruction.Storage.{
  Iso, Document, VersionedInstruction, assemble, document_to_versioned_instruction,
}

after_rules-same :
    (i j : CashSettlementInstruction) (r : Result (Unit {0})) → after_rules i r ≡ ok j → j ≡ i
after_rules-same i j (ok u) e = cc
after_rules-same i j (err x) e = absurd (cc e)

checked-same :
    (i j : CashSettlementInstruction) (b : Bool) (r : Result CashSettlementInstruction) (x : Error)
    → (r ≡ ok j → j ≡ i)
    → (if b then r else err x) ≡ ok j
    → j ≡ i
checked-same i j true r x k e = k e
checked-same i j false r x k e = absurd (cc e)

-- Validation changes nothing.
pub model_validate-same : (i j : CashSettlementInstruction) → model_validate i ≡ ok j → j ≡ i
unfolding model_validate
model_validate-same i j e =
    checked-same i j (check_fields i) _ _ (after_rules-same i j (validate_route_rules i)) e

assemble-validates :
    (iso : Iso) (d : Document) (v : VersionedInstruction) (r : Result CashSettlementInstruction)
    (t : Result ℕ) (u : Result (Option ℕ))
    → assemble iso d r t u ≡ ok v
    → r ≡ ok v.instruction
assemble-validates iso d v (err x) t u e = absurd (cc e)
assemble-validates iso d v (ok i) (err x) u e = absurd (cc e)
assemble-validates iso d v (ok i) (ok t) (err x) e = absurd (cc e)
assemble-validates iso d v (ok i) (ok t) (ok u) e =
    subst (λ w. ok i ≡ ok w.instruction) (ok_inj e) refl

pub read-payload :
    (iso : Iso) (d : Document) (v : VersionedInstruction)
    → document_to_versioned_instruction iso d ≡ ok v
    → v.instruction ≡ d.payload
unfolding document_to_versioned_instruction
read-payload iso d v e =
    model_validate-same d.payload v.instruction (assemble-validates iso d v _ _ _ e)

-- ===== src/Instruction/Service/Build/Fields.antt =====
-- What a request does not decide: the id and the status of the instruction built from it.
use security_event_rag_demo.Base.{
  String, ◌≡◌, refl, ◌∙◌, sym, ap, Bool, true, false, Option, or_default, is_nonempty,
  if◌then◌else◌,
}
use security_event_rag_demo.Base.Exec.{pure, lift}
use security_event_rag_demo.Base.Exec.Frame.{ok_inj}
use security_event_rag_demo.Base.Exec.Post.{Post, Post-bind, Post-from, Post-given, Post-skip}
use security_event_rag_demo.Instruction.Enums.{InstructionStatus}
use security_event_rag_demo.Instruction.Subject.{Subject, CreateInstructionRequest, user_reference}
use security_event_rag_demo.Instruction.Parties.{UserReference}
use security_event_rag_demo.Instruction.Model.{CashSettlementInstruction, model_validate}
use security_event_rag_demo.Instruction.Storage.Payload.{model_validate-same}
use security_event_rag_demo.Instruction.Storage.{parse_timestamp}
use security_event_rag_demo.Instruction.Platform.{Platform, State, clock, external}
use security_event_rag_demo.Instruction.Service.Build.{draft_of, instruction_from_request}

module _ (p : Platform) where
  abbrev Anything : State p → Type 0
  Anything s = Unit

  -- The id is the one asked for, unless that is empty.
  chosen_id :
      (id : String) (b : Bool)
      → is_nonempty id ≡ b
      → Post Anything
          (λ x _. is_nonempty id ≡ true → x ≡ id)
          (if b then pure id else external p p.uuid4)
  chosen_id id true h = record { at = λ s _ x e t. sym (ok_inj e) }
  chosen_id id false h = record { at = λ s _ x e t. absurd (cc (h, t)) }

  validated-Post :
      (i : CashSettlementInstruction) (id : String) {st : InstructionStatus}
      → (is_nonempty id ≡ true → i.instruction_id ≡ id)
      → i.status ≡ st
      → Post Anything
          (λ j _. (is_nonempty id ≡ true → j.instruction_id ≡ id) × (j.status ≡ st))
          (lift (model_validate i))
  validated-Post i id same status = record {
    at = λ s h j e.
        let built = model_validate-same i j e in
        (λ t. ap (λ k. k.instruction_id) built ∙ same t, ap (λ k. k.status) built ∙ status);
  }

  pub request-Post :
      (r : CreateInstructionRequest) (u : Subject) (id : String) (st : InstructionStatus)
      (by_ : Option UserReference)
      → Post Anything
          (λ i _. (is_nonempty id ≡ true → i.instruction_id ≡ id) × (i.status ≡ st))
          (instruction_from_request p r u id st by_)
  unfolding instruction_from_request draft_of
  request-Post r u id st by_ =
      Post-bind (λ x _. is_nonempty id ≡ true → x ≡ id) _ _ (chosen_id id (is_nonempty id) refl)
        (λ x.
          Post-given (λ s same. same)
            (λ same.
              Post-from (λ s h. tt)
                (Post-skip (lift (parse_timestamp p.iso r.effective_date)) _ (λ from.
                  Post-skip (lift (parse_timestamp p.iso r.end_date)) _ (λ until.
                    Post-skip (clock p) _ (λ created. Post-skip (clock p) _ (λ updated.
                      validated-Post
                        (draft_of r x st (or_default by_ (user_reference u)) from until created
                          updated)
                        id same refl)))))))

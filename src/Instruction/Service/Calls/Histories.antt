-- ===== src/Instruction/Service/Calls/Histories.antt =====
-- What the requests do to the version history of the instructions.
use security_event_rag_demo.Base.{
  String, ◌≡◌, refl, sym, ◌∙◌, ◌⊎◌, inl, inr, true, none, some, [], ◌∷◌, ◌++◌, arith, is_nonempty,
  update_first,
}
use security_event_rag_demo.Base.Exec.{Error, err}
use security_event_rag_demo.Base.Exec.Run.{Run, Run-bind, Run-after, Run-then, Run-weaken}
use security_event_rag_demo.Base.Exec.Frame.{Frame-pure}
use security_event_rag_demo.Base.Exec.Post.{Post-from, Post-weaken}
use mathlib.Core.Path.{subst}
use security_event_rag_demo.Instruction.Enums.{LifecycleAction, InstructionStatus}
use security_event_rag_demo.Instruction.Subject.{Subject, CreateInstructionRequest}
use security_event_rag_demo.Instruction.Storage.{Document, versioned_instruction_to_document}
use security_event_rag_demo.Instruction.Model.{CashSettlementInstruction}
use security_event_rag_demo.Instruction.Authorization.{details_with_authorization}
use security_event_rag_demo.Instruction.Platform.{Platform, Settings, State, Stored}
use security_event_rag_demo.Instruction.Repository.{is_current}
use security_event_rag_demo.Instruction.Repository.History.{
  Documents, IsVersioned, close_stored, Started,
}
use security_event_rag_demo.Instruction.Repository.Versions.{
  Appended-IsVersioned, Started-IsVersioned,
}
use security_event_rag_demo.Instruction.Repository.Appends.{
  RepositoryLaws, documents, document_of, Inserted,
}
use security_event_rag_demo.Instruction.Service.Persist.{Caller}
use security_event_rag_demo.Instruction.Service.Lifecycle.{HasOwnIds, Moved, record_event-Post}
use security_event_rag_demo.Instruction.Service.Commit.{save-Run}
use security_event_rag_demo.Instruction.Service.Response.{to_response}
use security_event_rag_demo.Instruction.Service.Build.Fields.{request-Post}
use security_event_rag_demo.Instruction.Service.Operations.{create}
use security_event_rag_demo.Instruction.Service.Persist.Silent.{
  record_event-Frame, instruction_from_request-Frame,
}
use security_event_rag_demo.Instruction.Service.Persist.Allowed.{Granted}
use security_event_rag_demo.Instruction.Service.Transitions.{
  permitting, Done, allocate_instruction_id-Frame, update-Run, delete-Run, submit-Run, approve-Run,
  reject-Run, suspend-Run, reactivate-Run, use-Run,
}
use security_event_rag_demo.Instruction.Service.Calls.{Call, action_of, perform}

-- What the operations keep of the documents: histories of consecutive versions, and documents
-- filed under the id of their instruction.
abbrev pub IsWellFormed : Documents → Type 0
IsWellFormed c = IsVersioned c × HasOwnIds c

own_ids-append :
    (c : Documents) (e : Stored Document)
    → HasOwnIds c
    → e.1.instruction_id ≡ e.1.payload.instruction_id
    → HasOwnIds (c ++ (e ∷ []))
own_ids-append [] e h o = (o, tt)
own_ids-append (x ∷ c) e h o = (h.0, own_ids-append c e h.1 o)

own_ids-close :
    (id : String) (time : String) (c : Documents)
    → HasOwnIds c
    → HasOwnIds (update_first (is_current id) (close_stored time) c)
own_ids-close id time [] h = tt
own_ids-close id time (x ∷ c) h = ground (arith, own_ids-close id time c h.1)

Moved-IsWellFormed :
    {a : LifecycleAction} {id : String} {c c' : Documents}
    → Moved a id c c'
    → IsWellFormed c
    → IsWellFormed c'
Moved-IsWellFormed {id} {c} {c'} m w = (
  Appended-IsVersioned id m.new c c' m.appended w.0,
  subst HasOwnIds (sym m.appended.result) (
      own_ids-append _ (m.appended.new_key, m.new) (own_ids-close id m.appended.time c w.1)
        m.files_own),
)

-- `c'` is `c` with the first version of a draft, whose id had no version.
pub record Created (c c' : Documents) : Type 0 where
  pub new : Document
  pub started : Started new.instruction_id new c c'
  pub files_own : new.instruction_id ≡ new.payload.instruction_id
  pub is_a_draft : new.payload.status ≡ InstructionStatus.draft

Created-IsWellFormed : {c c' : Documents} → Created c c' → IsWellFormed c → IsWellFormed c'
Created-IsWellFormed {c} {c'} m w = (
  Started-IsVersioned m.new.instruction_id m.new c c' m.started w.0,
  subst HasOwnIds (sym m.started.result)
      (own_ids-append c (m.started.new_key, m.new) w.1 m.files_own),
)

module _ (p : Platform) (cfg : Settings) (laws : RepositoryLaws p) where
  perform-Run :
      (k : Call) (id : String) (u : Subject) (by_ : Caller) (c : Documents)
      → is_nonempty id ≡ true
      → HasOwnIds c
      → Run (documents p) c (Done p cfg laws id c (action_of k) u by_) (perform p cfg k id u by_)
  perform-Run (Call.update_call r) id u by_ c named own =
      update-Run p cfg laws id c u r by_ named own
  perform-Run (Call.delete_call r) id u by_ c named own = delete-Run p cfg laws id c u r by_ own
  perform-Run Call.submit_call id u by_ c named own = submit-Run p cfg laws id c u by_ own
  perform-Run Call.approve_call id u by_ c named own = approve-Run p cfg laws id c u by_ own
  perform-Run (Call.reject_call r) id u by_ c named own = reject-Run p cfg laws id c u r by_ own
  perform-Run Call.suspend_call id u by_ c named own = suspend-Run p cfg laws id c u by_ own
  perform-Run Call.reactivate_call id u by_ c named own = reactivate-Run p cfg laws id c u by_ own
  perform-Run (Call.use_call r) id u by_ c named own = use-Run p cfg laws id c u r by_ own

  -- What a create request that succeeds has done: the policy allowed it, and it added a draft.
  abbrev pub Begun : Subject → Caller → Documents → Documents → Type 0
  Begun u k c c' =
      (created : Created c c') × Granted p cfg LifecycleAction.create u k created.new.instruction_id

  Inserted-Begun :
      (r : CashSettlementInstruction) (u : Subject) (k : Caller) (c c' : Documents)
      → r.status ≡ InstructionStatus.draft
      → Granted p cfg LifecycleAction.create u k r.instruction_id
      → Inserted p r c c'
      → Begun u k c c'
  unfolding versioned_instruction_to_document
  Inserted-Begun r u k c c' draft granted (now, started) = (
    record { new = document_of p r 1 now; started = started; files_own = refl; is_a_draft = draft },
    granted,
  )

  create-Run :
      (r : CreateInstructionRequest) (u : Subject) (by_ : Caller) (c : Documents)
      → Run (documents p) c (Begun u by_ c) (create p cfg r u by_)
  unfolding create
  create-Run r u by_ c = Run-bind _ _ (allocate_instruction_id-Frame p cfg r.owning_lob) (λ id.
      Run-after (λ i. i.status ≡ InstructionStatus.draft) _ _
        (instruction_from_request-Frame p r u id InstructionStatus.draft none)
        (Post-from (λ s h. tt)
          (Post-weaken (request-Post p r u id InstructionStatus.draft none) (λ i s h. h.1)))
        (λ i draft.
          permitting p cfg laws i.instruction_id c LifecycleAction.create u i by_ none _ refl
            (λ b granted.
              Run-after (λ e. (e.instruction_id ≡ i.instruction_id) × (e.status ≡ i.status)) _ _
                (record_event-Frame p cfg i LifecycleAction.create u
                  (some (details_with_authorization none b)))
                (record_event-Post p cfg laws i LifecycleAction.create u
                  (some (details_with_authorization none b)) _)
                (λ e same.
                  Run-then _ _
                    (Run-weaken
                      (λ c'. Inserted-Begun e u by_ c c' (same.1 ∙ draft) (
                        subst (λ x. Granted p cfg LifecycleAction.create u by_ x) (sym same.0)
                          granted))
                      (save-Run p cfg laws e LifecycleAction.create u
                        (some (details_with_authorization none b)) true c))
                    (λ saved. Frame-pure (to_response p.iso saved))))))

  -- Over a collection with the documented laws, if the id of the path is not empty and the
  -- documents are filed under the ids of their instructions: a request on an instruction adds one
  -- version to that instruction's history, by a legal transition of the state machine from the
  -- version that was current, and the policy has allowed the caller this action on an instruction
  -- with that id; or the request raises and leaves the documents as they were. It may also raise
  -- after it has added the version.
  pub call_moves :
      (k : Call) (id : String) (u : Subject) (by_ : Caller) (s : State p)
      → is_nonempty id ≡ true
      → HasOwnIds (documents p s)
      → (Granted p cfg (action_of k) u by_ id
          × Moved (action_of k) id (documents p s) (documents p (perform p cfg k id u by_ s).1))
        ⊎ (((e : Error) × ((perform p cfg k id u by_ s).0 ≡ err e))
            × (documents p (perform p cfg k id u by_ s).1 ≡ documents p s))
  call_moves k id u by_ s named own = (perform-Run k id u by_ (documents p s) named own).at s refl

  -- Over a collection with the documented laws: a create request adds the first version of a
  -- draft, whose id had no current version, and the policy has allowed the caller to create an
  -- instruction with that id; or the request raises and leaves the documents as they were. It may
  -- also raise after it has added the version.
  pub create_starts :
      (r : CreateInstructionRequest) (u : Subject) (by_ : Caller) (s : State p)
      → Begun u by_ (documents p s) (documents p (create p cfg r u by_ s).1)
        ⊎ (((e : Error) × ((create p cfg r u by_ s).0 ≡ err e))
            × (documents p (create p cfg r u by_ s).1 ≡ documents p s))
  create_starts r u by_ s = (create-Run r u by_ (documents p s)).at s refl

  -- Over a collection with the documented laws, if the id of the path is not empty: whether it
  -- returns or raises, a request on an instruction keeps every history a chain of the versions 1,
  -- 2, … of which the last alone is current, and keeps the documents filed under the ids of their
  -- instructions.
  pub perform-IsWellFormed :
      (k : Call) (id : String) (u : Subject) (by_ : Caller) (s : State p)
      → is_nonempty id ≡ true
      → IsWellFormed (documents p s)
      → IsWellFormed (documents p (perform p cfg k id u by_ s).1)
  perform-IsWellFormed k id u by_ s named w = elim (call_moves k id u by_ s named w.1) [
    | inl done ↦ Moved-IsWellFormed done.1 w
    | inr failed ↦ subst IsWellFormed (sym failed.1) w
  ]

  -- Over a collection with the documented laws, whether it returns or raises, a create request
  -- keeps every history a chain of the versions 1, 2, … of which the last alone is current, and
  -- keeps the documents filed under the ids of their instructions.
  pub create-IsWellFormed :
      (r : CreateInstructionRequest) (u : Subject) (by_ : Caller) (s : State p)
      → IsWellFormed (documents p s)
      → IsWellFormed (documents p (create p cfg r u by_ s).1)
  create-IsWellFormed r u by_ s w = elim (create_starts r u by_ s) [
    | inl begun ↦ Created-IsWellFormed begun.0 w
    | inr failed ↦ subst IsWellFormed (sym failed.1) w
  ]

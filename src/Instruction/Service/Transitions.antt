-- ===== src/Instruction/Service/Transitions.antt =====
-- Every operation on an instruction, as a transition of its state machine.
use mathlib.Core.Path.{subst}
use security_event_rag_demo.Base.{
  String, ◌≡◌, refl, sym, ◌∙◌, Bool, true, false, not, Option, none, some, is_nonempty,
}
use security_event_rag_demo.Base.Exec.{Error, pure, raise_if, ◌>>=◌}
use security_event_rag_demo.Base.Exec.Frame.{
  Frame-bind, Frame-catch, Frame-raise, Frame, Frame-raise_if, Frame-pure,
}
use security_event_rag_demo.Base.Exec.Post.{Post-weaken, Post-raise_if, Post-from}
use security_event_rag_demo.Base.Exec.Run.{Run-weaken, Run, Run-bind, Run-then, Run-after}
use security_event_rag_demo.Base.Json.{Fields, field, str, end}
use security_event_rag_demo.Instruction.Enums.{LifecycleAction, is_deleted, is_draft_or_pending}
use security_event_rag_demo.Instruction.Subject.{
  Subject, CreateInstructionRequest, DeleteInstructionRequest, RejectInstructionRequest,
  UseInstructionRequest,
}
use security_event_rag_demo.Instruction.Model.{CashSettlementInstruction}
use security_event_rag_demo.Instruction.Authorization.{
  AuthorizationBlock, details_with_authorization,
}
use security_event_rag_demo.Clients.Sequence.{next_instruction_id}
use security_event_rag_demo.Instruction.Service.Events.{wrap_sequence_error}
use security_event_rag_demo.Instruction.Storage.{VersionedInstruction}
use security_event_rag_demo.Instruction.Platform.{Platform, Settings, Action}
use security_event_rag_demo.Instruction.Repository.{get_current}
use security_event_rag_demo.Instruction.Repository.History.{Documents}
use security_event_rag_demo.Instruction.Repository.Appends.{RepositoryLaws, documents}
use security_event_rag_demo.Instruction.Service.Build.Fields.{request-Post}
use security_event_rag_demo.Instruction.Service.Response.{to_response}
use security_event_rag_demo.Instruction.Service.Persist.{
  authorize, Caller, persist_authorized, persist_new_version,
}
use security_event_rag_demo.Instruction.Service.Persist.Silent.{
  get_current-Frame, authorize-Frame, clock-Frame_lem, instruction_from_request-Frame, remote-Frame,
}
use security_event_rag_demo.Instruction.Service.Persist.Allowed.{Granted, authorize-permitted}
use security_event_rag_demo.Instruction.Service.Lifecycle.{
  Transition, HasOwnIds, Moved, Current, get_current-Post, persist_authorized-Run,
}
use security_event_rag_demo.Instruction.Service.Guards.{
  submit_legal, update_legal, delete_legal, approve_legal, reject_legal, suspend_legal,
  reactivate_legal, use_legal,
}
use security_event_rag_demo.Instruction.Service.Changes.{
  deleted, submitted, approved, rejected, suspended, reactivated, counted, used, delete_details,
}
use security_event_rag_demo.Instruction.Service.Operations.{
  allocate_instruction_id, carry_over, use_details, update, update_from, delete, delete_from,
  submit, submit_from, approve, approve_from, reject, reject_from, suspend, suspend_from,
  reactivate, reactivate_from, use_from, use_instruction,
}

pub allocate_instruction_id-Frame :
    (p : Platform) (cfg : Settings) (lob : String)
    → Frame (documents p) (allocate_instruction_id p cfg lob)
unfolding allocate_instruction_id
allocate_instruction_id-Frame p cfg lob = Frame-bind _ _ (clock-Frame_lem p) (λ now.
    Frame-catch _ _
      (remote-Frame p cfg
        (next_instruction_id p.post p.python_str cfg.sequence_service_url (p.utc_date now) lob))
      (λ e. Frame-raise (wrap_sequence_error "sequence allocation failed: " e)))

module _ (p : Platform) (cfg : Settings) (laws : RepositoryLaws p) (id : String)
    (c : Documents) where
  -- The step of an operation that reads the current version.
  reading :
      {A : Type 0} {R : Documents → Type 0} (f : VersionedInstruction → Action p A)
      → HasOwnIds c
      → ((v : VersionedInstruction) → Current p id c v → Run (documents p) c R (f v))
      → Run (documents p) c R (get_current p id >>= f)
  reading f own k =
      Run-after (Current p id c) _ _ (get_current-Frame p id) (get_current-Post p laws id c own) k

  -- The guard of an operation.
  guarding :
      {A : Type 0} {R : Documents → Type 0} (b : Bool) (e : Error) (f : Unit {0} → Action p A)
      → (b ≡ false → (u : Unit {0}) → Run (documents p) c R (f u))
      → Run (documents p) c R (raise_if b e >>= f)
  guarding b e f k =
      Run-after (λ _. b ≡ false) _ _ (Frame-raise_if b e)
        (Post-weaken (Post-raise_if b e) (λ _ s h. h.1)) (λ u h. k h u)

  -- What a request that succeeds has done: the policy allowed it, and it added a version.
  abbrev pub Done : LifecycleAction → Subject → Caller → Documents → Type 0
  Done a u k c' = Granted p cfg a u k id × Moved a id c c'

  -- The policy's permission, for the rest of an operation.
  pub permitting :
      {A : Type 0} {R : Documents → Type 0} (a : LifecycleAction) (u : Subject)
      (i : CashSettlementInstruction) (k : Caller) (d : Option Fields)
      (f : AuthorizationBlock → Action p A)
      → i.instruction_id ≡ id
      → ((b : AuthorizationBlock) → Granted p cfg a u k id → Run (documents p) c R (f b))
      → Run (documents p) c R (authorize p cfg a u i k true d >>= f)
  permitting a u i k d f same next =
      Run-after (λ b. Granted p cfg a u k id) _ _ (authorize-Frame p cfg a u i k true d)
        (record {
          at = λ s h b e. record {
            asked_for = i;
            same_id = same;
            asked_in = s;
            block = b;
            permission = authorize-permitted p cfg a u i k true d s b e;
          };
        })
        next

  -- The last step of an operation: saving, and answering.
  saving :
      {a : LifecycleAction} {u : Subject} (k : Caller) (granted : Granted p cfg a u k id)
      (i : CashSettlementInstruction) (d : Option Fields) (v : VersionedInstruction)
      → Current p id c v
      → i.instruction_id ≡ v.instruction.instruction_id
      → Transition a v.instruction.instruction_type v.instruction.status i.status
      → Run
          (documents p)
          c
          (Done a u k)
          (persist_authorized p cfg i a u d >>= λ saved. pure (to_response p.iso saved))
  saving {a} {u} k granted i d v cur same t =
      Run-then _ _
        (Run-weaken (λ c' moved. (granted, moved))
          (persist_authorized-Run p cfg laws i a u d id c v cur same t))
        (λ saved. Frame-pure (to_response p.iso saved))

  pub submit-Run :
      (u : Subject) (k : Caller)
      → HasOwnIds c
      → Run (documents p) c (Done LifecycleAction.submit u k) (submit p cfg id u k)
  unfolding submit submit_from
  submit-Run u k own = reading _ own (λ v cur. guarding _ _ _ (λ ok_status _.
      permitting LifecycleAction.submit u v.instruction k none _ cur.own_id (λ b granted.
        Run-bind _ _ (clock-Frame_lem p) (λ now.
          saving k granted (submitted now v.instruction) (some (details_with_authorization none b))
            v cur refl (submit_legal v.instruction.status ok_status)))))

  pub approve-Run :
      (u : Subject) (k : Caller)
      → HasOwnIds c
      → Run (documents p) c (Done LifecycleAction.approve u k) (approve p cfg id u k)
  unfolding approve approve_from
  approve-Run u k own = reading _ own (λ v cur. guarding _ _ _ (λ ok_status _.
      permitting LifecycleAction.approve u v.instruction k none _ cur.own_id (λ b granted.
        Run-bind _ _ (clock-Frame_lem p) (λ now.
          saving k granted (approved u now v.instruction) (some (details_with_authorization none b))
            v cur refl
            (approve_legal v.instruction.instruction_type v.instruction.status ok_status)))))

  pub reject-Run :
      (u : Subject) (r : RejectInstructionRequest) (k : Caller)
      → HasOwnIds c
      → Run (documents p) c (Done LifecycleAction.reject u k) (reject p cfg id u r k)
  unfolding reject reject_from
  reject-Run u r k own = reading _ own (λ v cur. guarding _ _ _ (λ ok_status _.
      permitting LifecycleAction.reject u v.instruction k (some (field "reason" (str r.reason) end))
        _ cur.own_id
        (λ b granted. Run-bind _ _ (clock-Frame_lem p) (λ now.
          saving k granted (rejected u r.reason now v.instruction)
            (some (details_with_authorization (some (field "reason" (str r.reason) end)) b)) v cur
            refl (reject_legal v.instruction.status ok_status)))))

  pub suspend-Run :
      (u : Subject) (k : Caller)
      → HasOwnIds c
      → Run (documents p) c (Done LifecycleAction.suspend u k) (suspend p cfg id u k)
  unfolding suspend suspend_from
  suspend-Run u k own = reading _ own (λ v cur. guarding _ _ _ (λ ok_status _.
      permitting LifecycleAction.suspend u v.instruction k none _ cur.own_id (λ b granted.
        Run-bind _ _ (clock-Frame_lem p) (λ now.
          saving k granted (suspended u now v.instruction)
            (some (details_with_authorization none b)) v cur refl
            (suspend_legal v.instruction.status ok_status)))))

  pub reactivate-Run :
      (u : Subject) (k : Caller)
      → HasOwnIds c
      → Run (documents p) c (Done LifecycleAction.reactivate u k) (reactivate p cfg id u k)
  unfolding reactivate reactivate_from
  reactivate-Run u k own = reading _ own (λ v cur. guarding _ _ _ (λ ok_status _.
      permitting LifecycleAction.reactivate u v.instruction k none _ cur.own_id (λ b granted.
        saving k granted (reactivated v.instruction) (some (details_with_authorization none b)) v
          cur refl
          (reactivate_legal v.instruction.instruction_type v.instruction.status ok_status))))

  pub use-Run :
      (u : Subject) (r : UseInstructionRequest) (k : Caller)
      → HasOwnIds c
      → Run (documents p) c (Done LifecycleAction.use_ u k) (use_instruction p cfg id u r k)
  unfolding use_instruction use_from
  use-Run u r k own = reading _ own (λ v cur. guarding _ _ _ (λ ok_status _.
      Run-bind _ _ (clock-Frame_lem p) (λ now.
        permitting LifecycleAction.use_ u (counted now v.instruction) k
          (some (use_details p cfg r (counted now v.instruction))) _ cur.own_id
          (λ b granted.
            saving k granted (used (counted now v.instruction))
              (some (
                details_with_authorization (some (use_details p cfg r (counted now v.instruction)))
                  b))
              v cur refl
              (use_legal v.instruction.instruction_type v.instruction.status ok_status)))))

  persist_new_version-Run :
      (i : CashSettlementInstruction) (a : LifecycleAction) (u : Subject) (d : Option Fields)
      (k : Caller) (v : VersionedInstruction)
      → Current p id c v
      → i.instruction_id ≡ v.instruction.instruction_id
      → Transition a v.instruction.instruction_type v.instruction.status i.status
      → Run (documents p) c (Done a u k) (persist_new_version p cfg i a u d k)
  unfolding persist_new_version
  persist_new_version-Run i a u d k v cur same t =
      permitting a u i k d _ (same ∙ cur.own_id) (λ b granted.
        Run-weaken (λ c' moved. (granted, moved))
          (persist_authorized-Run p cfg laws i a u (some (details_with_authorization d b)) id c v
            cur same t))

  pub delete-Run :
      (u : Subject) (r : Option DeleteInstructionRequest) (k : Caller)
      → HasOwnIds c
      → Run (documents p) c (Done LifecycleAction.delete u k) (delete p cfg id u r k)
  unfolding delete delete_from
  delete-Run u r k own = reading _ own (λ v cur.
      guarding (is_deleted v.instruction.status)
        (Error.invalid_state_transition "instruction is already deleted") _
        (λ not_deleted _.
          guarding (not (is_draft_or_pending v.instruction.status))
            (Error.invalid_state_transition
              "only DRAFT or PENDING instructions can be soft deleted")
            _
            (λ ok_status _.
              Run-then _ _
                (persist_new_version-Run (deleted v.instruction) LifecycleAction.delete u
                  (some (delete_details r)) k v cur refl
                  (delete_legal v.instruction.status ok_status))
                (λ saved. Frame-pure (to_response p.iso saved)))))

  -- The new instruction of an update, which keeps the id and the status.
  pub update-Run :
      (u : Subject) (r : CreateInstructionRequest) (k : Caller)
      → is_nonempty id ≡ true
      → HasOwnIds c
      → Run (documents p) c (Done LifecycleAction.update u k) (update p cfg id r u k)
  unfolding update update_from
  update-Run u r k named own = reading _ own (λ v cur. guarding _ _ _ (λ ok_status _.
      Run-after
        (λ i. (i.instruction_id ≡ v.instruction.instruction_id) × (i.status ≡ v.instruction.status))
        _ _
        (instruction_from_request-Frame p r u v.instruction.instruction_id v.instruction.status
          (some v.instruction.created_by))
        (Post-from (λ s h. tt)
          (Post-weaken
            (request-Post p r u v.instruction.instruction_id v.instruction.status
              (some v.instruction.created_by))
            (λ i s h. (h.0 (subst (λ x. is_nonempty x ≡ true) (sym cur.own_id) named), h.1))))
        (λ i built.
          Run-then _ _
            (persist_new_version-Run (carry_over p cfg v.instruction i) LifecycleAction.update u
              none k v cur built.0
              (subst
                (λ x.
                  Transition LifecycleAction.update v.instruction.instruction_type
                    v.instruction.status x)
                (sym built.1) (update_legal v.instruction.status ok_status)))
            (λ saved. Frame-pure (to_response p.iso saved)))))

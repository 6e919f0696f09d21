-- ===== src/Instruction/Service/Lifecycle.antt =====
-- The state machine of an instruction, and what every operation of the service does to the
-- version history.
use security_event_rag_demo.Base.{
  String, ◌≡◌, refl, ◌∙◌, sym, ap, true, false, Option, none, some, [], ◌∷◌, ◌++◌, update_first,
  All, arith, first, eq_iff,
}
use mathlib.Core.Path.{subst}
use security_event_rag_demo.Base.Exec.Frame.{ok_inj}
use security_event_rag_demo.Base.Exec.Post.{Post, Post-bind, Post-given, Post-from}
use security_event_rag_demo.Base.Exec.Run.{Run, Run-after, Run-weaken}
use security_event_rag_demo.Base.Json.{Fields}
use security_event_rag_demo.Instruction.Enums.{
  LifecycleAction, InstructionStatus, InstructionType, is_active,
}
use security_event_rag_demo.Instruction.Subject.{Subject}
use security_event_rag_demo.Instruction.Model.{CashSettlementInstruction}
use security_event_rag_demo.Instruction.Storage.{
  Document, VersionedInstruction, versioned_instruction_to_document,
}
use security_event_rag_demo.Instruction.Storage.Payload.{read-payload}
use security_event_rag_demo.Instruction.Platform.{Stored, Platform, Settings, State}
use security_event_rag_demo.Instruction.Repository.{is_current, current_of, get_current}
use security_event_rag_demo.Instruction.Repository.History.{Documents, close_stored, Appended}
use security_event_rag_demo.Instruction.Repository.Appends.{
  RepositoryLaws, documents, document_of, Saved, find_one-Post,
}
use security_event_rag_demo.Instruction.Service.Persist.{record_event, persist_authorized}
use security_event_rag_demo.Instruction.Service.Persist.Silent.{record_event-Frame}
use security_event_rag_demo.Instruction.Service.Commit.{save-Run}

-- Which status may follow which, by the action and the type of the instruction.
pub data Transition
    : LifecycleAction → InstructionType → InstructionStatus → InstructionStatus → Type 0 where
  updating :
      {t : InstructionType}
      → Transition LifecycleAction.update t InstructionStatus.draft InstructionStatus.draft
  submitting :
      {t : InstructionType}
      → Transition LifecycleAction.submit t InstructionStatus.draft InstructionStatus.pending
  deleting_draft :
      {t : InstructionType}
      → Transition LifecycleAction.delete t InstructionStatus.draft InstructionStatus.deleted
  deleting_pending :
      {t : InstructionType}
      → Transition LifecycleAction.delete t InstructionStatus.pending InstructionStatus.deleted
  approving_standing :
      Transition LifecycleAction.approve InstructionType.standing InstructionStatus.pending
        InstructionStatus.standing
  approving_single_use :
      Transition LifecycleAction.approve InstructionType.single_use InstructionStatus.pending
        InstructionStatus.single_use
  rejecting :
      {t : InstructionType}
      → Transition LifecycleAction.reject t InstructionStatus.pending InstructionStatus.rejected
  suspending_standing :
      {t : InstructionType}
      → Transition LifecycleAction.suspend t InstructionStatus.standing InstructionStatus.suspended
  suspending_single_use :
      {t : InstructionType}
      → Transition LifecycleAction.suspend t InstructionStatus.single_use
          InstructionStatus.suspended
  reactivating_standing :
      Transition LifecycleAction.reactivate InstructionType.standing InstructionStatus.suspended
        InstructionStatus.standing
  reactivating_single_use :
      Transition LifecycleAction.reactivate InstructionType.single_use InstructionStatus.suspended
        InstructionStatus.single_use
  using_single_use :
      {s : InstructionStatus}
      → is_active s ≡ true
      → Transition LifecycleAction.use_ InstructionType.single_use s InstructionStatus.used
  using_standing :
      {s : InstructionStatus}
      → is_active s ≡ true
      → Transition LifecycleAction.use_ InstructionType.standing s s

-- Every document is filed under the id of its instruction.
abbrev pub HasOwnIds : Documents → Type 0
HasOwnIds = All (λ e. e.1.instruction_id ≡ e.1.payload.instruction_id)

-- `c'` is `c` with one more version of `id`, by a transition from the version that was current.
pub record Moved (a : LifecycleAction) (id : String) (c c' : Documents) : Type 0 where
  pub new : Document
  pub appended : Appended id new c c'
  pub files_own : new.instruction_id ≡ new.payload.instruction_id
  pub legal :
      Transition a appended.previous.payload.instruction_type appended.previous.payload.status
        new.payload.status

-- The document that a current version was read from.
pub record Current (p : Platform) (id : String) (c : Documents) (v : VersionedInstruction)
    : Type 0 where
  pub key : String
  pub stored : Document
  pub found : first (is_current id) c ≡ some (key, stored)
  pub own_id : v.instruction.instruction_id ≡ id
  pub same : v.instruction ≡ stored.payload

first-own_id :
    (id : String) (c : Documents) (e : Stored Document)
    → HasOwnIds c
    → first (is_current id) c ≡ some e
    → e.1.payload.instruction_id ≡ id
first-own_id id [] e h f = absurd (cc f)
first-own_id id (x ∷ c) e h f =
    ground (arith, first-own_id id c e h.1, eq_iff x.1.instruction_id id)

module _ (p : Platform) (laws : RepositoryLaws p) where
  current_of-Post :
      (id : String) (c : Documents) (r : Option (Stored Document))
      → HasOwnIds c
      → first (is_current id) c ≡ r
      → Post (λ s. documents p s ≡ c) (λ v _. Current p id c v) (current_of p id r)
  current_of-Post id c none own found = record { at = λ s h v e. absurd (cc e) }
  current_of-Post id c (some (k, d)) own found = record {
    at = λ s h v e.
        let same = read-payload p.iso d v e in
        record {
          key = k;
          stored = d;
          found = found;
          own_id = ap (λ i. i.instruction_id) same ∙ first-own_id id c (k, d) own found;
          same = same;
        };
  }

  pub get_current-Post :
      (id : String) (c : Documents)
      → HasOwnIds c
      → Post (λ s. documents p s ≡ c) (λ v _. Current p id c v) (get_current p id)
  unfolding get_current
  get_current-Post id c own =
      Post-bind (λ r s. (documents p s ≡ c) × (first (is_current id) c ≡ r)) _ _
        (find_one-Post p laws id c)
        (λ r.
          Post-given (λ s h. h.1)
            (λ found. Post-from (λ s h. h.0) (current_of-Post id c r own found)))

-- The same history under an equal id.
retarget :
    {id other : String} {new : Document} {c c' : Documents}
    → id ≡ other
    → Appended id new c c'
    → Appended other new c c'
retarget {new} {c} {c'} e a = record {
  key = a.key;
  previous = a.previous;
  new_key = a.new_key;
  time = a.time;
  was_current = subst (λ x. first (is_current x) c ≡ some (a.key, a.previous)) e a.was_current;
  same_id = a.same_id ∙ e;
  next_version = a.next_version;
  is_now_current = a.is_now_current;
  result =
      subst
        (λ x. c' ≡ update_first (is_current x) (close_stored a.time) c ++ ((a.new_key, new) ∷ [])) e
        a.result;
}

module _ (p : Platform) (cfg : Settings) (laws : RepositoryLaws p) where
  -- A version saved of what a current version was read from is a transition of it.
  Saved-Moved :
      (a : LifecycleAction) (id : String) (c c' : Documents) (v : VersionedInstruction)
      (r : CashSettlementInstruction) (s : InstructionStatus)
      → Current p id c v
      → r.instruction_id ≡ v.instruction.instruction_id
      → r.status ≡ s
      → Transition a v.instruction.instruction_type v.instruction.status s
      → Saved p r c c'
      → Moved a id c c'
  unfolding versioned_instruction_to_document
  Saved-Moved a id c c' v r s cur same_id status t (n, now, appended) =
      let moved = retarget (same_id ∙ cur.own_id) appended in
      let previous : cur.stored ≡ moved.previous = stored_inj (sym cur.found ∙ moved.was_current) in
      record {
        new = document_of p (record r { updated_at = now }) n now;
        appended = moved;
        files_own = refl;
        legal =
            subst (λ i. Transition a i.instruction_type i.status r.status)
              (cur.same ∙ ap (λ d. d.payload) previous)
              (subst (λ x. Transition a v.instruction.instruction_type v.instruction.status x)
                (sym status) t);
      }
    where
      stored_inj :
          {k l : String} {d e : Document}
          → ◌≡◌ {A = Option (Stored Document)} (some (k, d)) (some (l, e))
          → d ≡ e
      stored_inj x = cc

  pub record_event-Post :
      (i : CashSettlementInstruction) (a : LifecycleAction) (u : Subject) (d : Option Fields)
      (P : State p → Type 0)
      → Post P
          (λ r _. (r.instruction_id ≡ i.instruction_id) × (r.status ≡ i.status))
          (record_event p cfg i a u d)
  unfolding record_event
  record_event-Post i a u d P = record {
    at = λ s h r e.
        (sym (ap (λ x. x.instruction_id) (ok_inj e)), sym (ap (λ x. x.status) (ok_inj e)));
  }

  pub persist_authorized-Run :
      (i : CashSettlementInstruction) (a : LifecycleAction) (u : Subject) (d : Option Fields)
      (id : String) (c : Documents) (v : VersionedInstruction)
      → Current p id c v
      → i.instruction_id ≡ v.instruction.instruction_id
      → Transition a v.instruction.instruction_type v.instruction.status i.status
      → Run (documents p) c (Moved a id c) (persist_authorized p cfg i a u d)
  unfolding persist_authorized
  persist_authorized-Run i a u d id c v cur same t =
      Run-after (λ r. (r.instruction_id ≡ i.instruction_id) × (r.status ≡ i.status)) _ _
        (record_event-Frame p cfg i a u d) (record_event-Post i a u d _)
        (λ r g.
          Run-weaken (λ c'. Saved-Moved a id c c' v r i.status cur (g.0 ∙ same) g.1 t)
            (save-Run p cfg laws r a u d false c))

-- ===== src/Instruction/Service/Commit.antt =====
-- What saving a version does to the documents: the transaction adds one version or nothing.
use security_event_rag_demo.Base.{
  ◌≡◌, refl, ◌⊎◌, inl, inr, Bool, true, false, Option, if◌then◌else◌,
}
use security_event_rag_demo.Base.Exec.{Error, Result, ok, err}
use security_event_rag_demo.Base.Exec.Frame.{Frame-bind, Frame-pure, frame_rules}
use security_event_rag_demo.Base.Exec.Post.{Post, Post-then}
use security_event_rag_demo.Base.Exec.Run.{Run, Run-then}
use security_event_rag_demo.Base.Json.{Fields}
use security_event_rag_demo.Instruction.Enums.{LifecycleAction}
use security_event_rag_demo.Instruction.Subject.{Subject}
use security_event_rag_demo.Instruction.Model.{CashSettlementInstruction}
use security_event_rag_demo.Instruction.Platform.{
  CommitResult, Platform, Settings, State, Action, close, finish, mongo_transaction,
}
use security_event_rag_demo.Instruction.Repository.History.{Documents}
use security_event_rag_demo.Instruction.Repository.Appends.{
  RepositoryLaws, documents, Saved, Inserted, append_version-Post, insert_initial-Post,
}
use security_event_rag_demo.Instruction.Service.Persist.{
  save_version, save_and_record, save_instruction_with_security_event,
}
use security_event_rag_demo.Instruction.Service.Persist.Silent.{
  clock-Frame_lem, allocate_event_id-Frame, insert_document-Frame, announce-Frame,
}

module _ (p : Platform) where
  finished :
      {A : Type 0} {c : Documents} (R : Documents → Type 0) (s : State p) (a : A)
      (q : CommitResult × p.Outside) (t : State p)
      → documents p s ≡ c
      → R (documents p t)
      → R (documents p (finish p s a q t).1)
        ⊎ (((e : Error) × ((finish p s a q t).0 ≡ err e)) × (documents p (finish p s a q t).1 ≡ c))
  finished R s a (CommitResult.committed, o) t h k = inl k
  finished R s a (CommitResult.rolled_back e, o) t h k = inr ((e, refl), h)
  finished R s a (CommitResult.unknown_result e true, o) t h k = inl k
  finished R s a (CommitResult.unknown_result e false, o) t h k = inr ((e, refl), h)

  committed :
      {A : Type 0} {c : Documents} (R : Documents → Type 0) (s : State p) (r : Result A)
      (t : State p)
      → documents p s ≡ c
      → ((a : A) → r ≡ ok a → R (documents p t))
      → R (documents p (close p s (r, t)).1)
        ⊎ (((e : Error) × ((close p s (r, t)).0 ≡ err e)) × (documents p (close p s (r, t)).1 ≡ c))
  committed R s (ok a) t h k = finished R s a (p.commit t.outside) t h (k a refl)
  committed R s (err e) t h k = inr ((e, refl), h)

  -- A transaction that raises has changed nothing, unless the result of its commit is unknown.
  pub Run-transaction :
      {A : Type 0} {c : Documents} {R : Documents → Type 0} (m : Action p A)
      → Post (λ s. documents p s ≡ c) (λ _ s. R (documents p s)) m
      → Run (documents p) c R (mongo_transaction p m)
  Run-transaction {R} m k = record { at = λ s h. committed R s (m s).0 (m s).1 h (λ a. k.at s h a) }

module _ (p : Platform) (cfg : Settings) where
  -- What the documents are after a version is saved.
  abbrev pub Written : Bool → CashSettlementInstruction → Documents → Documents → Type 0
  Written initial i c c' = if initial then Inserted p i c c' else Saved p i c c'

module _ (p : Platform) (cfg : Settings) (laws : RepositoryLaws p) where
  save_version-Post :
      (initial : Bool) (i : CashSettlementInstruction) (c : Documents)
      → Post
          (λ s. documents p s ≡ c)
          (λ _ s. Written p cfg initial i c (documents p s))
          (save_version p cfg initial i)
  unfolding save_version
  save_version-Post true i c = insert_initial-Post p laws i c
  save_version-Post false i c = append_version-Post p laws i c

  -- The event of a version leaves the documents alone.
  save_and_record-Post :
      (i : CashSettlementInstruction) (a : LifecycleAction) (u : Subject) (d : Option Fields)
      (initial : Bool) (c : Documents)
      → Post
          (λ s. documents p s ≡ c)
          (λ _ s. Written p cfg initial i c (documents p s))
          (save_and_record p cfg i a u d initial)
  unfolding save_and_record
  save_and_record-Post i a u d initial c =
      Post-then (documents p) (Written p cfg initial i c) _ _ (save_version-Post initial i c)
        (λ saved.
          search (frame_rules, clock-Frame_lem, allocate_event_id-Frame, insert_document-Frame))

  pub save-Run :
      (i : CashSettlementInstruction) (a : LifecycleAction) (u : Subject) (d : Option Fields)
      (initial : Bool) (c : Documents)
      → Run
          (documents p)
          c
          (Written p cfg initial i c)
          (save_instruction_with_security_event p cfg i a u d initial)
  unfolding save_instruction_with_security_event
  save-Run i a u d initial c =
      Run-then _ _ (Run-transaction p _ (save_and_record-Post i a u d initial c))
        (λ done. Frame-bind _ _ (announce-Frame p cfg done.0 a u d done.1) (λ _. Frame-pure _))

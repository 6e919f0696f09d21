-- ===== src/Instruction/Repository/Appends.antt =====
-- What a successful write of the repository has done to the collection.
use security_event_rag_demo.Base.{
  ℕ, arith, sym, ◌+◌, Option, ◌≡◌, refl, ◌∙◌, ap, String, none, some, [], ◌∷◌, ◌++◌, first,
  update_first,
}
use security_event_rag_demo.Base.Exec.{Result, ok, err}
use security_event_rag_demo.Base.Exec.Frame.{Frame}
use security_event_rag_demo.Base.Exec.Post.{
  Post, Post-return, Post-lift, Post-raise, Post-catch, Post-raise_if, Post-bind, Post-weaken,
  Post-Frame, Post-given, Post-from,
}
use security_event_rag_demo.Instruction.Model.{CashSettlementInstruction}
use security_event_rag_demo.Instruction.Storage.{
  Document, document_to_versioned_instruction, format_timestamp, versioned_instruction_to_document,
}
use security_event_rag_demo.Instruction.Platform.{CollectionLaws, Platform, State, Stored, clock}
use security_event_rag_demo.Instruction.Repository.{
  is_current, is_version, update_one, insert_one, updated, inserted, replace_version,
  append_version, insert_initial, append_to, conflict, conflict_message, find_one,
}
use security_event_rag_demo.Instruction.Repository.History.{
  Documents, HasUniqueIds, close_stored, closed, Appended, Started, update_version-eq_current,
}

-- What is documented of the `instructions` collection: the operations, `_id`s that are unique,
-- and the unique index on the current version of an instruction.
pub record RepositoryLaws (p : Platform) : Type 0 where
  pub collection : CollectionLaws p.instructions
  pub unique_ids : (c : p.instructions.Coll) → HasUniqueIds (p.instructions.documents c)
  pub unique_current :
      (d : Document) (c c' : p.instructions.Coll) (k : String)
      → p.instructions.insert_one d c ≡ ok (k, c')
      → d.out ≡ none
      → first (is_current d.instruction_id) (p.instructions.documents c) ≡ none

module _ (p : Platform) where
  abbrev pub documents : State p → Documents
  documents s = p.instructions.documents s.instructions

  abbrev pub document_of : CashSettlementInstruction → ℕ → ℕ → Document
  document_of i n t = versioned_instruction_to_document p.iso i n t none

  -- What a successful `append_version` leaves.
  abbrev pub Saved : CashSettlementInstruction → Documents → Documents → Type 0
  Saved i c c' =
      (n now : ℕ) × Appended i.instruction_id (document_of (record i { updated_at = now }) n now) c
        c'

  -- What a successful `insert_initial` leaves.
  abbrev pub Inserted : CashSettlementInstruction → Documents → Documents → Type 0
  Inserted i c c' = (now : ℕ) × Started i.instruction_id (document_of i 1 now) c c'

  clock-Frame : Frame documents (clock p)
  clock-Frame = record { at = λ s. refl }

module _ (p : Platform) (laws : RepositoryLaws p) where
  update-Post :
      (id : String) (key : String) (d : Document) (time : String) (c : Documents)
      → first (is_current id) c ≡ some (key, d)
      → Post
          (λ s. documents p s ≡ c)
          (λ n s. documents p s ≡ update_first (is_current id) (close_stored time) c)
          (update_one p (is_version key d.version_number) (closed time))
  update-Post id key d time c found = record {
    at = λ s h n e. after s h n (p.instructions.update_one _ (closed time) s.instructions) refl e;
  }
    where
      after :
          (s : State p)
          → documents p s ≡ c
          → (n : ℕ) (r : Result (ℕ × p.instructions.Coll))
          → p.instructions.update_one (is_version key d.version_number) (closed time) s.instructions
            ≡ r
          → (updated p s r).0 ≡ ok n
          → documents p (updated p s r).1 ≡ update_first (is_current id) (close_stored time) c
      after s h n (ok (m, c')) e x =
          (laws.collection.update_one_first _ _ s.instructions c' m e).0
          ∙ update_version-eq_current id (close_stored time) (documents p s) key d
              (laws.unique_ids s.instructions) (rw h found)
          ∙ ap (update_first (is_current id) (close_stored time)) h
      after s h n (err x) e y = absurd (cc y)

  insert-Post :
      (doc : Document) (c : Documents)
      → Post
          (λ s. documents p s ≡ c)
          (λ _ s.
            ((k : String) × (documents p s ≡ c ++ ((k, doc) ∷ [])))
            × (doc.out ≡ none → first (is_current doc.instruction_id) c ≡ none))
          (insert_one p doc)
  insert-Post doc c = record {
    at = λ s h n e. after s h n (p.instructions.insert_one doc s.instructions) refl e;
  }
    where
      after :
          (s : State p)
          → documents p s ≡ c
          → (u : Unit {0}) (r : Result (String × p.instructions.Coll))
          → p.instructions.insert_one doc s.instructions ≡ r
          → (inserted p s r).0 ≡ ok u
          → ((k : String) × (documents p (inserted p s r).1 ≡ c ++ ((k, doc) ∷ [])))
            × (doc.out ≡ none → first (is_current doc.instruction_id) c ≡ none)
      after s h u (ok (k, c')) e x = (
        (
          k,
          laws.collection.insert_one_appends doc s.instructions c' k e
              ∙ ap (λ l. l ++ ((k, doc) ∷ [])) h,
        ),
        λ open_doc. rw (sym h) (laws.unique_current doc s.instructions c' k e open_doc),
      )
      after s h u (err x) e y = absurd (cc y)

  -- The documents once the version that was current at a time is closed.
  abbrev without_current : String → ℕ → Documents → Documents
  without_current id now = update_first (is_current id) (close_stored (format_timestamp p.iso now))

  replace_version-Post :
      (i : CashSettlementInstruction) (key : String) (now : ℕ) (d : Document) (c : Documents)
      → first (is_current i.instruction_id) c ≡ some (key, d)
      → Post
          (λ s. documents p s ≡ c)
          (λ doc s.
            (doc ≡ document_of p i (d.version_number + 1) now)
            × ((k : String) × (documents p s
                  ≡ without_current i.instruction_id now c ++ ((k, doc) ∷ []))))
          (replace_version p i now (key, d))
  unfolding replace_version
  replace_version-Post i key now d c found =
      Post-bind (λ _ s. documents p s ≡ without_current i.instruction_id now c) _ _
        (update-Post i.instruction_id key d (format_timestamp p.iso now) c found)
        (λ n.
          Post-bind (λ _ s. documents p s ≡ without_current i.instruction_id now c) _ _
            (Post-weaken (Post-raise_if _ _) (λ _ s h. h.0))
            (λ _.
              Post-bind
                (λ _ s.
                  (k : String) × (documents p s
                    ≡ without_current i.instruction_id now c
                      ++ ((k, document_of p i (d.version_number + 1) now) ∷ [])))
                _ _
                (Post-weaken (insert-Post (document_of p i (d.version_number + 1) now) _)
                  (λ _ s h. h.0))
                (λ _. Post-return _ (λ s h. (refl, h)))))

  pub find_one-Post :
      (id : String) (c : Documents)
      → Post
          (λ s. documents p s ≡ c)
          (λ r s. (documents p s ≡ c) × (first (is_current id) c ≡ r))
          (find_one p (is_current id))
  find_one-Post id c = record { at = λ s h r e. (h, found s h r e) }
    where
      found :
          (s : State p)
          → documents p s ≡ c
          → (r : Option (Stored Document)) → (find_one p (is_current id) s).0 ≡ ok r
          → first (is_current id) c ≡ r
      found s h r e =
          let law = laws.collection.find_one_first (is_current id) s.instructions in ground (arith)

  append_to-Post :
      (i : CashSettlementInstruction) (now : ℕ) (c : Documents) (r : Option (Stored Document))
      → first (is_current i.instruction_id) c ≡ r
      → Post
          (λ s. documents p s ≡ c)
          (λ _ s. (n : ℕ) × Appended i.instruction_id (document_of p i n now) c (documents p s))
          (append_to p i now r)
  unfolding versioned_instruction_to_document
  append_to-Post i now c none found = Post-raise _
  append_to-Post i now c (some (key, d)) found =
      Post-bind
        (λ doc s. (n : ℕ) × Appended i.instruction_id (document_of p i n now) c (documents p s)) _ _
        (Post-catch (replace_version p i now (key, d))
          (conflict (conflict_message i.instruction_id d.version_number))
          (Post-weaken (replace_version-Post i key now d c found) (λ doc s h. (
            d.version_number + 1,
            record {
              key = key;
              previous = d;
              new_key = h.1.0;
              time = format_timestamp p.iso now;
              was_current = found;
              same_id = refl;
              next_version = refl;
              is_now_current = refl;
              result = rw (sym h.0) h.1.1;
            },
          ))))
        (λ doc. Post-weaken (Post-lift _) (λ v s h. h.0))

  pub append_version-Post :
      (i : CashSettlementInstruction) (c : Documents)
      → Post (λ s. documents p s ≡ c) (λ _ s. Saved p i c (documents p s)) (append_version p i)
  unfolding append_version
  append_version-Post i c =
      Post-bind (λ _ s. documents p s ≡ c) _ _ (Post-Frame c (clock-Frame p))
        (λ now.
          Post-bind (λ r s. (documents p s ≡ c) × (first (is_current i.instruction_id) c ≡ r)) _ _
            (find_one-Post i.instruction_id c)
            (λ r.
              Post-given (λ s h. h.1)
                (λ found.
                  Post-from (λ s h. h.0)
                    (Post-weaken (append_to-Post (record i { updated_at = now }) now c r found)
                      (λ _ s h. (h.0, now, h.1))))))

  pub insert_initial-Post :
      (i : CashSettlementInstruction) (c : Documents)
      → Post (λ s. documents p s ≡ c) (λ _ s. Inserted p i c (documents p s)) (insert_initial p i)
  unfolding insert_initial versioned_instruction_to_document
  insert_initial-Post i c =
      Post-bind (λ _ s. documents p s ≡ c) _ _ (Post-Frame c (clock-Frame p))
        (λ now.
          Post-bind (λ _ s. Inserted p i c (documents p s)) _ _
            (Post-weaken (insert-Post (document_of p i 1 now) c) (λ _ s h. (
              now,
              record {
                new_key = h.0.0;
                was_absent = h.1 refl;
                same_id = refl;
                first_version = refl;
                is_now_current = refl;
                result = h.0.1;
              },
            )))
            (λ _.
              Post-weaken
                (Post-lift (document_to_versioned_instruction p.iso (document_of p i 1 now)))
                (λ v s h. h.0)))

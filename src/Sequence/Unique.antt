-- ===== src/Sequence/Unique.antt =====
-- No id is handed out twice.
use Prim.Native.String.{◌∷◌}
use mathlib.Core.Path.{subst}
use security_event_rag_demo.Base.{
  ℕ, suc, ◌<◌, ◌≤◌, String, ◌≡◌, ◌≢◌, refl, sym, ap, ◌∙◌, List, [], ◌∷◌, All, weaken-All, Distinct,
  arith, Option, none, some,
}
use security_event_rag_demo.Base.Exec.{Result, ok, err, Exec, continue, pure, ◌>>=◌}
use security_event_rag_demo.Base.Exec.Frame.{Frame, ok_inj}
use security_event_rag_demo.Base.Exec.Post.{Post, Post-bind, Post-return}
use security_event_rag_demo.Sequence.Formatting.{
  build_counter_key, build_sequence_id, build_security_event_counter_key,
  build_security_event_sequence_id,
}
use security_event_rag_demo.Sequence.Service.{
  NextSequenceRequest, NextSecurityEventSequenceRequest, Counters, CounterLaws, allocate_next,
  next_sequence, next_security_event_sequence, counter_answer,
}
use security_event_rag_demo.Sequence.Ids.{numbered_id, id_inj}

-- A request of either kind, and the id that it is answered with.
pub data SequenceCall : Type 0 where
  for_entity : NextSequenceRequest → SequenceCall
  for_event : NextSecurityEventSequenceRequest → SequenceCall

module _ (k : Counters) where
  abbrev pub issue : SequenceCall → Exec k.Coll String
  issue (SequenceCall.for_entity r) = do answer ← next_sequence k r; pure answer.sequence_id
  issue (SequenceCall.for_event r) = do
    answer ← next_security_event_sequence k r
    pure answer.sequence_id

  -- The ids that are handed out, the latest last; a request that raises hands out none.
  abbrev keep_id : Result String → List String → List String
  keep_id (ok id) ids = id ∷ ids
  keep_id (err e) ids = ids

  unfoldable pub issued : List SequenceCall → k.Coll → List String
  issued [] c = []
  issued (q ∷ qs) c = keep_id (issue q c).0 (issued qs (issue q c).1)

  module _ (laws : CounterLaws k) where
    -- An id above what the counters show.
    record Above (c : k.Coll) (id : String) : Type 0 where
      pub key : String
      pub number : ℕ
      pub same : id ≡ numbered_id key number
      pub above : laws.seq_of key c < number

    -- What a request that is answered does: its id is the next of its counter.
    record Next (c c' : k.Coll) (id : String) : Type 0 where
      pub key : String
      pub number : ℕ
      pub same : id ≡ numbered_id key number
      pub next : number ≡ suc (laws.seq_of key c)
      pub counted : laws.seq_of key c' ≡ number

    counted_by :
        (key : String) (c : k.Coll) (n : ℕ) (r : Result (Option ℕ))
        → (k.increment key c).0 ≡ r
        → counter_answer k r ≡ ok n
        → (n ≡ suc (laws.seq_of key c)) × (laws.seq_of key (k.increment key c).1 ≡ n)
    counted_by key c n (ok (some m)) e h =
        laws.answers_next key c n (e ∙ ap (λ x. ok (some x)) (ok_inj h))
    counted_by key c n (ok none) e h = absurd (cc h)
    counted_by key c n (err x) e h = absurd (cc h)

    -- An answer is the next number of its counter; what is made of it leaves the counters alone.
    answer-Post :
        {A : Type 0} (key : String) (c : k.Coll) (f : ℕ → Exec k.Coll A) (id : A → String)
        → ((n : ℕ) → Post (λ s. Unit {0}) (λ a s. id a ≡ numbered_id key n) (f n))
        → ((n : ℕ) → Frame (λ s. s) (f n))
        → Post (λ s. s ≡ c) (λ a s. Next c s (id a)) (allocate_next k key >>= f)
    unfolding allocate_next
    answer-Post key c f id made still =
        Post-bind (λ n s. (n ≡ suc (laws.seq_of key c)) × (laws.seq_of key s ≡ n))
          (allocate_next k key) f
          (record {
            at = λ s same n h.
                subst
                  (λ x. (n ≡ suc (laws.seq_of key x)) × (laws.seq_of key (k.increment key s).1 ≡ n))
                  same (counted_by key s n (k.increment key s).0 refl h);
          })
          (λ n. record {
            at = λ s w a h. record {
              key = key;
              number = n;
              same = (made n).at s tt a h;
              next = w.0;
              counted = ap (laws.seq_of key) ((still n).at s) ∙ w.1;
            };
          })

    issue-Post : (q : SequenceCall) (c : k.Coll) → Post (λ s. s ≡ c) (λ id s. Next c s id) (issue q)
    unfolding next_sequence next_security_event_sequence numbered_id build_sequence_id
        build_security_event_sequence_id
    issue-Post (SequenceCall.for_entity r) c =
        Post-bind (λ a s. Next c s a.sequence_id) _ _
          (answer-Post (build_counter_key r.business_date r.owning_lob r.entity_type) c _
            (λ a. a.sequence_id)
            (λ n. record { at = λ s h a e. ap (λ x. x.sequence_id) (sym (ok_inj e)) })
            (λ n. record { at = λ s. refl }))
          (λ a. Post-return a.sequence_id (λ s h. h))
    issue-Post (SequenceCall.for_event r) c =
        Post-bind (λ a s. Next c s a.sequence_id) _ _
          (answer-Post (build_security_event_counter_key r.resource_id) c _ (λ a. a.sequence_id)
            (λ n. record { at = λ s h a e. ap (λ x. x.sequence_id) (sym (ok_inj e)) })
            (λ n. record { at = λ s. refl }))
          (λ a. Post-return a.sequence_id (λ s h. h))

    -- No counter goes down.
    Grows : {A : Type 0} → Exec k.Coll A → Type 0
    Grows m = (key : String) (s : k.Coll) → laws.seq_of key s ≤ laws.seq_of key (m s).1

    grown :
        {A B : Type 0} (key : String) (n : ℕ) (r : Result A) (f : A → Exec k.Coll B) (t : k.Coll)
        → ((a : A) → Frame (λ s. s) (f a))
        → n ≤ laws.seq_of key t
        → n ≤ laws.seq_of key (continue r f t).1
    grown key n (ok a) f t kf h = subst (λ x. n ≤ laws.seq_of key x) (sym ((kf a).at t)) h
    grown key n (err e) f t kf h = h

    bind-Grows :
        {A B : Type 0} (m : Exec k.Coll A) (f : A → Exec k.Coll B)
        → Grows m
        → ((a : A) → Frame (λ s. s) (f a))
        → Grows (m >>= f)
    unfolding Grows
    bind-Grows m f km kf key s = grown key (laws.seq_of key s) (m s).0 f (m s).1 kf (km key s)

    allocate_next-Grows : (key : String) → Grows (allocate_next k key)
    unfolding Grows allocate_next
    allocate_next-Grows key other s = laws.never_down key other s

    issue-Grows : (q : SequenceCall) → Grows (issue q)
    unfolding next_sequence next_security_event_sequence
    issue-Grows (SequenceCall.for_entity r) =
        bind-Grows _ _
          (bind-Grows _ _
            (allocate_next-Grows (build_counter_key r.business_date r.owning_lob r.entity_type))
            (λ n. record { at = λ s. refl }))
          (λ a. record { at = λ s. refl })
    issue-Grows (SequenceCall.for_event r) =
        bind-Grows _ _
          (bind-Grows _ _ (allocate_next-Grows (build_security_event_counter_key r.resource_id))
            (λ n. record { at = λ s. refl }))
          (λ a. record { at = λ s. refl })

    later_Above :
        (q : SequenceCall) (c : k.Coll) (id : String) → Above (issue q c).1 id → Above c id
    unfolding Grows
    later_Above q c id w =
        let bounded : laws.seq_of w.key c ≤ laws.seq_of w.key (issue q c).1 =
          issue-Grows q w.key c in
        record {
          key = w.key;
          number = w.number;
          same = w.same;
          above = omega (arith, w.above, bounded);
        }

    Next-Above : (c c' : k.Coll) (id : String) → Next c c' id → Above c id
    Next-Above c c' id w = record {
      key = w.key;
      number = w.number;
      same = w.same;
      above = omega (arith, w.next);
    }

    differs : (c c' : k.Coll) (id later : String) → Next c c' id → Above c' later → later ≢ id
    differs c c' id later w v e =
        let both = id_inj v.key w.key v.number w.number (sym v.same ∙ e ∙ w.same) in
        omega (arith, v.above, w.counted, both.1, ap (λ x. laws.seq_of x c') both.0)

    keep_Above :
        (c c' : k.Coll) (r : Result String) (ids : List String)
        → ((id : String) → r ≡ ok id → Next c c' id)
        → All (Above c) ids
        → All (Above c) (keep_id r ids)
    keep_Above c c' (ok id) ids w h = (Next-Above c c' id (w id refl), h)
    keep_Above c c' (err e) ids w h = h

    keep_Distinct :
        (c c' : k.Coll) (r : Result String) (ids : List String)
        → ((id : String) → r ≡ ok id → Next c c' id)
        → All (Above c') ids
        → Distinct ids
        → Distinct (keep_id r ids)
    keep_Distinct c c' (ok id) ids w h d =
        (weaken-All ids (λ later v. differs c c' id later (w id refl) v) h, d)
    keep_Distinct c c' (err e) ids w h d = d

    issued-Above : (qs : List SequenceCall) (c : k.Coll) → All (Above c) (issued qs c)
    unfolding issued
    issued-Above [] c = tt
    issued-Above (q ∷ qs) c =
        keep_Above c (issue q c).1 (issue q c).0 (issued qs (issue q c).1)
          (λ id h. (issue-Post q c).at c refl id h)
          (weaken-All (issued qs (issue q c).1) (later_Above q c) (issued-Above qs (issue q c).1))

    -- Over counters with the documented laws, whatever requests the service is sent in whatever order,
    -- no two of the ids that it answers with are the same: neither two of one counter nor two of
    -- different counters, for instructions, payments and security events alike.
    pub issued-Distinct : (qs : List SequenceCall) (c : k.Coll) → Distinct (issued qs c)
    unfolding issued
    issued-Distinct [] c = tt
    issued-Distinct (q ∷ qs) c =
        keep_Distinct c (issue q c).1 (issue q c).0 (issued qs (issue q c).1)
          (λ id h. (issue-Post q c).at c refl id h) (issued-Above qs (issue q c).1)
          (issued-Distinct qs (issue q c).1)

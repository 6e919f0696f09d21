-- ===== src/Examples/SequenceWitnesses.antt =====
-- Counters in memory, and the theorem on ids at concrete requests.
use security_event_rag_demo.Base.{
  ℕ, suc, String, ◌≡◌, sym, some, List, [], ◌∷◌, str_eq, if◌then◌else◌, arith, eq_iff, some_inj,
  Distinct,
}
use security_event_rag_demo.Base.Exec.{ok}
use security_event_rag_demo.Base.Exec.Frame.{ok_inj}
use security_event_rag_demo.Sequence.Formatting.{EntityType}
use security_event_rag_demo.Sequence.Service.{Counters, CounterLaws}
use security_event_rag_demo.Sequence.Unique.{SequenceCall, issued, issued-Distinct}

-- How often a key was incremented.
abbrev times : String → List String → ℕ
times key [] = 0
times key (x ∷ xs) = let rest = times key xs in if str_eq x key then suc rest else rest

abbrev tally : Counters
tally = record { Coll = List String; increment = λ key c. (ok (some (suc (times key c))), key ∷ c) }

tally-laws : CounterLaws tally
tally-laws = record {
  seq_of = times;
  answers_next = λ key c n h.
      let next : n ≡ suc (times key c) = sym (some_inj (ok_inj h)) in
      (next, ground (arith, eq_iff key key, next));
  never_down = λ key other c. ground arith;
}

abbrev calls : List SequenceCall
calls =
    SequenceCall.for_entity (record {
      business_date = record { year = 2026; month = 7; day = 1 };
      owning_lob = "FICC";
      entity_type = EntityType.payment;
    })
    ∷ SequenceCall.for_event (record { resource_id = "20260701-FICC-P-1" })
    ∷ SequenceCall.for_event (record { resource_id = "20260701-FICC-P-1" })
    ∷ []

issued-Distinct_example : Distinct (issued tally calls [])
issued-Distinct_example = issued-Distinct tally tally-laws calls []

-- ===== src/Instruction/Repository/Versions.antt =====
-- Adding a version keeps every instruction's history a chain.
use security_event_rag_demo.Base.{
  ◌≡◌, ◌≢◌, refl, sym, ◌∙◌, inl, inr, String, some, [], ◌∷◌, ◌++◌, arith, select-append,
  update_first, first, str_eq, eq_iff, Bool-cases, if◌then◌else◌,
}
use security_event_rag_demo.Instruction.Storage.{Document}
use security_event_rag_demo.Instruction.Platform.{Stored}
use security_event_rag_demo.Instruction.Repository.{is_current}
use security_event_rag_demo.Instruction.Repository.History.{
  Documents, has_id, history, is_open, IsChain, IsVersioned, close_stored, Appended, Started,
  first-history, history-close, history-close_ne, IsChain-append, IsChain-open,
}

-- What one more document adds to a history.
history_of_one :
    (id other : String) (k : String) (new : Document)
    → new.instruction_id ≡ id
    → history other ((k, new) ∷ []) ≡ (if str_eq id other then (k, new) ∷ [] else [])
history_of_one id other k new e = rw e

-- A history with a current version is a chain.
history-IsChain :
    (id : String) (c : Documents) {e : Stored Document}
    → IsVersioned c
    → first (is_current id) c ≡ some e
    → IsChain 1 (history id c)
history-IsChain id c v f = elim (v id) [
  | inl empty ↦ absurd (ground (arith, first-history id c))
  | inr chain ↦ chain
]

module _ (id : String) (new : Document) (c c' : Documents) (a : Appended id new c c') where
  history_appended :
      (other : String)
      → history other c'
        ≡ history other (update_first (is_current id) (close_stored a.time) c)
          ++ history other ((a.new_key, new) ∷ [])
  history_appended other = rw a.result (select-append (has_id other) _ _)

  history_appended_self :
      history id c'
      ≡ update_first is_open (close_stored a.time) (history id c) ++ ((a.new_key, new) ∷ [])
  history_appended_self = ground (
    arith,
    history_appended id,
    history-close id a.time c,
    history_of_one id id a.new_key new a.same_id,
    eq_iff id id,
  )

  history_appended_ne : (other : String) → other ≢ id → history other c' ≡ history other c
  history_appended_ne other ne = ground (
    arith,
    history_appended other,
    history-close_ne id other a.time c ne,
    history_of_one id other a.new_key new a.same_id,
    eq_iff id other,
    mathlib.Core.List.append-nil (history other c),
  )

  -- The history of the changed instruction is a chain again, and the others are as before.
  pub Appended-IsVersioned : IsVersioned c → IsVersioned c'
  Appended-IsVersioned v other = elim (Bool-cases (str_eq other id)) [
    | inl same ↦
        rw ((eq_iff other id).0 same, history_appended_self)
          (inr (
            IsChain-append 1 a.time (history id c) a.key a.previous (a.new_key, new)
              (history-IsChain id c v a.was_current) (sym (first-history id c) ∙ a.was_current)
              a.next_version (ground (arith, a.is_now_current))))
    | inr differ ↦
        rw (history_appended_ne other (λ e. ground (arith, (eq_iff other id).1 e))) (v other)
  ]

module _ (id : String) (new : Document) (c c' : Documents) (a : Started id new c c') where
  history_started :
      (other : String) → history other c' ≡ history other c ++ history other ((a.new_key, new) ∷ [])
  history_started other = rw a.result (select-append (has_id other) _ _)

  -- An instruction with no current version has no version in such a collection.
  no_history : IsVersioned c → history id c ≡ []
  no_history v = elim (v id) [
    | inl empty ↦ empty
    | inr chain ↦
        absurd (IsChain-open 1 (history id c) chain (sym (first-history id c) ∙ a.was_absent))
  ]

  -- A new instruction starts a chain, and the others are as before.
  pub Started-IsVersioned : IsVersioned c → IsVersioned c'
  Started-IsVersioned v other = elim (Bool-cases (str_eq other id)) [
    | inl same ↦
        rw ((eq_iff other id).0 same, history_started id, no_history v)
          (rw (history_of_one id id a.new_key new a.same_id, (eq_iff id id).1 refl)
            (inr (a.first_version, ground (arith, a.is_now_current))))
    | inr differ ↦
        let one_more : history other c' ≡ history other c = ground (
          arith,
          history_started other,
          history_of_one id other a.new_key new a.same_id,
          eq_iff id other,
          eq_iff other id,
          mathlib.Core.List.append-nil (history other c),
        ) in
        rw one_more (v other)
  ]

-- ===== src/Instruction/Repository.antt =====
-- `InstructionRepository` (instruction-service/src/inst/repository.py).
pub mod History
pub mod Versions
pub mod Appends
use security_event_rag_demo.Base.{
  ℕ, String, ◌<>◌, ◌+◌, ◌==◌, Bool, true, false, not, ◌&&◌, ◌||◌, Option, none, some, List, [], ◌∷◌,
  is_none, str_eq, truthy, or_empty, ltb, leb, if◌then◌else◌,
}
use Prim.Native.String.{compare}
use text.Mathlib.Text.{is_lt}
use security_event_rag_demo.Base.Decimal.{decimal}
use security_event_rag_demo.Base.Exec.{
  Error, Result, ok, err, Exec, pure, raise, lift, raise_if, catch, ◌>>=◌, ◌>>◌,
}
use security_event_rag_demo.Instruction.Enums.{status_value}
use security_event_rag_demo.Instruction.Model.{CashSettlementInstruction}
use security_event_rag_demo.Instruction.Storage.{
  VersionedInstruction, Document, format_timestamp, versioned_instruction_to_document,
  document_to_versioned_instruction,
}
use security_event_rag_demo.Instruction.Platform.{
  Stored, Collection, Platform, State, Action, clock,
}

-- `{"instruction_id": id, "out": None}`
abbrev pub is_current : String → Stored Document → Bool
is_current id (_, d) = str_eq d.instruction_id id && is_none d.out

-- `{"_id": key, "version_number": n, "out": None}`
abbrev pub is_version : String → ℕ → Stored Document → Bool
is_version key n (k, d) = str_eq k key && d.version_number == n && is_none d.out

-- What the two handlers of `append_version` make of a failed write.
abbrev pub conflict : String → Error → Error
conflict message Error.duplicate_key = Error.concurrent_modification message
conflict message (Error.operation_failure true) = Error.concurrent_modification message
conflict message e = e

abbrev pub conflict_message : String → ℕ → String
conflict_message id n =
    "instruction "
    <> id
    <> " was modified concurrently (expected version "
    <> decimal n
    <> "); please retry"

-- The query of `list_current`.
abbrev pub matches_query : Option String → Option String → Document → Bool
matches_query owning_lob status d =
    is_none d.out
    && (not (truthy owning_lob) || str_eq d.owning_lob (or_empty owning_lob))
    && (not (truthy status) || str_eq d.status (or_empty status))

-- `sort("in", -1)` and `sort("version_number", 1)`
abbrev later_in : Document → Document → Bool
later_in a b = is_lt (compare b.in_ a.in_)

abbrev lower_version : Document → Document → Bool
lower_version a b = ltb a.version_number b.version_number

module _ (p : Platform) where
  -- The calls of the `instructions` collection.
  abbrev pub find_one : (Stored Document → Bool) → Action p (Option (Stored Document))
  find_one q s = (ok (p.instructions.find_one q s.instructions), s)

  abbrev pub inserted :
      State p → Result (String × p.instructions.Coll) → Result (Unit {0}) × State p
  inserted s (ok (_, c)) = (ok tt, record s { instructions = c })
  inserted s (err e) = (err e, s)

  abbrev pub insert_one : Document → Action p (Unit {0})
  insert_one d s = inserted s (p.instructions.insert_one d s.instructions)

  abbrev pub updated : State p → Result (ℕ × p.instructions.Coll) → Result ℕ × State p
  updated s (ok (n, c)) = (ok n, record s { instructions = c })
  updated s (err e) = (err e, s)

  abbrev pub update_one : (Stored Document → Bool) → (Document → Document) → Action p ℕ
  update_one q f s = updated s (p.instructions.update_one q f s.instructions)

  abbrev pub read : Document → Action p VersionedInstruction
  read d = lift (document_to_versioned_instruction p.iso d)

  unfoldable pub insert_initial : CashSettlementInstruction → Action p VersionedInstruction
  insert_initial instruction = do
    now ← clock p
    let document = versioned_instruction_to_document p.iso instruction 1 now none
    insert_one document
    read document

  -- Closing the version that was read, and adding the next one.
  unfoldable pub replace_version :
      CashSettlementInstruction → ℕ → Stored Document → Action p Document
  replace_version instruction now (key, current) = do
    let message = conflict_message instruction.instruction_id current.version_number
    modified ←
        update_one (is_version key current.version_number)
          (λ d. record d { out = some (format_timestamp p.iso now) })
    raise_if (not (modified == 1)) (Error.concurrent_modification message)
    let document =
        versioned_instruction_to_document p.iso instruction (current.version_number + 1) now none
    insert_one document
    pure document

  abbrev pub append_to :
      CashSettlementInstruction → ℕ → Option (Stored Document) → Action p VersionedInstruction
  append_to instruction now none = raise (Error.instruction_not_found instruction.instruction_id)
  append_to instruction now (some (key, current)) = do
    document ← catch (replace_version instruction now (key, current)) (λ e.
        raise (conflict (conflict_message instruction.instruction_id current.version_number) e))
    read document

  -- `append_version`: the time is read first, and stored as `updated_at`.
  unfoldable pub append_version : CashSettlementInstruction → Action p VersionedInstruction
  append_version instruction = do
    now ← clock p
    current ← find_one (is_current instruction.instruction_id)
    append_to (record instruction { updated_at = now }) now current

  abbrev pub current_of : String → Option (Stored Document) → Action p VersionedInstruction
  current_of id none = raise (Error.instruction_not_found id)
  current_of id (some (_, d)) = read d

  unfoldable pub get_current : String → Action p VersionedInstruction
  get_current id = do document ← find_one (is_current id); current_of id document

  -- The first document that fails to validate raises.
  unfoldable pub read_all : List Document → Action p (List VersionedInstruction)
  read_all [] = pure []
  read_all (d ∷ rest) = do v ← read d; vs ← read_all rest; pure (v ∷ vs)

  unfoldable pub list_current :
      Option String → Option String → ℕ → Action p (List VersionedInstruction)
  list_current owning_lob status limit s =
      read_all
        (p.instructions.find (matches_query owning_lob status) later_in (some limit) s.instructions)
        s

  unfoldable pub list_versions : String → Action p (List VersionedInstruction)
  list_versions id s =
      read_all
        (p.instructions.find (λ d. str_eq d.instruction_id id) lower_version none s.instructions) s

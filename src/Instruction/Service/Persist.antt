-- ===== src/Instruction/Service/Persist.antt =====
-- Authorization, and saving a version with its security event (service.py).
pub mod Silent
pub mod Allowed
use security_event_rag_demo.Base.{
  ℕ, String, ◌<>◌, Bool, true, false, not, ◌&&◌, Option, none, some, List, [], ◌∷◌, ◌++◌, map,
  select, contains, truthy, is_nonempty, or_default, if◌then◌else◌,
}
use security_event_rag_demo.Base.Text.{strip, split_commas}
use security_event_rag_demo.Base.Exec.{
  Error, Result, ok, err, Exec, pure, raise, lift, gets, ◌>>=◌, ◌>>◌,
}
use security_event_rag_demo.Base.Json.{Value, Fields, field, end, str, texts, optional, object, get}
use security_event_rag_demo.Clients.Authz.{PolicyDecision, Tokens, evaluate_instruction}
use security_event_rag_demo.Instruction.Enums.{LifecycleAction, action_value}
use security_event_rag_demo.Instruction.Subject.{Subject}
use security_event_rag_demo.Instruction.Model.{
  CashSettlementInstruction, to_opa_instruction, to_opa_account,
}
use security_event_rag_demo.Instruction.Authorization.{
  AuthorizationBlock, build_authorization_block, details_with_authorization,
  instruction_resource_context,
}
use security_event_rag_demo.Instruction.SecurityEvent.{SecurityEvent, authorized_action}
use security_event_rag_demo.Instruction.Fact.{InstructionFact, from_instruction}
use security_event_rag_demo.Instruction.Storage.{VersionedInstruction}
use security_event_rag_demo.Instruction.Platform.{
  Platform, Settings, State, Action, clock, external, mongo_transaction,
}
use security_event_rag_demo.Instruction.Repository.{insert_initial, append_version}
use security_event_rag_demo.Instruction.Service.Identity.{ensure_logged_in}
use security_event_rag_demo.Instruction.Service.Events.{
  remote, allocate_event_id, insert_document, publish, publish_instruction_fact, event_source,
  record_authorized_action, record_policy_denial,
}

-- The caller's token and session of a request.
pub record Caller : Type 0 where
  pub bearer_token : Option String
  pub session_id : Option String

-- `settings.security_event_excluded_user_id_set`
unfoldable pub excluded_user_ids : Settings → List String
excluded_user_ids cfg =
    select is_nonempty (map strip (split_commas cfg.security_event_excluded_user_ids))

-- `_should_record_security_event`
unfoldable pub should_record : Settings → Subject → Bool
should_record cfg subject = not (contains (excluded_user_ids cfg) subject.user_id)

-- `subject.model_dump(mode="json")`
unfoldable pub dump_subject : Subject → Fields
dump_subject s = field "user_id" (str s.user_id) (
    field "given_name" (optional s.given_name) (
      field "family_name" (optional s.family_name) (
        field "title" (str s.title) (
          field "lob" (optional s.lob) (
            field "roles" (texts s.roles) (
              field "groups" (texts s.groups) (
                field "supervisor_id" (optional s.supervisor_id) (
                  field "delegated_by" (optional s.delegated_by)
                    (field "delegated_by_roles" (texts s.delegated_by_roles) end)))))))))

module _ (p : Platform) (cfg : Settings) where
  -- `_evaluate_policy`: on behalf of the user if both tokens are there.
  unfoldable pub evaluate_policy :
      LifecycleAction → Subject → CashSettlementInstruction → Caller → Action p PolicyDecision
  unfolding dump_subject
  evaluate_policy action subject instruction caller = do
    ensure_logged_in p cfg
    token ← gets (λ s. s.session_token)
    session ← gets (λ s. s.session_id)
    let delegated = truthy caller.bearer_token && truthy token
    let tokens : Tokens = record {
      service_token = token;
      service_session_id = session;
      user_token = if delegated then caller.bearer_token else none;
      user_session_id = if delegated then caller.session_id else none;
    }
    remote p cfg (
        evaluate_instruction p.post cfg.authorization_service_url (action_value action)
          (to_opa_instruction p.iso.isoformat instruction) (to_opa_account instruction) tokens
          (if delegated then none else some (dump_subject subject)))

  -- The denial branch of `_authorize`: the event, if it is wanted, and then the exception.
  unfoldable pub deny :
      Bool
      → LifecycleAction
      → Subject
      → CashSettlementInstruction
      → Option Fields
      → AuthorizationBlock
      → Action p AuthorizationBlock
  unfolding should_record
  deny record_event action subject instruction details authorization = do
    (if record_event && should_record cfg subject
        then record_policy_denial p cfg action subject instruction authorization.summary
            (some (details_with_authorization details authorization))
        else pure tt)
    raise (Error.permission_error authorization.summary)

  unfoldable pub authorize :
      LifecycleAction
      → Subject
      → CashSettlementInstruction
      → Caller
      → Bool
      → Option Fields
      → Action p AuthorizationBlock
  unfolding deny
  authorize action subject instruction caller record_event details = do
    decision ← evaluate_policy action subject instruction caller
    let authorization =
        build_authorization_block decision subject action (instruction_resource_context instruction)
    if decision.allowed
        then pure authorization
        else deny record_event action subject instruction details authorization

  -- `_record_authorized_action`
  unfoldable pub record_if_wanted :
      LifecycleAction
      → Subject
      → CashSettlementInstruction
      → Option ℕ
      → Option Fields
      → Action p (Unit {0})
  record_if_wanted action subject instruction version_number details =
      if should_record cfg subject
      then record_authorized_action p cfg action subject instruction version_number details
      else pure tt

  -- `_record_event`
  unfoldable pub record_event :
      CashSettlementInstruction
      → LifecycleAction
      → Subject
      → Option Fields
      → Action p CashSettlementInstruction
  record_event instruction action subject details = do
    event_id ← external p p.uuid4
    now ← clock p
    pure (record instruction {
      lifecycle_events =
          instruction.lifecycle_events
          ++ (record {
            event_id = event_id;
            action = action_value action;
            actor_user_id = subject.user_id;
            timestamp = now;
            details = or_default details end;
          }
              ∷ []);
    })

  unfoldable pub save_version : Bool → CashSettlementInstruction → Action p VersionedInstruction
  save_version initial instruction =
      if initial then insert_initial p instruction else append_version p instruction

  -- The block of the transaction: the version, and its event if one is wanted.
  unfoldable pub save_and_record :
      CashSettlementInstruction
      → LifecycleAction
      → Subject
      → Option Fields
      → Bool
      → Action p (VersionedInstruction × Option SecurityEvent)
  unfolding save_version
  save_and_record instruction action subject details initial = do
    saved ← save_version initial instruction
    if should_record cfg subject
        then (do
          event_id ← allocate_event_id p cfg saved.instruction.instruction_id
          now ← clock p
          let event =
              authorized_action (event_source p cfg) action subject saved.instruction event_id
                (some saved.version_number) details now
          insert_document p cfg event
          pure (saved, some event))
        else pure (saved, none)

  -- After the commit: the event and the fact go to Kafka.
  unfoldable pub announce :
      VersionedInstruction
      → LifecycleAction
      → Subject
      → Option Fields
      → Option SecurityEvent
      → Action p (Unit {0})
  announce saved action subject details none = pure tt
  announce saved action subject details (some event) = do
    publish p cfg event
    fact_id ← external p p.uuid4
    now ← clock p
    fact ← lift (
        from_instruction p.json_datetime action subject saved.instruction saved.version_number
          (get "authorization" (or_default details end)) fact_id now)
    publish_instruction_fact p cfg fact

  -- `_save_instruction_with_security_event`
  unfoldable pub save_instruction_with_security_event :
      CashSettlementInstruction
      → LifecycleAction
      → Subject
      → Option Fields
      → Bool
      → Action p VersionedInstruction
  unfolding save_and_record announce
  save_instruction_with_security_event instruction action subject details initial = do
    done ← mongo_transaction p (save_and_record instruction action subject details initial)
    announce done.0 action subject details done.1
    pure done.0

  -- `_persist_new_version` with `skip_authorize=True`.
  unfoldable pub persist_authorized :
      CashSettlementInstruction
      → LifecycleAction
      → Subject
      → Option Fields
      → Action p VersionedInstruction
  persist_authorized instruction action subject details = do
    recorded ← record_event instruction action subject details
    save_instruction_with_security_event recorded action subject details false

  -- `_persist_new_version` without it.
  unfoldable pub persist_new_version :
      CashSettlementInstruction
      → LifecycleAction
      → Subject
      → Option Fields
      → Caller
      → Action p VersionedInstruction
  persist_new_version instruction action subject details caller = do
    authorization ← authorize action subject instruction caller true details
    persist_authorized instruction action subject
        (some (details_with_authorization details authorization))

-- ===== src/Examples/Witnesses.antt =====
-- The theorems at concrete inputs, and the service run on them.
use security_event_rag_demo.Base.{
  String, ◌≡◌, refl, ◌↔◌, ◌⊎◌, inl, inr, Bool, true, false, none, some, List, [], ◌∷◌, str_eq,
  Bool-cases, any, contains,
}
use security_event_rag_demo.Base.Exec.{Error, Result, ok, err}
use security_event_rag_demo.Base.Json.{Fields, field, str, object, get, end}
use security_event_rag_demo.Clients.Authz.{
  PolicyDecision, Tokens, decision_of, evaluate_instruction, evaluate_payment, post_decision,
  read_decision,
}
use security_event_rag_demo.Clients.Authz.FailClosed.{
  Request, evaluate_instruction-fails_closed, evaluate_payment-fails_closed,
}
use security_event_rag_demo.Clients.Sequence.{next_security_event_id}
use security_event_rag_demo.Clients.Http.{rstrip_slash, text_list}
use security_event_rag_demo.Instruction.Enums.{LifecycleAction}
use security_event_rag_demo.Instruction.Lob.{codes, is_valid_owning_lob}
use security_event_rag_demo.Instruction.Lob.Grammar.{Lob, is_valid_owning_lob-ok}
use security_event_rag_demo.Instruction.Parties.{
  check_owning_lob, check_funding_account, check_party, check_account, check_branch, check_user,
}
use security_event_rag_demo.Instruction.Subject.{user_reference}
use security_event_rag_demo.Instruction.Service.Build.{draft_of}
use security_event_rag_demo.Instruction.Model.{
  check_fields, agent_requires_bicfi, international_agents, validate_route_rules, model_validate,
}
use security_event_rag_demo.Instruction.Model.Rules.{IsRoute, validate_route_rules-ok}
use security_event_rag_demo.Base.Json.Merge.{HasUniqueKeys, has_key}
use security_event_rag_demo.Instruction.SecurityEvent.{authorized_action}
use security_event_rag_demo.Instruction.SecurityEvent.Reason.{authorized_action-reason}
use security_event_rag_demo.Instruction.Authorization.{
  details_with_authorization, primary_violation, first_or, AuthorizationBlock,
  build_authorization_block, instruction_resource_context,
}
use security_event_rag_demo.Instruction.Authorization.Summary.{is_alert_code, primary_violation_lem}
use security_event_rag_demo.Instruction.Storage.{
  parse_timestamp, versioned_instruction_to_document, document_to_versioned_instruction,
  VersionedInstruction,
}
use security_event_rag_demo.Instruction.Platform.{State}
use security_event_rag_demo.Instruction.Repository.{get_current, append_version, replace_version}
use security_event_rag_demo.Instruction.Repository.Appends.{documents}
use security_event_rag_demo.Instruction.Service.Persist.{
  authorize, evaluate_policy, persist_authorized, record_event,
  save_instruction_with_security_event, save_and_record, save_version, should_record,
  record_if_wanted, excluded_user_ids, announce,
}
use security_event_rag_demo.Instruction.Service.Events.{
  event_source, record_authorized_action, allocate_event_id, insert_document, publish,
  publish_instruction_fact,
}
use security_event_rag_demo.Instruction.Fact.{
  from_instruction, snapshot, validate_instruction_snapshot,
}
use security_event_rag_demo.Instruction.Service.Identity.{ensure_logged_in}
use security_event_rag_demo.Base.Text.{replace_z, split_commas, strip}
use security_event_rag_demo.Instruction.Service.Persist.Allowed.{
  Permission, Granted, authorize-permitted,
}
use security_event_rag_demo.Instruction.Service.Lifecycle.{Moved, HasOwnIds}
use security_event_rag_demo.Instruction.Service.Operations.{create, submit, submit_from}
use security_event_rag_demo.Instruction.Service.Queries.{visible}
use security_event_rag_demo.Instruction.Service.Queries.Visible.{Listing, visible-Listing}
use security_event_rag_demo.Instruction.Service.Response.{InstructionResponse, to_response}
use security_event_rag_demo.Instruction.Service.Calls.{Call, perform}
use security_event_rag_demo.Instruction.Service.Calls.Histories.{
  IsWellFormed, Begun, call_moves, create_starts, perform-IsWellFormed, create-IsWellFormed,
}
use security_event_rag_demo.Instruction.Service.Calls.Refusals.{call_refused}
use security_event_rag_demo.Examples.Memory.{key, ticks, ticking}
use security_event_rag_demo.Examples.Data.{
  alice, wire, draft, world, world-laws, settings, nobody, first_document, holding,
}

abbrev is_ok : {A : Type 0} → Result A → Bool
is_ok (ok a) = true
is_ok (err e) = false

abbrev pub start : State world
start = holding (first_document ∷ [])

start-HasOwnIds : HasOwnIds (documents world start)
unfolding versioned_instruction_to_document draft_of
start-HasOwnIds = (refl, tt)

start-IsWellFormed : IsWellFormed (documents world start)
unfolding versioned_instruction_to_document draft_of
start-IsWellFormed = (
  λ id. elim (Bool-cases (str_eq "I-1" id)) [
    | inl same ↦ rw same (inr (refl, refl))
    | inr differs ↦ rw differs (inl refl)
  ],
  (refl, tt),
)

-- Submitting a draft.
abbrev submitted_state : State world
submitted_state = (perform world settings Call.submit_call "I-1" alice nobody start).1

call_moves_example :
    (Granted world settings LifecycleAction.submit alice nobody "I-1"
      × Moved LifecycleAction.submit "I-1"
          (documents world start)
          (documents world submitted_state))
    ⊎ (((e : Error) × ((perform world settings Call.submit_call "I-1" alice nobody start).0
            ≡ err e))
        × (documents world submitted_state ≡ documents world start))
call_moves_example =
    call_moves world settings world-laws Call.submit_call "I-1" alice nobody start refl
      start-HasOwnIds

perform-IsWellFormed_example : IsWellFormed (documents world submitted_state)
perform-IsWellFormed_example =
    perform-IsWellFormed world settings world-laws Call.submit_call "I-1" alice nobody start refl
      start-IsWellFormed

create_starts_example :
    Begun world settings world-laws alice nobody []
      (documents world (create world settings wire alice nobody (holding [])).1)
    ⊎ (((e : Error) × ((create world settings wire alice nobody (holding [])).0 ≡ err e))
        × (documents world (create world settings wire alice nobody (holding [])).1 ≡ []))
create_starts_example = create_starts world settings world-laws wire alice nobody (holding [])

create-IsWellFormed_example :
    IsWellFormed (documents world (create world settings wire alice nobody (holding [])).1)
create-IsWellFormed_example =
    create-IsWellFormed world settings world-laws wire alice nobody (holding [])
      ((λ id. inl refl), tt)

-- The version that is read in the start.
abbrev pub draft_version : VersionedInstruction
draft_version = record { instruction = draft; version_number = 1; valid_in = 1; valid_out = none }

pub reads_draft : (get_current world "I-1" start).0 ≡ ok draft_version
unfolding get_current document_to_versioned_instruction versioned_instruction_to_document
    model_validate validate_route_rules check_fields check_owning_lob check_funding_account
    check_party check_account check_branch check_user is_valid_owning_lob parse_timestamp
    agent_requires_bicfi international_agents key ticks draft_of user_reference replace_z
reads_draft = refl

call_refused_example :
    ((message : String) × ((perform world settings Call.approve_call "I-1" alice nobody start).0
        ≡ err (Error.invalid_state_transition message)))
    × (documents world (perform world settings Call.approve_call "I-1" alice nobody start).1
        ≡ documents world start)
unfolding draft_of
call_refused_example =
    call_refused world settings Call.approve_call "I-1" alice nobody start draft_version reads_draft
      refl

-- A call for which the policy allows everything.
abbrev permitted : AuthorizationBlock
permitted =
    build_authorization_block
      (record { allowed = true; allow_basis = []; violations = []; is_alert = false }) alice
      LifecycleAction.submit (instruction_resource_context draft)

authorize_permits :
    (authorize world settings LifecycleAction.submit alice draft nobody true none start).0
    ≡ ok permitted
unfolding authorize evaluate_policy evaluate_instruction post_decision decision_of text_list
    read_decision rstrip_slash ensure_logged_in get
authorize_permits = refl

authorize-permitted_example :
    Permission world settings LifecycleAction.submit alice draft nobody start permitted
authorize-permitted_example =
    authorize-permitted world settings LifecycleAction.submit alice draft nobody true none start
      permitted authorize_permits

abbrev no_tokens : Tokens
no_tokens = record {
  service_token = none;
  service_session_id = none;
  user_token = none;
  user_session_id = none;
}

abbrev allowing : PolicyDecision
allowing = record { allowed = true; allow_basis = []; violations = []; is_alert = false }

instruction_allowed :
    (evaluate_instruction world.post "http://authz" "SUBMIT" end end no_tokens (some end) 3).0
    ≡ ok allowing
unfolding evaluate_instruction post_decision read_decision decision_of text_list get
instruction_allowed = refl

evaluate_instruction-fails_closed_example :
    Request world.post "http://authz" "/api/v1/authorization/instructions/evaluate"
      (field "action"
        (str "SUBMIT")
        (field "instruction" (object end) (field "account" (object end) end)))
      no_tokens
      (some end)
      3
evaluate_instruction-fails_closed_example =
    evaluate_instruction-fails_closed world.post "http://authz" "SUBMIT" end end no_tokens
      (some end) 3 allowing instruction_allowed refl

payment_allowed :
    (evaluate_payment world.post "http://authz" "SUBMIT" end "" "" no_tokens (some end) 3).0
    ≡ ok allowing
unfolding evaluate_payment post_decision read_decision decision_of text_list get
payment_allowed = refl

evaluate_payment-fails_closed_example :
    Request world.post "http://authz" "/api/v1/authorization/payments/evaluate"
      (field "action" (str "SUBMIT") (
        field "payment"
          (object end)
          (field "instruction_end_date" (str "") (field "instruction_status" (str "") end))))
      no_tokens
      (some end)
      3
evaluate_payment-fails_closed_example =
    evaluate_payment-fails_closed world.post "http://authz" "SUBMIT" end "" "" no_tokens (some end)
      3 allowing payment_allowed refl

validate_route_rules-ok_example :
    (validate_route_rules draft ≡ ok tt)
    ↔ ((draft.funding_account.owning_lob ≡ draft.owning_lob) × IsRoute draft draft.wire_scope)
validate_route_rules-ok_example = validate_route_rules-ok draft

draft_validates : model_validate draft ≡ ok draft
unfolding model_validate validate_route_rules check_fields check_owning_lob check_funding_account
    check_party check_account check_branch check_user is_valid_owning_lob agent_requires_bicfi
    international_agents draft_of user_reference
draft_validates = refl

abbrev codes_found : List String
codes_found = "NOT_OWNER" ∷ "ALERT_SELF_APPROVAL" ∷ []

primary_violation_lem_example :
    (any is_alert_code codes_found ≡ true
      → (is_alert_code (primary_violation codes_found) ≡ true)
        × (contains codes_found (primary_violation codes_found) ≡ true))
    × (any is_alert_code codes_found ≡ false
        → primary_violation codes_found ≡ first_or codes_found "POLICY_DENIED")
primary_violation_lem_example = primary_violation_lem codes_found

abbrev listed : List InstructionResponse
listed = to_response ticking draft_version ∷ []

lists_draft : (visible world settings false alice nobody (draft_version ∷ []) start).0 ≡ ok listed
unfolding visible authorize evaluate_policy evaluate_instruction decision_of text_list post_decision
    read_decision rstrip_slash ensure_logged_in get record_if_wanted record_authorized_action
    should_record excluded_user_ids allocate_event_id next_security_event_id insert_document publish
    contains split_commas strip draft_of
lists_draft = refl

visible-Listing_example : Listing world settings false alice nobody (draft_version ∷ []) listed
visible-Listing_example =
    visible-Listing world settings false alice nobody (draft_version ∷ []) start listed lists_draft

is_valid_owning_lob-ok_example :
    (is_valid_owning_lob "DESK_RATES" ≡ true) ↔ Lob (codes "DESK_RATES")
is_valid_owning_lob-ok_example = is_valid_owning_lob-ok "DESK_RATES"

abbrev reason_given : Fields
reason_given = field "reason" (str "wrong account") end

reason_given-HasUniqueKeys : HasUniqueKeys reason_given
unfolding HasUniqueKeys has_key
reason_given-HasUniqueKeys = (refl, tt)

authorized_action-reason_example :
    (authorized_action
      (event_source world settings)
      LifecycleAction.reject
      alice
      draft
      "E-1"
      none
      (some (
        details_with_authorization (some reason_given) (
          build_authorization_block allowing alice LifecycleAction.reject
            (instruction_resource_context draft))))
      9).event.reason
    ≡ some
        (build_authorization_block allowing alice LifecycleAction.reject
          (instruction_resource_context draft)).summary
authorized_action-reason_example =
    authorized_action-reason (event_source world settings) allowing alice LifecycleAction.reject
      (instruction_resource_context draft) draft "E-1" none (some reason_given) 9
      reason_given-HasUniqueKeys

-- The service run on these data.
submit_returns : is_ok (perform world settings Call.submit_call "I-1" alice nobody start).0 ≡ true
unfolding submit submit_from get_current document_to_versioned_instruction
    versioned_instruction_to_document model_validate validate_route_rules check_fields
    check_owning_lob check_funding_account check_party check_account check_branch check_user
    is_valid_owning_lob parse_timestamp agent_requires_bicfi international_agents key ticks draft_of
    user_reference replace_z authorize evaluate_policy evaluate_instruction decision_of text_list
    post_decision read_decision rstrip_slash ensure_logged_in get persist_authorized record_event
    save_instruction_with_security_event save_and_record save_version append_version replace_version
    should_record excluded_user_ids allocate_event_id insert_document announce publish
    from_instruction publish_instruction_fact next_security_event_id contains split_commas strip
    validate_instruction_snapshot snapshot
submit_returns = refl

-- A newline at the end of a LOB passes the pattern.
newline_passes : is_valid_owning_lob "FICC\n" ≡ true
unfolding is_valid_owning_lob
newline_passes = refl

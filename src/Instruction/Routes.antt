-- ===== src/Instruction/Routes.antt =====
-- The requests on instructions as HTTP sees them (instruction-service/src/inst/routes.py).
pub mod Conflicts
use security_event_rag_demo.Base.{
  ℕ, String, Bool, false, Option, none, some, List, ◌&&◌, truthy, or_empty, starts_with,
  if◌then◌else◌,
}
use security_event_rag_demo.Base.Text.{lower, after_space, strip}
use security_event_rag_demo.Base.Exec.{Error, raise, catch}
use security_event_rag_demo.Instruction.Subject.{
  Subject, CreateInstructionRequest, RejectInstructionRequest, UseInstructionRequest,
}
use security_event_rag_demo.Instruction.Platform.{Platform, Settings, Action}
use security_event_rag_demo.Instruction.Service.Response.{InstructionResponse}
use security_event_rag_demo.Instruction.Service.Persist.{Caller}
use security_event_rag_demo.Instruction.Service.Operations.{create}
use security_event_rag_demo.Instruction.Service.Queries.{
  get_instruction, get_versions, list_instructions,
}
use security_event_rag_demo.Instruction.Service.Calls.{Call, perform}

-- The lifecycle routes; updates and deletions have none.
pub data LifecycleRoute : Type 0 where
  submit_route : LifecycleRoute
  approve_route : LifecycleRoute
  reject_route : RejectInstructionRequest → LifecycleRoute
  suspend_route : LifecycleRoute
  reactivate_route : LifecycleRoute
  use_route : UseInstructionRequest → LifecycleRoute

abbrev pub call_of : LifecycleRoute → Call
call_of LifecycleRoute.submit_route = Call.submit_call
call_of LifecycleRoute.approve_route = Call.approve_call
call_of (LifecycleRoute.reject_route r) = Call.reject_call r
call_of LifecycleRoute.suspend_route = Call.suspend_call
call_of LifecycleRoute.reactivate_route = Call.reactivate_call
call_of (LifecycleRoute.use_route r) = Call.use_call r

-- `_bearer_token`
unfoldable pub request_bearer : Option String → Option String
request_bearer a =
    if truthy a && starts_with (lower (or_empty a)) "bearer "
    then some (strip (after_space (or_empty a)))
    else none

unfoldable pub request_caller : Option String → Option String → Caller
unfolding request_bearer
request_caller authorization x_session_id = record {
  bearer_token = request_bearer authorization;
  session_id = x_session_id;
}

-- The `except` clauses of the routes; what they do not name goes on. pydantic's `ValidationError` is
-- a `ValueError`.
unfoldable pub read_error : Error → Error
read_error (Error.instruction_not_found m) = Error.http_exception 404 "instruction not found"
read_error (Error.permission_error m) = Error.http_exception 403 m
read_error e = e

unfoldable pub lifecycle_error : Error → Error
unfolding read_error
lifecycle_error (Error.invalid_state_transition m) = Error.http_exception 409 m
lifecycle_error (Error.concurrent_modification m) = Error.http_exception 409 m
lifecycle_error e = read_error e

unfoldable pub creation_error : Error → Error
creation_error (Error.permission_error m) = Error.http_exception 403 m
creation_error (Error.value_error m) = Error.http_exception 400 m
creation_error (Error.validation_error m) = Error.http_exception 400 m
creation_error (Error.runtime_error m) = Error.http_exception 502 m
creation_error e = e

module _ (p : Platform) (cfg : Settings) where
  unfoldable pub create_instruction_route :
      CreateInstructionRequest
      → Subject
      → Option String
      → Option String
      → Action p InstructionResponse
  unfolding creation_error request_caller
  create_instruction_route r u authorization session =
      catch (create p cfg r u (request_caller authorization session))
        (λ e. raise (creation_error e))

  unfoldable pub get_instruction_route :
      String → Subject → Option String → Option String → Action p InstructionResponse
  unfolding read_error request_caller
  get_instruction_route id u authorization session =
      catch (get_instruction p cfg id u (request_caller authorization session))
        (λ e. raise (read_error e))

  unfoldable pub get_versions_route :
      String → Subject → Option String → Option String → Action p (List InstructionResponse)
  unfolding read_error request_caller
  get_versions_route id u authorization session =
      catch (get_versions p cfg id u (request_caller authorization session))
        (λ e. raise (read_error e))

  -- `_lifecycle_action`, with the handler of its route.
  unfoldable pub lifecycle_action :
      LifecycleRoute
      → String
      → Subject
      → Option String
      → Option String
      → Action p InstructionResponse
  unfolding lifecycle_error request_caller
  lifecycle_action route id u authorization session =
      catch (perform p cfg (call_of route) id u (request_caller authorization session))
        (λ e. raise (lifecycle_error e))

  unfoldable pub list_instructions_route :
      Option String
      → Option String
      → ℕ
      → Subject
      → Option String
      → Option String
      → Action p (List InstructionResponse)
  unfolding request_caller
  list_instructions_route owning_lob status limit u authorization session =
      list_instructions p cfg owning_lob status limit false u (request_caller authorization session)

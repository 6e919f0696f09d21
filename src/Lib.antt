-- ===== src/Lib.antt =====
-- The instruction, payment, sequence and authorization services of a security-event demonstration,
-- and the clients that they share.
--
-- The program is a set of Python services. The instruction service keeps cash settlement
-- instructions as versioned documents in MongoDB. A request reads the current version, checks the
-- status, asks the authorization service for a policy decision, and saves the next version together
-- with a security event in one transaction; afterwards the event and a fact go to Kafka. The payment
-- service keeps payments, each against an instruction that it reads from the instruction service; a
-- request replaces the payment's document, and no transaction joins it to the security event. Ids
-- come from the sequence service, which keeps one counter for each key.
--
-- Which file models what:
--   Base: tests, lists, texts, JSON values, decimals; Base/Exec is the state-and-error monad of
--     every method, with the rules for what an action leaves alone (Frame), what holds after it
--     returns (Post) and what it changes at most once (Run).
--   Clients: shared/authz_client/src/authz_client/client.py (Clients/Authz: evaluate_instruction,
--     evaluate_payment, _post as post_decision and read_decision) and
--     shared/sequence_client/src/sequence_client/client.py (Clients/Sequence).
--   Instruction/Enums, Lob, Parties, Subject, Model: instruction-service/src/inst/models/enums.py,
--     instruction.py and api.py. A pydantic model is a record, and its constraints are check_…
--     functions; building a value is model_validate.
--   Instruction/Authorization: authorization.py of instruction-service/src/inst.
--   Instruction/SecurityEvent, Fact: models/security_event.py, models/instruction_fact.py and
--     models/fact_validation.py.
--   Instruction/Storage, Repository: storage.py and repository.py. The filters of the queries are
--     Boolean functions. Repository/History describes version histories.
--   Instruction/Platform: what the service calls outside (MongoDB, Kafka, HTTP, the clock) as
--     parameters, the service's state, and mongo_transaction of database.py.
--   Instruction/Routes: routes.py, the answers and their status codes.
--   Instruction/Service: service_identity.py (Identity), security_event_repository.py and
--     kafka_publisher.py (Events), and service.py: Response, Build, Persist, Changes, Operations,
--     Queries.
--     An operation f is the read of the current version and a function f_from for the rest; the
--     method use is use_instruction, get is get_instruction, list is list_instructions.
--     Calls puts the operations together, as routes.py dispatches them.
--   Payment/Enums, Model, Authorization, SecurityEvent, Fact: payment-service/src/ps/models,
--     authorization.py. What is word for word the instruction service's (user references, sources
--     and contexts of events, the primary violation) is taken from there.
--   Payment/Platform, Identity, IlmClient, Repository, Events: the calls outside,
--     service_identity.py, ilm_client.py, repository.py, security_event_repository.py and
--     kafka_publisher.py of payment-service/src/ps.
--   Payment/Validity: the two checks of the backing instruction in service.py.
--   Payment/Changes, Service: service.py. Service/Record has the authorization and what is recorded
--     of a success, Operations create, submit, approve, reject and _cancel (as create_payment,
--     submit_payment and so on), Queries get and list.
--   Payment/Requests: the requests on a stored payment, as routes.py dispatches them.
--   Payment/Access: dependencies.py and auth.py, the subject of a request from its token or its
--     headers. PyJWT, HTTP, base64 and JSON are parameters (AccessPlatform).
--   Payment/Routes: routes.py, the answers and their status codes. An HTTPException is the
--     constructor http_exception of Error.
--   Authz: authorization-service/src/authz: models.py (Records), user_directory.py and directory.py
--     (Directory), opa.py (Opa), eligibility.py for payments (Eligibility). The policy engine is a
--     parameter (OpaPlatform), and so are the clock and the users of the seed file.
--   Sequence/Formatting, Service: formatting.py, models.py, repository.py and service.py of
--     sequence-service/src/seq.
--   Examples: collections in memory that satisfy the laws, and the theorems at concrete inputs.
--
-- Bounds: timestamps are microseconds in ℕ, and versions and counters are ℕ, as Python integers do
-- not overflow. The only loop with a bound is the login, which makes at most three attempts, as
-- the code does. All functions are total; only the decimal text of a number n is made with fuel,
-- n + 1, which is enough since each step divides by ten. Amounts are floats, kept as their repr.
--
-- Assumptions: RepositoryLaws states what is documented of the instructions collection (find_one,
-- insert_one, update_one, unique _ids, the unique index on the current version). PaymentLaws states the same of the payments
-- collection and of replace_one. CounterLaws states that find_one_and_update with $inc and upsert
-- answers with the next number of its counter, and that no counter goes down. The entries of an
-- instruction that the payment service reads are texts and a version number, as InstructionResponse
-- declares them.
--
-- A commit may be done, rolled back, or end with an unknown result, applied or not.
--
-- Not modelled: the JSON form of a stored instruction (pydantic's dump and its parsing), the HTTP pages, the instruction service's authentication, the key set of the token
-- issuer (`_jwks_client`), the eligible approvers but for the authorization service's list for a
-- payment, that service's routes, the indexer and chat services, the Rego policies, telemetry, and
-- the ISO 20022 types that no operation reads. Requests run one after the other; what other requests
-- do between a read and a write is not modelled.
pub mod Base
pub mod Clients
pub mod Instruction
pub mod Payment
pub mod Sequence
pub mod Authz
pub mod Examples

-- ===== src/Clients/Sequence.antt =====
-- `SequenceClient` (shared/sequence_client/src/sequence_client/client.py).
use security_event_rag_demo.Base.{String, ◌<>◌, Option, none, some, leb, if◌then◌else◌}
use security_event_rag_demo.Base.Decimal.{decimal}
use security_event_rag_demo.Base.Exec.{Error, Result, ok, err, Exec}
use security_event_rag_demo.Base.Json.{Value, Fields, field, end, str, get}
use security_event_rag_demo.Clients.Http.{HttpResponse, Transport, rstrip_slash, truth}

-- `str(value)`; `other` is `str` of the values that are no texts.
abbrev as_text : (Value → String) → Value → String
as_text other (str s) = s
as_text other v = other v

-- `str(sequence_id)`, unless it is missing or false.
id_of : (Value → String) → Value → Result String
id_of other v =
    if truth v
    then ok (as_text other v)
    else err (Error.sequence_client_error "sequence-service response missing sequence_id")

unfoldable pub read_sequence_id : (Value → String) → String → Option HttpResponse → Result String
unfolding id_of
read_sequence_id other base none =
    err (Error.sequence_service_unavailable ("sequence-service unreachable at " <> base))
read_sequence_id other base (some r) =
    if leb 500 r.status_code
    then err (
        Error.sequence_service_unavailable
          ("sequence-service error (" <> decimal r.status_code <> "): " <> r.text))
    else if leb 400 r.status_code
    then err (
        Error.sequence_client_error
          ("sequence-service rejected request (" <> decimal r.status_code <> "): " <> r.text))
    else id_of other (get "sequence_id" r.body)

module _ {O : Type 0} (post : Transport O) (python_str : Value → String) (base_url : String) where
  post_sequence : String → Fields → Exec O String
  unfolding read_sequence_id
  post_sequence path payload o =
      let base = rstrip_slash base_url in
      let answer = post (base <> path) end payload o in
      (read_sequence_id python_str base answer.0, answer.1)

  -- `next_sequence_id`, of a date in its ISO form.
  unfoldable pub next_sequence_id : String → String → String → Exec O String
  unfolding post_sequence
  next_sequence_id business_date owning_lob entity_type = post_sequence "/api/v1/sequences/next" (
      field "business_date" (str business_date)
        (field "owning_lob" (str owning_lob) (field "entity_type" (str entity_type) end)))

  abbrev pub next_instruction_id : String → String → Exec O String
  next_instruction_id business_date owning_lob =
      next_sequence_id business_date owning_lob "INSTRUCTION"

  abbrev pub next_payment_id : String → String → Exec O String
  next_payment_id business_date owning_lob = next_sequence_id business_date owning_lob "PAYMENT"

  unfoldable pub next_security_event_id : String → Exec O String
  unfolding post_sequence
  next_security_event_id resource_id =
      post_sequence "/api/v1/sequences/security-events/next"
        (field "resource_id" (str resource_id) end)

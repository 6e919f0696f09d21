-- ===== src/Payment/Access/Metadata.antt =====
-- A subject from the metadata of its account (payment-service/src/ps/auth.py).
use security_event_rag_demo.Base.{
  String, Bool, not, Option, none, some, List, [], ◌∷◌, truthy, or_empty, or_default, if◌then◌else◌,
}
use security_event_rag_demo.Base.Text.{stripped_parts}
use security_event_rag_demo.Base.Exec.{Error, Result, ok, err}
use security_event_rag_demo.Base.Json.{
  Value, Fields, Items, str, array, nil, cons, field, end, get, text_of,
}
use security_event_rag_demo.Payment.Model.{PaymentSubject}
use security_event_rag_demo.Payment.Access.Platform.{AccessPlatform}

-- `metadata.get(key)`, of texts by their names.
abbrev pub metadata_text : String → Fields → Option String
metadata_text key metadata = text_of (get key metadata)

-- `x or y`, and `x or None`
abbrev pub first_truthy : Option String → Option String → Option String
first_truthy x y = if truthy x then x else y

-- Whether a list is empty.
abbrev pub is_empty_list : List String → Bool
is_empty_list [] = Bool.true
is_empty_list (x ∷ xs) = Bool.false

module _ (p : AccessPlatform) where
  -- `_decode_metadata_values`: the texts, decoded where they can be.
  unfoldable pub decode_metadata_values : Fields → Fields
  decode_metadata_values end = end
  decode_metadata_values (field key value rest) =
      let decoded = decode_metadata_values rest in
      elim value [ str s ↦ field key (str (or_default (p.b64decode s) s)) decoded | _ ↦ decoded ]

  python_texts : Items → List String
  python_texts nil = []
  python_texts (cons v rest) = p.python_str v ∷ python_texts rest

  list_texts : Value → List String
  list_texts (array items) = python_texts items
  list_texts _ = []

  -- `_parse_json_list`
  unfoldable pub parse_json_list : String → List String
  unfolding list_texts python_texts
  parse_json_list raw = elim (p.loads raw) [ none ↦ stripped_parts raw | some v ↦ list_texts v ]

  parsed_list : Option String → List String
  unfolding parse_json_list
  parsed_list raw = if truthy raw then parse_json_list (or_empty raw) else []

  -- The `Subject` of metadata that has all that is required.
  unfoldable pub described_subject : Fields → String → List String → PaymentSubject
  unfolding parsed_list
  described_subject metadata user_id roles = record {
    user_id = user_id;
    given_name = first_truthy (metadata_text "given_name" metadata) none;
    family_name = first_truthy (metadata_text "family_name" metadata) none;
    title = or_empty (metadata_text "title" metadata);
    lob = first_truthy (metadata_text "lob" metadata) none;
    roles = roles;
    groups = parsed_list (metadata_text "groups" metadata);
    supervisor_id = first_truthy (metadata_text "supervisor_id" metadata) none;
    covering_lobs = parsed_list (metadata_text "covering_lobs" metadata);
  }

  -- `_subject_from_metadata`
  unfoldable pub subject_from_metadata : Fields → Option String → Result PaymentSubject
  subject_from_metadata metadata fallback_user_id =
      let user_id = first_truthy (metadata_text "subject_user_id" metadata) fallback_user_id in
      let roles = parse_json_list (or_empty (metadata_text "roles" metadata)) in
      if not (truthy user_id)
      then err (Error.value_error "missing subject_user_id")
      else if not (truthy (metadata_text "title" metadata))
      then err (Error.value_error "missing title metadata")
      else if not (truthy (metadata_text "roles" metadata))
      then err (Error.value_error "missing roles metadata")
      else if is_empty_list roles
      then err (Error.value_error "roles claim is empty or invalid")
      else ok (described_subject metadata (or_empty user_id) roles)

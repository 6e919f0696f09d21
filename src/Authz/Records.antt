-- ===== src/Authz/Records.antt =====
-- The records of the authorization service (authorization-service/src/authz/models.py).
use security_event_rag_demo.Base.{
  ℕ, String, ◌<>◌, Option, none, some, List, [], truthy, or_empty, ◌&&◌, if◌then◌else◌,
}
use security_event_rag_demo.Base.Json.{
  Fields, field, end, str, number, real, object, optional, texts, merge,
}

pub record AuthzSubject : Type 0 where
  pub user_id : String
  pub given_name : Option String
  pub family_name : Option String
  pub title : String
  pub lob : Option String
  pub roles : List String
  pub groups : List String
  pub supervisor_id : Option String
  pub covering_lobs : List String
  pub delegated_by : Option String
  pub delegated_by_roles : List String

-- `if value is not None: payload[key] = value`
abbrev given_field : String → Option String → Fields
given_field key none = end
given_field key (some s) = field key (str s) end

-- `Subject.to_opa_subject`
unfoldable pub opa_subject : AuthzSubject → Fields
opa_subject u =
    merge
      (merge
        (field "user_id" (str u.user_id) (
          field "title" (str u.title) (
            field "roles" (texts u.roles) (
              field "groups" (texts u.groups) (
                field "covering_lobs" (texts u.covering_lobs)
                  (field "delegated_by_roles" (texts u.delegated_by_roles) end))))))
        (given_field "lob" u.lob))
      (given_field "supervisor_id" u.supervisor_id)

-- `Subject.display_name`
unfoldable pub subject_display_name : AuthzSubject → String
subject_display_name u =
    if truthy u.family_name && truthy u.given_name
    then or_empty u.family_name <> ", " <> or_empty u.given_name <> " (" <> u.user_id <> ")"
    else u.user_id

pub record SeedUser : Type 0 where
  pub user_id : String
  pub given_name : String
  pub family_name : String
  pub title : String
  pub roles : List String
  pub lob : Option String
  pub groups : List String
  pub supervisor_id : Option String
  pub covering_lobs : List String

-- `SeedUser.to_subject`
unfoldable pub to_subject : SeedUser → AuthzSubject
to_subject u = record {
  user_id = u.user_id;
  given_name = some u.given_name;
  family_name = some u.family_name;
  title = u.title;
  lob = u.lob;
  roles = u.roles;
  groups = u.groups;
  supervisor_id = u.supervisor_id;
  covering_lobs = u.covering_lobs;
  delegated_by = none;
  delegated_by_roles = [];
}

-- `PaymentRecord`, with its `UserReference` as two fields; an amount is its `repr`.
pub record PaymentRecord : Type 0 where
  pub payment_id : String
  pub instruction_id : String
  pub instruction_version : ℕ
  pub status : String
  pub amount : String
  pub currency : String
  pub owning_lob : String
  pub created_by_user_id : String
  pub created_by_supervisor_id : Option String

-- `PaymentRecord.to_opa_payment`
unfoldable pub to_opa_payment_record : PaymentRecord → String → String → Fields
to_opa_payment_record d instruction_end_date instruction_status =
    field "payment_id" (str d.payment_id) (
      field "instruction_id" (str d.instruction_id) (
        field "instruction_version" (number d.instruction_version) (
          field "amount" (real d.amount) (
            field "currency" (str d.currency) (
              field "instruction_status" (str instruction_status) (
                field "instruction_end_date" (str instruction_end_date) (
                  field "instruction_owning_lob" (str d.owning_lob) (
                    field "created_by"
                      (object (
                        field "user_id" (str d.created_by_user_id)
                          (field "supervisor_id" (optional d.created_by_supervisor_id) end)))
                      end))))))))

pub record EligibleApprover : Type 0 where
  pub user_id : String
  pub display_name : String
  pub title : String
  pub allow_basis : List String

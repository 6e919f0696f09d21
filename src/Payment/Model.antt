-- ===== src/Payment/Model.antt =====
-- The payment and the caller (payment-service/src/ps/models/payment.py and models/api.py). An amount
-- is a Python float, written by its `repr`.
use security_event_rag_demo.Base.{
  ℕ, String, ◌∷◌, Bool, Option, none, List, [], length, ltb, if◌then◌else◌,
}
use security_event_rag_demo.Base.Json.{Fields, field, end, str, number, real, object, optional}
use security_event_rag_demo.Instruction.Parties.{UserReference, within}
use security_event_rag_demo.Payment.Enums.{PaymentStatus, PaymentAction, payment_action_value}

abbrev pub Float : Type 0
Float = String

pub record PaymentSubject : Type 0 where
  pub user_id : String
  pub given_name : Option String
  pub family_name : Option String
  pub title : String
  pub lob : Option String
  pub roles : List String
  pub groups : List String
  pub supervisor_id : Option String
  pub covering_lobs : List String

pub record CreatePaymentRequest : Type 0 where
  pub instruction_id : String
  pub value_date : String
  pub amount : Float

pub record RejectPaymentRequest : Type 0 where
  pub reason : String

-- A lifecycle event of a payment; its timestamp is the ISO text.
pub record PaymentLifecycleEvent : Type 0 where
  pub event_id : String
  pub action : String
  pub actor_user_id : String
  pub timestamp : String
  pub details : Fields

pub record Payment : Type 0 where
  pub payment_id : String
  pub instruction_id : String
  pub instruction_version : ℕ
  pub version_number : ℕ
  pub status : PaymentStatus
  pub amount : Float
  pub currency : String
  pub value_date : String
  pub owning_lob : String
  pub instruction_type : String
  pub created_by : UserReference
  pub submitted_by : Option UserReference
  pub approved_by : Option UserReference
  pub rejected_by : Option UserReference
  pub cancelled_by : Option UserReference
  pub rejection_reason : Option String
  pub cancellation_reason : Option String
  pub created_at : ℕ
  pub updated_at : ℕ
  pub lifecycle_events : List PaymentLifecycleEvent

-- `_user_ref`
unfoldable pub user_ref : PaymentSubject → UserReference
user_ref s = record {
  user_id = s.user_id;
  given_name = s.given_name;
  family_name = s.family_name;
  title = s.title;
  lob = s.lob;
  roles = s.roles;
  supervisor_id = s.supervisor_id;
}

-- The entry that an operation appends to `lifecycle_events`.
unfoldable pub lifecycle_entry :
    PaymentAction → PaymentSubject → String → String → Fields → PaymentLifecycleEvent
lifecycle_entry action subject event_id timestamp details = record {
  event_id = event_id;
  action = payment_action_value action;
  actor_user_id = subject.user_id;
  timestamp = timestamp;
  details = details;
}

-- `Payment.create`, at the time `now`, which `isoformat` writes as `timestamp`.
unfoldable pub new_payment :
    String
    → String
    → ℕ
    → Float
    → String
    → String
    → String
    → String
    → PaymentSubject
    → String
    → ℕ
    → String
    → Payment
unfolding user_ref lifecycle_entry
new_payment payment_id instruction_id instruction_version amount currency value_date owning_lob
      instruction_type subject event_id now timestamp =
    record {
      payment_id = payment_id;
      instruction_id = instruction_id;
      instruction_version = instruction_version;
      version_number = 1;
      status = PaymentStatus.draft;
      amount = amount;
      currency = currency;
      value_date = value_date;
      owning_lob = owning_lob;
      instruction_type = instruction_type;
      created_by = user_ref subject;
      submitted_by = none;
      approved_by = none;
      rejected_by = none;
      cancelled_by = none;
      rejection_reason = none;
      cancellation_reason = none;
      created_at = now;
      updated_at = now;
      lifecycle_events =
          lifecycle_entry PaymentAction.create_payment subject event_id timestamp end ∷ [];
    }

-- `max(1, n)`
abbrev at_least_one : ℕ → ℕ
at_least_one n = if ltb n 1 then 1 else n

unfoldable pub sync_version_number : Payment → Payment
sync_version_number p = record p { version_number = at_least_one (length p.lifecycle_events) }

unfoldable pub to_opa_payment : String → String → Payment → Fields
to_opa_payment end_date status p = field "payment_id" (str p.payment_id) (
    field "instruction_id" (str p.instruction_id) (
      field "instruction_version" (number p.instruction_version) (
        field "amount" (real p.amount) (
          field "currency" (str p.currency) (
            field "instruction_status" (str status) (
              field "instruction_end_date" (str end_date) (
                field "instruction_owning_lob" (str p.owning_lob) (
                  field "created_by"
                    (object (
                      field "user_id" (str p.created_by.user_id)
                        (field "supervisor_id" (optional p.created_by.supervisor_id) end)))
                    end))))))))

-- The length constraint of a rejection's reason.
abbrev pub check_reject_payment : RejectPaymentRequest → Bool
check_reject_payment r = within 1 1024 r.reason

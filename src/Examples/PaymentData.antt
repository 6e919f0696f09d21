-- ===== src/Examples/PaymentData.antt =====
-- A payment service in memory, in a world that allows everything and has one instruction.
use security_event_rag_demo.Base.{ℕ, suc, true, false, none, some, List, [], ◌∷◌, any}
use security_event_rag_demo.Base.Json.{Fields, field, end, str, flag, number}
use security_event_rag_demo.Clients.Http.{HttpResponse}
use security_event_rag_demo.Instruction.Service.Persist.{Caller}
use security_event_rag_demo.Payment.Model.{
  PaymentSubject, CreatePaymentRequest, Payment, new_payment,
}
use security_event_rag_demo.Payment.Platform.{PaymentPlatform, PaymentSettings, PaymentState}
use security_event_rag_demo.Payment.Repository.{has_payment_id}
use security_event_rag_demo.Payment.Changes.{submitted_payment}
use security_event_rag_demo.Payment.Service.Stores.{PaymentLaws}
use security_event_rag_demo.Examples.Memory.{memory, memory-laws, replacing, replacing_laws, key}

abbrev pub bob : PaymentSubject
bob = record {
  user_id = "bob";
  given_name = some "Bob";
  family_name = some "Lee";
  title = "Associate";
  lob = some "FICC";
  roles = "PAYMENT_CREATOR" ∷ [];
  groups = [];
  supervisor_id = none;
  covering_lobs = "FICC" ∷ [];
}

abbrev pub order : CreatePaymentRequest
order = record { instruction_id = "I-1"; value_date = "2026-07-01"; amount = "5.0" }

abbrev pub standing_instruction : Fields
standing_instruction = field "version_number" (number 3) (
    field "status" (str "STANDING") (
      field "owning_lob" (str "FICC") (
        field "currency" (str "USD")
          (field "sequence_id" (str "P-1") (field "allowed" (flag true) end)))))

-- Every request is answered with the same body.
abbrev answer_ok : HttpResponse
answer_ok = record { status_code = 200; text = ""; body = standing_instruction }

abbrev pub payment_world : PaymentPlatform
payment_world = record {
  payments = memory (λ d ds. any (has_payment_id d.payment_id) ds);
  replace_one = replacing;
  events = memory (λ d ds. false);
  isoformat = key;
  fromisoformat = λ s. none;
  json_datetime = λ t. "2026";
  utc_date = λ t. "2026-07-01";
  python_str = λ v. "";
  Outside = ℕ;
  now = λ n. (n, suc n);
  uuid4 = λ n. (key n, suc n);
  get = λ url headers n. (some answer_ok, suc n);
  post = λ url headers body n. (some answer_ok, suc n);
  send = λ topic k n. (true, suc n);
}

pub payment_world-laws : PaymentLaws payment_world
payment_world-laws = record {
  collection = memory-laws (λ d ds. any (has_payment_id d.payment_id) ds);
  replaces = replacing_laws (λ d ds. any (has_payment_id d.payment_id) ds);
}

abbrev pub payment_settings : PaymentSettings
payment_settings = record {
  authorization_service_url = "http://authz";
  ilm_url = "http://ilm";
  sequence_service_url = "http://seq";
  application_name = "payment-service";
  version = "1";
  kafka_payments_topic = "ssi-payments";
  kafka_security_events_topic = "payment-security-events";
  zitadel_service_pat = none;
  zitadel_url = none;
  zitadel_host_header = end;
  service_user_id = "svc-payment";
  service_user_password = "";
}

abbrev pub anonymous : Caller
anonymous = record { bearer_token = none; session_id = none }

abbrev pub holding_payments : List Payment → PaymentState payment_world
holding_payments l = record {
  payments = l;
  events = [];
  session = record { token = none; session_id = none; outside = 0 };
  producer_started = true;
  published = [];
  facts = [];
}

abbrev pub first_payment : Payment
first_payment = new_payment "P-1" "I-1" 3 "5.0" "USD" "2026-07-01" "FICC" "STANDING" bob "e" 1 "t"

abbrev pub sent_payment : Payment
sent_payment =
    submitted_payment bob (record { now = 2; timestamp = "u"; event_id = "f" }) first_payment

-- ===== src/Payment/Access/Platform.antt =====
-- What the authentication of the payment service calls outside this repository: HTTP, PyJWT, and
-- Python's base64 and JSON.
use security_event_rag_demo.Base.{ℕ, String, Option}
use security_event_rag_demo.Base.Json.{Value, Fields}

-- The end of an HTTP exchange: a status with a JSON value; a status with a body that `response.json()`
-- refuses, with the text of the `ValueError`; an `httpx.HTTPError`, with its text.
pub data Reply : Type 0 where
  json_reply : ℕ → Value → Reply
  other_reply : ℕ → String → Reply
  unreachable : String → Reply

pub record AccessPlatform : Type 1 where
  pub Outside : Type 0
  -- The claims of a token for an issuer and an audience, by PyJWT with the issuer's keys; `none` is any
  -- exception.
  pub decode : String → String → Option String → Outside → Option Fields × Outside
  -- `client.get(url, headers=…, params=…)` and `client.post(url, headers=…, json=…)`
  pub get : String → Fields → Fields → Outside → Reply × Outside
  pub post : String → Fields → Fields → Outside → Reply × Outside
  -- `base64.b64decode(value).decode("utf-8")`; `none` is a `ValueError` or a `UnicodeDecodeError`.
  pub b64decode : String → Option String
  -- `json.loads`; `none` is a `JSONDecodeError`.
  pub loads : String → Option Value
  -- `str(item)`
  pub python_str : Value → String
  -- `urlparse(url).netloc`
  pub netloc : String → String

-- The part of `settings` that authentication reads (config.py).
pub record AccessSettings : Type 0 where
  pub auth_mode : String
  pub oidc_issuer_url : Option String
  pub oidc_internal_url : Option String
  pub oidc_audience : Option String
  pub zitadel_internal_url : Option String
  pub zitadel_service_pat : Option String
  pub compliance_roles : String

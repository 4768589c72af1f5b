-- ===== src/Api.antt =====
-- Requests and response envelopes: web/src/lib/api.ts.
-- `fetch` itself is the browser's: a request is a value, and what the server answers is an argument.
pub mod Headers
pub mod Results
pub mod Calls
mod Tests
use Prim.Native.String
use go_drive.Base.{
  ℕ, String, Bool, true, false, not, ◌&&◌, Option, none, some, Dict, put, put?, leb, truthy,
  or_text, if◌then◌else◌,
}

-- The `body` of a `RequestInit`.
pub data Payload : Type 0 where
  form_data : Payload
  json : String → Payload
  no_body : Payload

pub record RequestInit : Type 0 where
  pub method : String
  pub headers : Dict String
  pub body : Payload

pub record Request : Type 0 where
  pub path : String
  pub init : RequestInit
  pub include_credentials : Bool

-- What `res.json()` makes of a body: it rejects, or gives null, or an object with the text that
-- reports a failure (`error`, or `message` of the auth service) and the payload (`data`).
pub data Body {ℓ} (T : Type ℓ) : Type ℓ where
  malformed : Body T
  null_body : Body T
  object : Option String → Option T → Body T

pub record Response {ℓ} (T : Type ℓ) : Type ℓ where
  pub status : ℕ
  pub body : Body T

-- What a promise is rejected with: an `Error` with a message of the program's, the errors of
-- `res.json()` and of reading a field of null or undefined, and that of `fetch`.
pub data Failure : Type 0 where
  error : String → Failure
  syntax_error : Failure
  type_error : Failure
  network_error : Failure

pub data Outcome {ℓ} (T : Type ℓ) : Type ℓ where
  resolved : T → Outcome T
  rejected : Failure → Outcome T

infixl 5 ◌>>=◌
abbrev pub ◌>>=◌ {ℓ κ} : {A : Type ℓ} {B : Type κ} → Outcome A → (A → Outcome B) → Outcome B
resolved a >>= f = f a
rejected e >>= f = rejected e

-- `Response.ok` of the fetch standard.
abbrev pub is_ok : ℕ → Bool
is_ok status = leb 200 status && leb status 299

abbrev pub request_failed : String
request_failed = "Request failed"

-- The message of an error that the envelope may name: `body.error || 'Request failed'`.
abbrev pub message_or_default : Option String → String
message_or_default none = request_failed
message_or_default (some m) = or_text m request_failed

abbrev is_form : Payload → Bool
is_form form_data = true
is_form _ = false

-- `token ? { Authorization: … } : {}`, for a token that may be null.
abbrev pub bearer : Option String → Option String
bearer none = none
bearer (some token) = if truthy token then some (String.◌++◌ "Bearer " token) else none

abbrev pub content_type : Payload → Option String
content_type body = if is_form body then none else some "application/json"

unfoldable pub api_headers : Option String → RequestInit → Dict String
api_headers token options =
    put? (put? options.headers "Authorization" (bearer token)) "Content-Type"
      (content_type options.body)

unfoldable pub api_request : Option String → String → RequestInit → Request
api_request token path options = record {
  path = path;
  init = record options { headers = api_headers token options };
  include_credentials = true;
}

-- `tenantApi` adds the organization's header and calls `api`.
unfoldable pub tenant_request : Option String → String → String → RequestInit → Request
tenant_request token path org_slug options =
    api_request token path (record options { headers = put options.headers "X-Org-Slug" org_slug })

module _ {ℓ} {T : Type ℓ} where
  -- `!res.ok`: the `catch` covers only `res.json()`, so a null body fails at `body.error`.
  unfoldable pub api_failure : Body T → Failure
  api_failure malformed = error request_failed
  api_failure null_body = type_error
  api_failure (object m d) = error (message_or_default m)

  -- `if (body.error) throw …; return body.data`.
  unfoldable pub unwrap : Body T → Outcome (Option T)
  unwrap malformed = rejected syntax_error
  unwrap null_body = rejected type_error
  unwrap (object none d) = resolved d
  unwrap (object (some m) d) = if truthy m then rejected (error m) else resolved d

  unfoldable pub api_result : Response T → Outcome (Option T)
  unfolding api_failure unwrap
  api_result res = if is_ok res.status then unwrap res.body else rejected (api_failure res.body)

  -- `api`, over the browser's `fetch`, which gives no response when the network fails.
  unfoldable pub api :
      (Request → Option (Response T)) → Option String → String → RequestInit → Outcome (Option T)
  unfolding api_result api_request
  api fetch token path options = elim (fetch (api_request token path options)) [
    | none ↦ rejected network_error
    | some res ↦ api_result res
  ]

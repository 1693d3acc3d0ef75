-- ===== src/Auth/State.antt =====
-- The state of `AuthChecker` of src/api_manager/check_auth.cc, what it shares with other requests, the
-- code that it calls, and the ways in which a run of it ends.
use esp.Base.{ℕ, Bool, Option, List, [], ◌++◌, Str, bytes, leb, if◌then◌else◌}
use esp.Base.Int.{ℤ, pos, negsuc}
use esp.StatusCode.Code
use esp.StatusCode.Names.{Status, decimal, auth}
use esp.MethodInfo.{MethodInfo}
use esp.Auth.Keys.{Certs, JwksUris}
use esp.Auth.Cache.{UserInfo}

-- What `Parse` answers: the user information, or the message of its error.
pub data Parsed : Type 0 where
  parsed : UserInfo → Parsed
  invalid : Str → Parsed

-- The JWT validator, and the other code that the checker calls.
pub record Library : Type 0 where
  -- Whether `JwtValidator::Create` answers a validator for a token.
  pub creates : Str → Bool
  -- `Parse` of a token at a time.
  pub parse : Str → ℕ → Parsed
  -- `VerifySignature` of a token by a key: the message of its error, if any.
  pub verify : Str → Str → Option Str
  pub expiration_time : Str → ℕ
  -- `WriteUserInfoToJson`, `none` where it answers a null pointer, and `esp_base64_encode`.
  pub user_info_to_json : UserInfo → Option Str
  pub base64_encode : Str → Str
  -- The string at `jwks_uri` of a discovery document.
  pub jwks_uri_of_json : Str → Option Str

-- The settings of the service, and the method that the request is for.
pub record Settings : Type 0 where
  pub require_auth : Bool
  pub service_name : Str
  pub jwks_cache_duration_in_s : ℕ
  pub method : Option MethodInfo

-- The part of the service context that requests share.
pub record Shared (C : Type 0) : Type 0 where
  pub certs : Certs
  pub jwks_uris : JwksUris
  pub jwt_cache : C

-- The checker with what it has set in the request's context and in the request.
pub record Checker : Type 0 where
  pub auth_token : Str
  pub user_info : UserInfo
  pub auth_issuer : Str
  pub auth_audience : Str
  pub auth_authorized_party : Str
  pub auth_claims : Str
  pub backend_headers : List (Str × Str)

-- Where a run ends: `on_done_` was called; a response is awaited; the checker returned without a
-- call of `on_done_`; or the last byte of an empty string was read.
pub data Progress : Type 0 where
  finished : Status → Progress
  awaiting_jwks_uri awaiting_pub_key : Str → Progress
  dropped undefined : Progress

pub record Outcome (C : Type 0) : Type 0 where
  pub shared : Shared C
  pub checker : Checker
  pub progress : Progress

abbrev pub outcome : {C : Type 0} → Shared C → Checker → Progress → Outcome C
outcome s k p = record { shared = s; checker = k; progress = p }

abbrev pub no_user : UserInfo
no_user = record {
  id = [];
  email = [];
  consumer_id = [];
  issuer = [];
  audiences = [];
  authorized_party = [];
  claims = [];
}

abbrev pub new_checker : Checker
new_checker = record {
  auth_token = [];
  user_info = no_user;
  auth_issuer = [];
  auth_audience = [];
  auth_authorized_party = [];
  auth_claims = [];
  backend_headers = [];
}

abbrev pub failure : ℕ → Str → Status
failure code error = record {
  code = pos code;
  message = bytes "JWT validation failed: " ++ error;
  error_cause = auth;
}

abbrev pub unauthenticated : Str → Progress
unauthenticated error = finished (failure Code.unauthenticated error)

abbrev pub unauthorized : Str → Progress
unauthorized error = finished (failure Code.permission_denied error)

-- The HTTP code of an upstream error. A negative code is below 300.
abbrev pub http_suffix : ℤ → Str
http_suffix (pos c) = if leb 300 c then bytes ". HTTP response code: " ++ decimal c else []
http_suffix (negsuc k) = []

abbrev pub fetch_failure : Str → Status → Progress
fetch_failure error status = unauthenticated (error ++ http_suffix status.code)

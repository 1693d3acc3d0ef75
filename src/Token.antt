-- ===== src/Token.antt =====
-- `ServiceAccountToken` of src/api_manager/auth/service_account_token.{h,cc}, as far as it keeps the
-- token of the metadata server. Times are nanoseconds of the system clock.
pub mod Fetch
pub mod Refresh
pub mod Identity
pub mod Jwt
pub mod Examples
use esp.Base.{
  ℕ, ◌+◌, ◌*◌, ◌/◌, Bool, true, false, not, ◌&&◌, Option, none, some, List, [], Str, is_empty, leb,
  if◌then◌else◌,
}
use esp.Base.Int.{ℤ, pos, negsuc, ◌+ℤ◌, ◌-ℤ◌}

-- `FetchState`; the first of them is `NONE`.
pub data FetchState : Type 0 where
  not_fetched fetching fetched failed : FetchState

-- `TokenInfo`, with the time of expiration in seconds.
pub record TokenInfo : Type 0 where
  pub token : Str
  pub expiration_time : ℤ

pub record ServiceAccountToken : Type 0 where
  pub client_auth_secret : Str
  pub state : FetchState
  pub access_token : TokenInfo
  pub last_failed_fetch_time : ℕ

-- A token as it is constructed, with a client secret.
abbrev pub new_token : Str → ServiceAccountToken
new_token secret = record {
  client_auth_secret = secret;
  state = not_fetched;
  access_token = record { token = []; expiration_time = pos 0 };
  last_failed_fetch_time = 0;
}

abbrev pub second : ℕ
second = 1000000000

-- `time(nullptr)`.
abbrev pub seconds : ℕ → ℕ
seconds now = now / second

abbrev pub is_behind : ℕ → ℤ → Bool
is_behind time (pos t) = leb time t
is_behind time (negsuc k) = false

-- `is_valid`.
unfoldable pub is_valid : ℕ → ℕ → TokenInfo → Bool
is_valid now duration t =
    not (is_empty t.token) && is_behind (seconds now + duration) t.expiration_time

-- `is_access_token_valid`.
abbrev pub is_access_token_valid : ℕ → ℕ → ServiceAccountToken → Bool
is_access_token_valid now duration t = is_valid now duration t.access_token

abbrev pub set_state : FetchState → ServiceAccountToken → ServiceAccountToken
set_state state t = record t { state = state }

-- `set_access_token`.
unfoldable pub set_access_token : ℕ → Str → ℤ → ServiceAccountToken → ServiceAccountToken
set_access_token now token expiration t = record t {
  access_token = record { token = token; expiration_time = pos (seconds now) +ℤ expiration };
}

abbrev pub has_client_secret : ServiceAccountToken → Bool
has_client_secret t = not (is_empty t.client_auth_secret)

-- `SetTokenJsonResponse`, at what is parsed of the response: the token and the seconds until it
-- expires. It answers whether that is there.
abbrev pub set_token_json_response :
    ℕ → Option (Str × ℤ) → ServiceAccountToken → ServiceAccountToken × Bool
set_token_json_response now none t = (set_state failed t, false)
set_token_json_response now (some (token, expires)) t =
    (set_access_token now token (expires -ℤ pos 50) (set_state fetched t), true)

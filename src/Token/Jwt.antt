-- ===== src/Token/Jwt.antt =====
-- The JWT tokens of src/api_manager/auth/service_account_token.cc, which are made from the client
-- secret, one for each `JWT_TOKEN_TYPE`. `esp_get_auth_token` is a parameter; logging is left out.
pub mod Audience
mod Examples
use esp.Base.{
  ℕ, zero, suc, ◌+◌, Bool, true, false, Option, none, some, List, [], ◌∷◌, Str, bytes, str_eq,
  is_empty, get_elem?, set, replicate, if◌then◌else◌,
}
use esp.Base.Int.{ℤ, pos, ◌+ℤ◌}
use esp.StatusCode.Code
use esp.StatusCode.Names.{Status, ok_status}
use esp.Token.{TokenInfo, is_valid, seconds}
use esp.Token.Fetch.{fetch_error}

-- `JwtTokenInfo`.
pub record JwtTokenInfo : Type 0 where
  pub info : TokenInfo
  pub audience : Str

-- What `ServiceAccountToken` has for `GetAuthToken`. The index of a token is its type.
pub record JwtTokens : Type 0 where
  pub client_auth_secret : Str
  pub jwt_tokens : List JwtTokenInfo
  pub access_token : TokenInfo

-- The number of types.
abbrev pub jwt_token_type_max : ℕ
jwt_token_type_max = 6

abbrev pub k_client_secret_auth_token_expiration : ℕ
k_client_secret_auth_token_expiration = 3500

-- `TokenInfo::set_token`.
abbrev pub set_token : ℕ → Str → ℕ → JwtTokenInfo → JwtTokenInfo
set_token now token expiration i = record i {
  info = record { token = token; expiration_time = pos (seconds now + expiration) };
}

abbrev pub with_audience : ℕ → Str → JwtTokenInfo → JwtTokenInfo
with_audience now audience i =
    if str_eq i.audience audience then i else record (set_token now [] 0 i) { audience = audience }

abbrev pub put_token : ℕ → JwtTokenInfo → JwtTokens → JwtTokens
put_token type i t = record t { jwt_tokens = set t.jwt_tokens type i }

abbrev pub set_audience_of : ℕ → ℕ → Str → JwtTokens → Option JwtTokenInfo → Option JwtTokens
set_audience_of now type audience t none = none
set_audience_of now type audience t (some i) =
    some (put_token type (with_audience now audience i) t)

-- `SetAudience`; `none` where `GOOGLE_CHECK` fails, since there is no such type.
unfoldable pub set_audience : ℕ → ℕ → Str → JwtTokens → Option JwtTokens
set_audience now type audience t = set_audience_of now type audience t (get_elem? t.jwt_tokens type)

-- The token that is made where none is valid.
abbrev pub put_generated : ℕ → JwtTokens → Option JwtTokenInfo → JwtTokens × Str
put_generated type t none = (t, [])
put_generated type t (some i) = (put_token type i t, i.info.token)

-- `GenerateJwtToken`, for an audience that is not empty; `none` is `INVALID_ARGUMENT`.
abbrev pub with_token : ℕ → JwtTokenInfo → Option Str → Option JwtTokenInfo
with_token now i none = none
with_token now i (some token) = some (set_token now token k_client_secret_auth_token_expiration i)

abbrev pub generated_first :
    JwtTokenInfo
    → List JwtTokenInfo
    → List JwtTokenInfo × Bool
    → Option JwtTokenInfo
    → List JwtTokenInfo × Bool
generated_first i rest (done, ok) none = (i ∷ rest, false)
generated_first i rest (done, ok) (some j) = (j ∷ done, ok)

module _ (esp_get_auth_token : Str → Str → Option Str) where
  unfoldable pub generate_jwt_token : ℕ → Str → JwtTokenInfo → Option JwtTokenInfo
  generate_jwt_token now secret i = with_token now i (esp_get_auth_token secret i.audience)

  -- The loop over the tokens, which ends at the first that is not made.
  unfoldable pub generate_all : ℕ → Str → List JwtTokenInfo → List JwtTokenInfo × Bool
  generate_all now secret [] = ([], true)
  generate_all now secret (i ∷ rest) =
      let (done, ok) = generate_all now secret rest in
      if is_empty i.audience
      then (i ∷ done, ok)
      else generated_first i rest (done, ok) (generate_jwt_token now secret i)

  -- `SetClientAuthSecret`, with whether its status is OK.
  unfoldable pub set_client_auth_secret : ℕ → Str → JwtTokens → JwtTokens × Bool
  set_client_auth_secret now secret t =
      let (tokens, ok) = generate_all now secret t.jwt_tokens in
      if is_empty secret
      then (t, true)
      else (record t { client_auth_secret = secret; jwt_tokens = tokens }, ok)

  -- `GetAuthToken` with a client secret, at the token with its audience.
  abbrev pub valid_token : ℕ → ℕ → JwtTokens → JwtTokenInfo → Option (JwtTokens × Str)
  valid_token now type t i =
      if is_valid now 0 i.info
      then some (t, i.info.token)
      else if is_empty i.audience
      then none
      else some (put_generated type t (generate_jwt_token now t.client_auth_secret i))

  abbrev pub get_jwt_token :
      ℕ → ℕ → Str → JwtTokens → Option JwtTokenInfo → Option (JwtTokens × Str)
  get_jwt_token now type audience t none = none
  get_jwt_token now type audience t (some i) =
      let j = with_audience now audience i in valid_token now type (put_token type j t) j

  -- `GetAuthToken` of a type and an audience; `none` where `GOOGLE_CHECK` fails, since there is no
  -- such type, or since a token has to be made for an empty audience.
  unfoldable pub get_auth_token : ℕ → ℕ → Str → JwtTokens → Option (JwtTokens × Str)
  get_auth_token now type audience t =
      if is_empty t.client_auth_secret
      then some (t, t.access_token.token)
      else get_jwt_token now type audience t (get_elem? t.jwt_tokens type)

-- The tokens as they are constructed.
abbrev pub no_token : TokenInfo
no_token = record { token = []; expiration_time = pos 0 }

abbrev pub new_jwt_tokens : JwtTokens
new_jwt_tokens = record {
  client_auth_secret = [];
  jwt_tokens = replicate jwt_token_type_max (record { info = no_token; audience = [] });
  access_token = no_token;
}

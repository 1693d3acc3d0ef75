-- ===== src/Token/Jwt/Examples.antt =====
-- Runs of the JWT tokens.
use esp.Base.{◌≡◌, refl, Option, none, some, [], ◌++◌, Str, bytes}
use esp.Token.{is_valid}
use esp.Token.Jwt.{
  JwtTokens, new_jwt_tokens, set_client_auth_secret, get_auth_token, generate_all,
  generate_jwt_token,
}
use esp.Token.Jwt.Audience.{created, secret_set, given, IsFor, get_auth_token-IsFor}

-- A token that is the secret and the audience.
abbrev joined_token : Str → Str → Option Str
joined_token secret audience = some (secret ++ audience)

abbrev with_secret : JwtTokens
with_secret = (set_client_auth_secret joined_token 0 (bytes "k") new_jwt_tokens).0

-- What a call gives; nothing where it fails.
abbrev given_by : Option (JwtTokens × Str) → JwtTokens × Str
given_by none = (new_jwt_tokens, [])
given_by (some r) = r

abbrev first_given : JwtTokens × Str
first_given = given_by (get_auth_token joined_token 0 2 (bytes "x") with_secret)

gives_first : get_auth_token joined_token 0 2 (bytes "x") with_secret ≡ some first_given
unfolding set_client_auth_secret generate_all generate_jwt_token get_auth_token is_valid
gives_first = refl

abbrev second_given : JwtTokens × Str
second_given = given_by (get_auth_token joined_token 0 2 (bytes "y") first_given.0)

-- The same type with another audience: the token of the first one is not given out.
gives_second : second_given.1 ≡ bytes "ky"
unfolding set_client_auth_secret generate_all generate_jwt_token get_auth_token is_valid
gives_second = refl

get_auth_token-IsFor_example : IsFor joined_token second_given.1 (bytes "y")
unfolding set_client_auth_secret generate_all generate_jwt_token get_auth_token is_valid
get_auth_token-IsFor_example =
    get_auth_token-IsFor joined_token 0 2 (bytes "y") second_given.1 first_given.0 second_given.0
      (given 0 2 (bytes "x") first_given.1 with_secret first_given.0
        (secret_set 0 (bytes "k") new_jwt_tokens created) gives_first)
      refl refl

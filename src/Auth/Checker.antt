-- ===== src/Auth/Checker.antt =====
-- `AuthChecker` of src/api_manager/check_auth.cc. A method runs until the checker is done or waits for
-- an HTTP response; the response is then an argument of the callback. The clock is read once in each
-- run. Logs and trace spans are left out.
use esp.Base.{
  ℕ, ◌+◌, Bool, true, false, not, ◌||◌, Option, none, some, List, [], ◌∷◌, ◌++◌, Str, bytes,
  starts_with, contains, drop, length, is_empty, ltb, leb, if◌then◌else◌,
}
use esp.StatusCode.Names.{Status, ok_status, is_ok}
use esp.Request.{Request}
use esp.UrlUtil.{get_url_content}
use esp.MethodInfo.{MethodInfo, is_issuer_allowed, is_audience_allowed, set_insert}
use esp.Auth.Keys.{update_cert, get_cert, get_jwks_uri, set_jwks_uri}
use esp.Auth.Cache.{LruCache, JwtValue, insert_jwt}
use esp.Auth.State.{
  Parsed, parsed, invalid, Library, Settings, Shared, Checker, Progress, finished,
  awaiting_jwks_uri, awaiting_pub_key, dropped, undefined, Outcome, outcome, new_checker,
  unauthenticated, unauthorized, fetch_failure,
}

-- `AudiencesAsString`.
unfoldable pub audiences_as_string : List Str → Str
audiences_as_string [] = []
audiences_as_string (a ∷ []) = a
audiences_as_string (a ∷ b ∷ rest) = a ++ (b',' ∷ audiences_as_string (b ∷ rest))

-- The contents of the audiences; `none` where one has no last byte.
unfoldable pub audience_contents : List Str → Option (List Str)
audience_contents [] = some []
audience_contents (a ∷ rest) = elim (get_url_content a) [
  | none ↦ none
  | some c ↦ elim (audience_contents rest) [ none ↦ none | some cs ↦ some (set_insert c cs) ]
]

abbrev pub k_endpoint_api_user_info : Str
k_endpoint_api_user_info = bytes "X-Endpoint-API-UserInfo"

-- `GetAuthToken`: no token is the empty one.
abbrev pub or_empty : Option Str → Str
or_empty none = []
or_empty (some s) = s

abbrev pub bearer : Str
bearer = bytes "Bearer "

abbrev pub bearer_token : Str → Str
bearer_token header =
    if leb (length header) 7 || not (starts_with bearer header) then header else drop 7 header

abbrev pub token_of : Option Str → Option Str → Option Str → Str
token_of (some iap) header query = iap
token_of none (some header) query = bearer_token header
token_of none none query = or_empty query

unfoldable pub get_auth_token : Request → Str
get_auth_token r =
    token_of (r.find_header (bytes "x-goog-iap-jwt-assertion"))
      (r.find_header (bytes "authorization")) (r.find_query (bytes "access_token"))

module _ {C : Type 0} (lru : LruCache C JwtValue) (lib : Library) (settings : Settings) where
  -- `PassUserInfoOnSuccess`.
  unfoldable pub pass_user_info : Shared C → Checker → Outcome C
  pass_user_info s k = elim (lib.user_info_to_json k.user_info) [
    | none ↦ outcome s k dropped
    | some json ↦
        outcome s
          (record k {
            backend_headers =
                k.backend_headers ++ ((k_endpoint_api_user_info, lib.base64_encode json) ∷ []);
          })
          (finished ok_status)
  ]

  -- The end of `VerifySignature`, behind the check of the signature.
  unfoldable pub accept_signature : ℕ → Shared C → Checker → Option Str → Outcome C
  accept_signature now s k (some error) = outcome s k (unauthenticated error)
  accept_signature now s k none =
      pass_user_info
        (record s {
          jwt_cache =
              insert_jwt lru k.auth_token k.user_info (lib.expiration_time k.auth_token) now
                s.jwt_cache;
        })
        k

  -- `VerifySignature`.
  unfoldable pub verify_signature : ℕ → Shared C → Checker → Outcome C
  verify_signature now s k = elim (get_cert k.user_info.issuer s.certs) [
    | none ↦ outcome s k (unauthenticated (bytes "Missing verification key"))
    | some (cert, exp) ↦ accept_signature now s k (lib.verify k.auth_token cert)
  ]

  -- `PostFetchPubKey`.
  unfoldable pub post_fetch_pub_key : ℕ → Status → Str → Shared C → Checker → Outcome C
  post_fetch_pub_key now status body s k =
      if not (is_ok status) || is_empty body
      then outcome s k (fetch_failure (bytes "Unable to fetch verification key") status)
      else verify_signature now
          (record s {
            certs =
                update_cert k.user_info.issuer body (now + settings.jwks_cache_duration_in_s)
                  s.certs;
          })
          k

  -- `SetJwksUri`, and what is done then.
  abbrev pub with_jwks_uri : Str → Shared C → Checker → Progress → Outcome C
  with_jwks_uri jwks_uri s k progress =
      elim (set_jwks_uri k.user_info.issuer jwks_uri false s.jwks_uris) [
        | none ↦ outcome s k undefined
        | some uris ↦ outcome (record s { jwks_uris = uris }) k progress
      ]

  -- `PostFetchJwksUri`.
  unfoldable pub post_fetch_jwks_uri : Status → Str → Shared C → Checker → Outcome C
  post_fetch_jwks_uri status body s k =
      if not (is_ok status)
      then with_jwks_uri [] s k
          (fetch_failure (bytes "Unable to fetch URI of the key via OpenID discovery") status)
      else elim (lib.jwks_uri_of_json body) [
        | none ↦
            with_jwks_uri [] s k
              (unauthenticated (bytes "Unable to parse URI of the key via OpenID discovery"))
        | some uri ↦ with_jwks_uri uri s k (awaiting_pub_key uri)
      ]

  -- Whether a key is missing or has expired.
  abbrev pub needs_key : ℕ → Option (Str × ℕ) → Bool
  needs_key now none = true
  needs_key now (some (cert, exp)) = ltb exp now

  abbrev pub fetch_from : Shared C → Checker → Option (Str × Bool) → Outcome C
  fetch_from s k none = outcome s k undefined
  fetch_from s k (some (url, try_open_id)) = outcome s k (
      if is_empty url
      then unauthenticated (bytes "Cannot determine the URI of the key")
      else if try_open_id
      then awaiting_jwks_uri url
      else awaiting_pub_key url)

  -- `InitKey`.
  unfoldable pub init_key : ℕ → Shared C → Checker → Outcome C
  init_key now s k =
      if needs_key now (get_cert k.user_info.issuer s.certs)
      then fetch_from s k (get_jwks_uri k.user_info.issuer s.jwks_uris)
      else verify_signature now s k

  -- Whether an issuer and audiences are allowed, as `CheckAudience` tests them.
  abbrev pub audience_passes : MethodInfo → Str → List Str → Bool
  audience_passes m issuer aud =
      contains aud settings.service_name || is_audience_allowed issuer aud m

  abbrev pub check_contents :
      Bool → ℕ → MethodInfo → Shared C → Checker → Option Str → Option (List Str) → Outcome C
  check_contents cache_hit now m s k none aud = outcome s k undefined
  check_contents cache_hit now m s k (some issuer) aud =
      if not (is_issuer_allowed issuer m)
      then outcome s k (unauthenticated (bytes "Issuer not allowed"))
      else elim aud [
        | none ↦ outcome s k undefined
        | some auds ↦
            if not (audience_passes m issuer auds)
            then outcome s k (unauthorized (bytes "Audience not allowed"))
            else if cache_hit
            then pass_user_info s k
            else init_key now s k
      ]

  -- What `CheckAudience` sets in the context.
  abbrev pub with_context : Checker → Checker
  with_context k = record k {
    auth_issuer = k.user_info.issuer;
    auth_audience = audiences_as_string k.user_info.audiences;
    auth_authorized_party = k.user_info.authorized_party;
    auth_claims = k.user_info.claims;
  }

  -- `CheckAudience`.
  unfoldable pub check_audience : Bool → ℕ → MethodInfo → Shared C → Checker → Outcome C
  check_audience cache_hit now m s k =
      check_contents cache_hit now m s (with_context k) (get_url_content k.user_info.issuer)
        (audience_contents k.user_info.audiences)

  abbrev pub with_parsed : ℕ → MethodInfo → Shared C → Checker → Parsed → Outcome C
  with_parsed now m s k (parsed user) = check_audience false now m s (record k { user_info = user })
  with_parsed now m s k (invalid error) = outcome s k (unauthenticated error)

  -- `ParseJwt`.
  unfoldable pub parse_jwt : ℕ → MethodInfo → Shared C → Checker → Outcome C
  parse_jwt now m s k =
      if lib.creates k.auth_token
      then with_parsed now m s k (lib.parse k.auth_token now)
      else outcome s k (unauthenticated (bytes "Internal error"))

  abbrev pub with_cached : ℕ → MethodInfo → Shared C → Checker → Option JwtValue → Outcome C
  with_cached now m s k none = parse_jwt now m s k
  with_cached now m s k (some val) =
      if leb now val.exp
      then check_audience true now m s (record k { user_info = val.user_info })
      else parse_jwt now m (record s { jwt_cache = lru.remove k.auth_token s.jwt_cache }) k

  -- `LookupJwtCache`.
  unfoldable pub lookup_jwt_cache : ℕ → MethodInfo → Shared C → Checker → Outcome C
  lookup_jwt_cache now m s k =
      with_cached now m (record s { jwt_cache = lru.lookup k.auth_token s.jwt_cache }) k
        (lru.find k.auth_token s.jwt_cache)

  abbrev pub check_method : ℕ → Request → Shared C → Option MethodInfo → Outcome C
  check_method now r s none = outcome s new_checker (finished ok_status)
  check_method now r s (some m) =
      if not settings.require_auth || not m.auth
      then outcome s new_checker (finished ok_status)
      else if is_empty (get_auth_token r)
      then outcome s new_checker (unauthenticated (bytes "Missing or invalid credentials"))
      else lookup_jwt_cache now m s (record new_checker { auth_token = get_auth_token r })

  -- `CheckAuth`.
  unfoldable pub check_auth : ℕ → Request → Shared C → Outcome C
  check_auth now r s = check_method now r s settings.method

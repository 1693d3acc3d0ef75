-- ===== src/Auth/Examples.antt =====
-- A service that discovers the keys of an issuer, runs of its checker, and concrete cases of the
-- theorems on it.
use esp.Base.{
  ◌≡◌, ◌⊎◌, inl, inr, refl, true, Option, none, some, [], ◌∷◌, ◌++◌, Str, bytes, str_eq, str_eq_iff,
  if◌then◌else◌, Bool-cases, arith,
}
use esp.Base.Int.{pos}
use esp.StatusCode.Names.{ok_status, is_ok, auth}
use esp.Request.{Request, http, unknown}
use esp.UrlUtil.{get_url_content, is_http_request}
use esp.MethodInfo.{
  MethodInfo, new_method_info, map_find, map_update, is_issuer_allowed, is_audience_allowed,
}
use esp.Auth.Keys.{get_jwks_uri, set_jwks_uri, last_is, jwks_uri_of, discovery_url}
use esp.Auth.Cache.{LruCache, UserInfo, JwtValue}
use esp.Auth.State.{
  parsed, invalid, Library, Settings, Shared, Outcome, awaiting_jwks_uri, awaiting_pub_key,
  finished, no_user,
}
use esp.Auth.Checker.{
  check_auth, lookup_jwt_cache, parse_jwt, check_audience, init_key, verify_signature,
  accept_signature, pass_user_info, post_fetch_pub_key, post_fetch_jwks_uri, get_auth_token,
  audience_contents,
}
use esp.Auth.Sound.{IsSigned, IsAllowed}
use esp.Auth.Flight.{
  Job, job_of, IsRequired, Reach, begun, arrived, uri_fetched, key_fetched, accepted-IsSigned,
}
use esp.Auth.Answered.{Response, IsFinished, respond, answered-in_two}

-- A cache of one entry.
abbrev Single : Type 0
Single = Option (Str × JwtValue)

abbrev single_find : Str → Single → Option JwtValue
single_find key none = none
single_find key (some (k, v)) = if str_eq k key then some v else none

single_find-insert :
    (k j : Str) (w v : JwtValue) (c : Single)
    → single_find k (some (j, w)) ≡ some v
    → ((j ≡ k) × (w ≡ v)) ⊎ (single_find k c ≡ some v)
single_find-insert k j w v c e = elim (Bool-cases (str_eq j k)) [
  | inl same ↦ inl ((str_eq_iff j k).0 same, ground (arith, e, same))
  | inr other ↦ absurd (ground (arith, e, other))
]

abbrev single : LruCache Single JwtValue
single = record {
  find = single_find;
  lookup = λ key c. c;
  insert = λ key v c. some (key, v);
  remove = λ key c. none;
  find-lookup = λ k j c v e. e;
  find-insert = single_find-insert;
  find-remove = λ k j c v e. absurd (ground (arith, e));
}

abbrev user : UserInfo
user = record no_user { id = bytes "u"; issuer = bytes "https://iss"; audiences = bytes "api" ∷ [] }

-- A validator that knows one token and one key.
abbrev validator : Library
validator = record {
  creates = λ token. true;
  parse = λ token now.
      if str_eq token (bytes "token") then parsed user else invalid (bytes "unknown token");
  verify = λ token cert. if str_eq cert (bytes "key") then none else some (bytes "wrong key");
  expiration_time = λ token. 1000;
  user_info_to_json = λ u. some (bytes "{}");
  base64_encode = λ s. s;
  jwks_uri_of_json = λ body. some body;
}

abbrev Genuine : Str → Str → Type 0
Genuine issuer cert = cert ≡ bytes "key"

abbrev rule : MethodInfo
rule = record (new_method_info (bytes "m") (bytes "api") (bytes "v1")) {
  auth = true;
  issuer_provider_map =
      (bytes "iss", record { audiences = bytes "api" ∷ []; authorization_url = [] }) ∷ [];
}

abbrev settings : Settings
settings = record {
  require_auth = true;
  service_name = bytes "svc";
  jwks_cache_duration_in_s = 300;
  method = some rule;
}

abbrev request : Request
request = record {
  frontend_protocol = http;
  backend_protocol = unknown;
  http_method = bytes "GET";
  unparsed_path = bytes "/m";
  path = bytes "/m";
  query_parameters = [];
  client_ip = [];
  client_host = [];
  find_header =
      λ name. if str_eq name (bytes "authorization") then some (bytes "Bearer token") else none;
  find_query = λ name. none;
}

-- The keys of the issuer are to be discovered.
abbrev empty : Shared Single
empty = record { certs = []; jwks_uris = (bytes "iss", ([], true)) ∷ []; jwt_cache = none }

abbrev first : Outcome Single
first = check_auth single validator settings 100 request empty

abbrev waiting : Job
waiting = job_of 100 settings first

abbrev discovery : Str
discovery = bytes "https://iss/.well-known/openid-configuration"

first_waits : waiting.progress ≡ awaiting_jwks_uri discovery
unfolding check_auth lookup_jwt_cache parse_jwt check_audience init_key get_auth_token
    audience_contents get_url_content is_issuer_allowed is_audience_allowed map_find get_jwks_uri
    jwks_uri_of discovery_url last_is is_http_request
first_waits = refl

abbrev second : Outcome Single
second =
    post_fetch_jwks_uri single validator settings ok_status (bytes "https://keys") first.shared
      first.checker

abbrev keyless : Job
keyless = job_of 100 settings second

second_waits : keyless.progress ≡ awaiting_pub_key (bytes "https://keys")
unfolding check_auth lookup_jwt_cache parse_jwt check_audience init_key get_auth_token
    audience_contents get_url_content is_issuer_allowed is_audience_allowed map_find get_jwks_uri
    jwks_uri_of post_fetch_jwks_uri set_jwks_uri is_ok discovery_url last_is is_http_request
second_waits = refl

abbrev third : Outcome Single
third =
    post_fetch_pub_key single validator settings 101 ok_status (bytes "key") second.shared
      second.checker

abbrev done : Job
done = job_of 100 settings third

third_finished : done.progress ≡ finished ok_status
unfolding check_auth lookup_jwt_cache parse_jwt check_audience init_key get_auth_token
    audience_contents get_url_content is_issuer_allowed is_audience_allowed map_find get_jwks_uri
    jwks_uri_of post_fetch_jwks_uri set_jwks_uri is_ok discovery_url last_is is_http_request
    post_fetch_pub_key verify_signature accept_signature pass_user_info map_update
third_finished = refl

reached : Reach single validator Genuine third.shared ([] ++ (done ∷ []))
reached =
    key_fetched second.shared [] [] keyless (bytes "https://keys") 101 ok_status (bytes "key")
      second_waits (λ fine. refl)
      (uri_fetched first.shared [] [] waiting discovery ok_status (bytes "https://keys") first_waits
        (arrived empty [] 100 settings request (begun empty refl (λ token. refl))))

required : IsRequired settings rule
required = record { method = refl; required = refl; wanted = refl }

accepted-IsSigned_example :
    IsSigned single validator Genuine done.checker.auth_token done.checker.user_info
    × IsAllowed single validator Genuine settings rule 100 done.checker.auth_token
        done.checker.user_info
unfolding is_ok
accepted-IsSigned_example =
    accepted-IsSigned single validator Genuine third.shared [] [] done rule ok_status reached
      required third_finished refl

-- A key that cannot be fetched, and the wrong key.
abbrev no_answer : Response
no_answer = record {
  status = record { code = pos 503; message = bytes "no"; error_cause = auth };
  body = [];
  now = 105;
}

abbrev wrong_key : Response
wrong_key = record { status = ok_status; body = bytes "other"; now = 106 }

reached_first : Reach single validator Genuine first.shared ([] ++ (waiting ∷ []))
reached_first = arrived empty [] 100 settings request (begun empty refl (λ token. refl))

abbrev after_failure : Outcome Single
after_failure = respond single validator settings no_answer empty waiting.checker waiting.progress

answered-in_two_example :
    IsFinished
      (respond single validator settings wrong_key empty after_failure.checker
        after_failure.progress).progress
unfolding check_auth lookup_jwt_cache parse_jwt check_audience init_key get_auth_token
    audience_contents get_url_content is_issuer_allowed is_audience_allowed map_find get_jwks_uri
    jwks_uri_of discovery_url last_is is_http_request
answered-in_two_example =
    answered-in_two single validator Genuine first.shared [] [] waiting no_answer wrong_key empty
      empty (λ u e. cc) reached_first (λ e. cc) (λ e. cc)

-- ===== src/MethodInfo.antt =====
-- The method information of src/api_manager/method_impl.{h,cc}: its authentication providers, its
-- backend, and its system parameters. The maps are association lists in the order of their keys.
pub mod Backend
pub mod Providers
pub mod Examples
use mathlib.Core.Option
use esp.Base.{
  ℕ, suc, ◌+◌, Bool, true, false, not, ◌&&◌, ◌||◌, Option, none, some, List, [], ◌∷◌, ◌++◌, Str,
  bytes, str_eq, contains, is_empty, is_some, take, drop, ltb, leb, ◌==◌, if◌then◌else◌,
}
use esp.Base.Int.{ℤ}
use esp.PathMatcher.Request.{split}
use esp.UrlUtil.{pop_back_if, get_url_content}

pub record AuthProvider : Type 0 where
  pub audiences : List Str
  pub authorization_url : Str

-- `BackendRule_PathTranslation`.
pub data PathTranslation : Type 0 where
  unspecified constant_address append_path_to_address : PathTranslation

-- `api_key_http_headers_` and `api_key_url_query_parameters_` point into the maps: they are the key
-- of the entry that they point to.
pub record MethodInfo : Type 0 where
  pub name : Str
  pub api_name : Str
  pub api_version : Str
  pub auth : Bool
  pub allow_unregistered_calls : Bool
  pub skip_service_control : Bool
  pub issuer_provider_map : List (Str × AuthProvider)
  pub http_header_parameters : List (Str × List Str)
  pub url_query_parameters : List (Str × List Str)
  pub system_query_parameter_names : List Str
  pub api_key_http_headers : Option Str
  pub api_key_url_query_parameters : Option Str
  pub backend_address : Str
  pub backend_path : Str
  pub backend_path_translation : PathTranslation
  pub backend_jwt_audience : Str
  pub selector : Str
  pub rpc_method_full_name : Str
  pub request_type_url : Str
  pub request_streaming : Bool
  pub response_type_url : Str
  pub response_streaming : Bool
  pub metric_cost_vector : List (Str × ℤ)

abbrev pub new_method_info : Str → Str → Str → MethodInfo
new_method_info name api_name api_version = record {
  name = name;
  api_name = api_name;
  api_version = api_version;
  auth = false;
  allow_unregistered_calls = false;
  skip_service_control = false;
  issuer_provider_map = [];
  http_header_parameters = [];
  url_query_parameters = [];
  system_query_parameter_names = [];
  api_key_http_headers = none;
  api_key_url_query_parameters = none;
  backend_address = [];
  backend_path = [];
  backend_path_translation = unspecified;
  backend_jwt_audience = [];
  selector = [];
  rpc_method_full_name = [];
  request_type_url = [];
  request_streaming = false;
  response_type_url = [];
  response_streaming = false;
  metric_cost_vector = [];
}

-- The order of the keys of a `std::map<std::string, …>`.
abbrev pub str_lt : Str → Str → Bool
str_lt s [] = false
str_lt [] (d ∷ t) = true
str_lt (c ∷ s) (d ∷ t) = ltb c d || (c == d && str_lt s t)

module _ {A : Type 0} where
  -- `find` of a map.
  unfoldable pub map_find : Str → List (Str × A) → Option A
  map_find key [] = none
  map_find key ((k, a) ∷ es) = if str_eq k key then some a else map_find key es

  -- `f(map[key])`: a key that is missing is inserted with the value `new` first.
  unfoldable pub map_update : Str → A → (A → A) → List (Str × A) → List (Str × A)
  map_update key new f [] = (key, f new) ∷ []
  map_update key new f ((k, a) ∷ es) =
      let rest = map_update key new f es in
      if str_eq k key
      then (k, f a) ∷ es
      else if str_lt key k
      then (key, f new) ∷ (k, a) ∷ es
      else (k, a) ∷ rest

-- Insertion into a `std::set<std::string>`, whose order no operation here sees.
abbrev pub set_insert : Str → List Str → List Str
set_insert s set = if contains set s then set else s ∷ set

-- The loop over the audiences. `GetUrlContent` of `http://` has no last byte: `none`.
pub add_audiences : List Str → List Str → Option (List Str)
add_audiences [] audiences = some audiences
add_audiences (audience ∷ list) audiences =
    let skipped = add_audiences list audiences in
    if is_empty audience then skipped else elim (get_url_content audience) [
      | none ↦ none
      | some aud ↦ add_audiences list (if is_empty aud then audiences else set_insert aud audiences)
    ]

abbrev pub new_provider : AuthProvider
new_provider = record { audiences = []; authorization_url = [] }

-- The audiences that a provider has already.
abbrev pub audiences_of : Option AuthProvider → List Str
audiences_of none = []
audiences_of (some p) = p.audiences

abbrev pub with_provider : Str → Str → MethodInfo → List Str → MethodInfo
with_provider iss authorization_url m audiences = record m {
  issuer_provider_map =
      map_update iss new_provider
        (λ p. record { audiences = audiences; authorization_url = authorization_url })
        m.issuer_provider_map;
}

pub add_provider : Str → Str → Str → MethodInfo → Option MethodInfo
add_provider iss audiences_list authorization_url m =
    Option.map (with_provider iss authorization_url m) (
      add_audiences (split audiences_list b',') (audiences_of (map_find iss m.issuer_provider_map)))

-- `addAuthProvider`.
pub add_auth_provider : Str → Str → Str → MethodInfo → Option MethodInfo
add_auth_provider issuer audiences_list authorization_url m =
    if is_empty issuer then some m else elim (get_url_content issuer) [
      | none ↦ none
      | some iss ↦
          if is_empty iss then some m else add_provider iss audiences_list authorization_url m
    ]

-- `isIssuerAllowed`.
unfoldable pub is_issuer_allowed : Str → MethodInfo → Bool
is_issuer_allowed issuer m =
    not (is_empty issuer) && is_some (map_find issuer m.issuer_provider_map)

abbrev pub contains_any : List Str → List Str → Bool
contains_any set [] = false
contains_any set (s ∷ ss) = contains set s || contains_any set ss

-- `isAudienceAllowed`.
unfoldable pub is_audience_allowed : Str → List Str → MethodInfo → Bool
is_audience_allowed issuer jwt_audiences m =
    if is_empty issuer || (is_empty jwt_audiences || not (is_issuer_allowed issuer m))
    then false
    else contains_any (audiences_of (map_find issuer m.issuer_provider_map)) jwt_audiences

abbrev pub url_of : Option AuthProvider → Str
url_of none = []
url_of (some p) = p.authorization_url

-- `authorization_url_by_issuer`.
pub authorization_url_by_issuer : Str → MethodInfo → Str
authorization_url_by_issuer issuer m = url_of (map_find issuer m.issuer_provider_map)

pub first_url : List (Str × AuthProvider) → Str
first_url [] = []
first_url ((k, p) ∷ es) = if is_empty p.authorization_url then first_url es else p.authorization_url

-- `first_authorization_url`.
pub first_authorization_url : MethodInfo → Str
first_authorization_url m = first_url m.issuer_provider_map

abbrev pub api_key_parameter_name : Str
api_key_parameter_name = bytes "api_key"

-- `add_http_header_parameter` and `add_url_query_parameter`.
pub add_http_header_parameter : Str → Str → MethodInfo → MethodInfo
add_http_header_parameter name http_header m = record m {
  http_header_parameters =
      map_update name [] (λ ps. ps ++ (http_header ∷ [])) m.http_header_parameters;
}

pub add_url_query_parameter : Str → Str → MethodInfo → MethodInfo
add_url_query_parameter name url_query_parameter m = record m {
  url_query_parameters =
      map_update name [] (λ ps. ps ++ (url_query_parameter ∷ [])) m.url_query_parameters;
}

-- The pointer to an entry.
abbrev pub pointer_to : Str → List (Str × List Str) → Option Str
pointer_to name ps = if is_some (map_find name ps) then some name else none

-- `process_system_parameters`.
pub process_system_parameters : MethodInfo → MethodInfo
process_system_parameters m = record m {
  api_key_http_headers = pointer_to api_key_parameter_name m.http_header_parameters;
  api_key_url_query_parameters = pointer_to api_key_parameter_name m.url_query_parameters;
}

pub insert_all : List Str → List Str → List Str
insert_all [] set = set
insert_all (s ∷ ss) set = insert_all ss (set_insert s set)

pub insert_names : List (Str × List Str) → List Str → List Str
insert_names [] set = set
insert_names ((k, names) ∷ ps) set = insert_names ps (insert_all names set)

-- `ProcessSystemQueryParameterNames`: with no API key parameter the default names join.
pub process_system_query_parameter_names : MethodInfo → MethodInfo
process_system_query_parameter_names m =
    let names = insert_names m.url_query_parameters m.system_query_parameter_names in
    record m {
      system_query_parameter_names =
          if is_some m.api_key_http_headers || is_some m.api_key_url_query_parameters
          then names
          else set_insert (bytes "api_key") (set_insert (bytes "key") names);
    }

-- `keep_binding_escaped`.
abbrev pub is_constant_address : PathTranslation → Bool
is_constant_address constant_address = true
is_constant_address _ = false

pub keep_binding_escaped : MethodInfo → Bool
keep_binding_escaped m = is_constant_address m.backend_path_translation

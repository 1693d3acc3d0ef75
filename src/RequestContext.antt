-- ===== src/RequestContext.antt =====
-- The context of a request, src/api_manager/context/request_context.{h,cc}, and what it reads of
-- src/api_manager/context/service_context.cc. The trace is left out of it.
pub mod ClientIp
pub mod BackendPath
pub mod Operation
pub mod Report
pub mod Examples
use esp.Base.{
  ℕ, Bool, true, false, not, ◌&&◌, Option, none, some, List, [], ◌∷◌, ◌++◌, Str, bytes, is_empty,
  str_eq, if◌then◌else◌,
}
use esp.Base.Int.{ℤ, pos}
use esp.Request.{Request}
use esp.MethodInfo.{MethodInfo, map_find, first_authorization_url, authorization_url_by_issuer}
use esp.PathMatcher.Bindings.{Binding}

-- `MethodCallInfo` of include/api_manager/method_call_info.h, without the path of the body.
pub record MethodCallInfo : Type 0 where
  pub method_info : Option MethodInfo
  pub variable_bindings : List Binding

-- `CheckResponseInfo` of src/api_manager/service_control/info.h.
pub record CheckResponseInfo : Type 0 where
  pub is_api_key_valid : Bool
  pub service_is_activated : Bool
  pub consumer_project_id : Str

-- What is read of the service: `Config::GetMethodCallInfo`, whether there is a service control, the
-- client IP extraction and the names of JSON fields.
pub record Service : Type 0 where
  pub method_call_info : Str → Str → Str → MethodCallInfo
  pub has_service_control : Bool
  pub gcp_project_id : Str
  pub producer_project_id : Str
  pub has_client_ip_extraction : Bool
  pub client_ip_header : Str
  pub client_ip_position : ℤ
  pub json_name : Str → Option Str

pub record RequestContext : Type 0 where
  pub request : Request
  pub method_call : MethodCallInfo
  pub operation_id : Str
  pub api_key : Str
  pub api_key_from_query : Bool
  pub check_response_info : CheckResponseInfo
  pub http_referer : Str
  pub auth_issuer : Str
  pub auth_audience : Str
  pub auth_claims : Str
  pub start_time : ℕ
  pub backend_headers : List (Str × Str)

-- `method()`.
abbrev pub method : RequestContext → Option MethodInfo
method c = c.method_call.method_info

-- `AddHeaderToBackend`, of a front end that does not fail.
abbrev pub add_header_to_backend : Str → Str → RequestContext → RequestContext
add_header_to_backend key value c = record c {
  backend_headers = c.backend_headers ++ ((key, value) ∷ []);
}

abbrev pub k_http_method_override_header : Str
k_http_method_override_header = bytes "X-HTTP-Method-Override"

abbrev pub or_else : Option Str → Str → Str
or_else none s = s
or_else (some t) s = t

-- `GetRequestHTTPMethodWithOverride`.
unfoldable pub http_method_with_override : Request → Str
http_method_with_override r = or_else (r.find_header k_http_method_override_header) r.http_method

-- `ServiceContext::GetMethodCallInfo`: a HEAD request is treated as GET where no method serves it.
unfoldable pub get_method_call_info : Service → Str → Str → Str → MethodCallInfo
get_method_call_info service http_method url query_params =
    elim (service.method_call_info http_method url query_params).method_info [
      | some m ↦ service.method_call_info http_method url query_params
      | none ↦
          if str_eq http_method (bytes "HEAD")
          then service.method_call_info (bytes "GET") url query_params
          else service.method_call_info http_method url query_params
    ]

-- `ServiceContext::project_id`.
unfoldable pub project_id : Service → Str
project_id service =
    if is_empty service.gcp_project_id then service.producer_project_id else service.gcp_project_id

-- The first of some names that is found.
unfoldable pub first_found : (Str → Option Str) → List Str → Option Str
first_found find [] = none
first_found find (name ∷ names) = elim (find name) [
  | some s ↦ some s
  | none ↦ first_found find names
]

-- The names that a pointer to an entry of a parameter map points to, none for a null pointer.
abbrev pub names_of : Option Str → List (Str × List Str) → List Str
names_of none map = []
names_of (some key) map = elim (map_find key map) [ none ↦ [] | some names ↦ names ]

abbrev pub is_null : Option Str → Bool
is_null none = true
is_null (some key) = false

-- A key, and whether it is of the query.
abbrev pub ApiKey : Type 0
ApiKey = Str × Bool

abbrev pub from_query : Str → ApiKey
from_query key = (key, true)

abbrev pub from_header : Str → ApiKey
from_header key = (key, false)

abbrev pub default_names : List Str
default_names = bytes "key" ∷ bytes "api_key" ∷ []

abbrev pub k_default_api_key_header_name : Str
k_default_api_key_header_name = bytes "x-api-key"

abbrev pub first_of : Option Str → Option Str → ApiKey
first_of (some key) header = from_query key
first_of none (some key) = from_header key
first_of none none = ([], false)

-- `ExtractApiKey`.
unfoldable pub extract_api_key : Request → MethodInfo → ApiKey
extract_api_key r m =
    if is_null m.api_key_url_query_parameters && is_null m.api_key_http_headers
    then first_of (first_found r.find_query default_names)
        (r.find_header k_default_api_key_header_name)
    else first_of
        (first_found r.find_query (names_of m.api_key_url_query_parameters m.url_query_parameters))
        (first_found r.find_header (names_of m.api_key_http_headers m.http_header_parameters))

abbrev pub api_key_of : Request → Option MethodInfo → ApiKey
api_key_of r none = ([], false)
api_key_of r (some m) = if m.allow_unregistered_calls then ([], false) else extract_api_key r m

abbrev pub default_check_response : CheckResponseInfo
default_check_response = record {
  is_api_key_valid = true;
  service_is_activated = true;
  consumer_project_id = [];
}

-- The constructor, for a time and a new UUID.
abbrev pub new_context : Service → Request → ℕ → Str → RequestContext
new_context service r now uuid =
    let call =
      get_method_call_info service (http_method_with_override r) r.unparsed_path
        r.query_parameters in
    record {
      request = r;
      method_call = call;
      operation_id = uuid;
      api_key = (api_key_of r call.method_info).0;
      api_key_from_query = (api_key_of r call.method_info).1;
      check_response_info = default_check_response;
      http_referer = or_else (r.find_header (bytes "referer")) [];
      auth_issuer = [];
      auth_audience = [];
      auth_claims = [];
      start_time = now;
      backend_headers = [];
    }

-- `GetAuthorizationUrl`.
abbrev pub authorization_url_of : Str → Option MethodInfo → Str
authorization_url_of issuer none = []
authorization_url_of issuer (some m) =
    if is_empty issuer then first_authorization_url m else authorization_url_by_issuer issuer m

unfoldable pub get_authorization_url : RequestContext → Str
get_authorization_url c = authorization_url_of c.auth_issuer (method c)

-- `TryAddApiKeyHeaderFromQuery` of src/api_manager/request_handler.cc.
unfoldable pub try_add_api_key_header : RequestContext → RequestContext
try_add_api_key_header c =
    if c.api_key_from_query
    then add_header_to_backend k_default_api_key_header_name c.api_key c
    else c

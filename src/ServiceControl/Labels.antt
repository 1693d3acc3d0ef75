-- ===== src/ServiceControl/Labels.antt =====
-- The labels of a report, src/api_manager/service_control/proto.cc.
use esp.Base.{
  ℕ, ◌/◌, ◌%◌, Bool, true, false, not, ◌&&◌, Option, none, some, List, [], ◌∷◌, ◌++◌, Str, bytes,
  is_empty, leb, get_or, if◌then◌else◌,
}
use esp.Base.Int.{pos}
use esp.StatusCode.{canonical_code}
use esp.StatusCode.Code
use esp.StatusCode.Names.{Status, decimal, internal}
use esp.Request.{Protocol, unknown, http, https, grpc, protocol_to_string}
use esp.MethodInfo.{map_update}
use esp.RequestContext.Report.{ReportRequestInfo}

-- What is outside: `esp_base64_encode`, url safe and without padding, and the version of the proxy.
pub record Encoding : Type 0 where
  pub base64_encode : Str → Option Str
  pub version : Str

-- A label is left out, or set, or the setter fails.
pub data LabelValue : Type 0 where
  unset : LabelValue
  value : Str → LabelValue
  refused : Status → LabelValue

-- `Kind` of `SupportedLabel`.
pub data Kind : Type 0 where
  user system : Kind

abbrev pub Labels : Type 0
Labels = List (Str × Str)

abbrev pub value_if : Bool → Str → LabelValue
value_if b s = if b then value s else unset

abbrev pub value_of : Str → LabelValue
value_of s = value_if (not (is_empty s)) s

abbrev pub out_of_memory : LabelValue
out_of_memory =
    refused
      (record { code = pos Code.internal; message = bytes "Out of memory"; error_cause = internal })

abbrev pub with_issuer : Option Str → LabelValue
with_issuer none = out_of_memory
with_issuer (some issuer) = value (bytes "jwtauth:issuer=" ++ issuer)

abbrev pub with_audience : Option Str → Option Str → LabelValue
with_audience none audience = out_of_memory
with_audience (some issuer) none = out_of_memory
with_audience (some issuer) (some audience) =
    value (bytes "jwtauth:issuer=" ++ issuer ++ bytes "&audience=" ++ audience)

abbrev pub set_credential_id : Encoding → ReportRequestInfo → LabelValue
set_credential_id e info =
    if not (is_empty info.operation.api_key)
    then value (bytes "apikey:" ++ info.operation.api_key)
    else if is_empty info.auth_issuer
    then unset
    else if is_empty info.auth_audience
    then with_issuer (e.base64_encode info.auth_issuer)
    else with_audience (e.base64_encode info.auth_issuer) (e.base64_encode info.auth_audience)

abbrev pub error_types : List Str
error_types =
    bytes "0xx"
    ∷ bytes "1xx"
    ∷ bytes "2xx"
    ∷ bytes "3xx"
    ∷ bytes "4xx"
    ∷ bytes "5xx"
    ∷ bytes "6xx"
    ∷ bytes "7xx"
    ∷ bytes "8xx"
    ∷ bytes "9xx"
    ∷ []

abbrev pub error_type_of : ℕ → Str
error_type_of code = get_or error_types ((code / 100) % 10) []

abbrev pub set_error_type : Encoding → ReportRequestInfo → LabelValue
set_error_type e info = value_if (leb 400 info.response_code) (error_type_of info.response_code)

abbrev pub set_protocol : Encoding → ReportRequestInfo → LabelValue
set_protocol e info = value (protocol_to_string info.frontend_protocol)

abbrev pub is_grpc : Protocol → Bool
is_grpc unknown = false
is_grpc http = false
is_grpc https = false
is_grpc grpc = true

abbrev pub set_backend_protocol : Encoding → ReportRequestInfo → LabelValue
set_backend_protocol e info =
    value_if (is_grpc info.backend_protocol && not (is_grpc info.frontend_protocol))
      (protocol_to_string info.backend_protocol)

abbrev pub set_consumer_project : Encoding → ReportRequestInfo → LabelValue
set_consumer_project e info = value info.check_response_info.consumer_project_id

abbrev pub set_referer : Encoding → ReportRequestInfo → LabelValue
set_referer e info = value_of info.operation.referer

abbrev pub set_response_code : Encoding → ReportRequestInfo → LabelValue
set_response_code e info = value_if info.is_final_report (decimal info.response_code)

abbrev pub set_response_code_class : Encoding → ReportRequestInfo → LabelValue
set_response_code_class e info = value_if info.is_final_report (error_type_of info.response_code)

abbrev pub set_status_code : Encoding → ReportRequestInfo → LabelValue
set_status_code e info = value_if info.is_final_report (decimal (canonical_code info.status.code))

abbrev pub set_location : Encoding → ReportRequestInfo → LabelValue
set_location e info = value (if is_empty info.location then bytes "global" else info.location)

abbrev pub set_api_method : Encoding → ReportRequestInfo → LabelValue
set_api_method e info = value_of info.api_method

abbrev pub set_api_version : Encoding → ReportRequestInfo → LabelValue
set_api_version e info = value_of info.api_version

abbrev pub set_platform : Encoding → ReportRequestInfo → LabelValue
set_platform e info = value info.compute_platform

abbrev pub set_service_agent : Encoding → ReportRequestInfo → LabelValue
set_service_agent e info = value (bytes "ESP/" ++ e.version)

abbrev pub set_user_agent : Encoding → ReportRequestInfo → LabelValue
set_user_agent e info = value (bytes "ESP")

-- `set` is `none` for a null pointer.
pub record SupportedLabel : Type 0 where
  pub name : Str
  pub kind : Kind
  pub set : Option (Encoding → ReportRequestInfo → LabelValue)
  pub by_consumer_only : Bool

abbrev pub label :
    Str → Kind → Option (Encoding → ReportRequestInfo → LabelValue) → Bool → SupportedLabel
label name kind set by_consumer_only = record {
  name = name;
  kind = kind;
  set = set;
  by_consumer_only = by_consumer_only;
}

-- The table, in its order: the labels of a request, and those of the platform and of service control.
-- Every label is a string.
abbrev pub request_labels : List SupportedLabel
request_labels =
    label (bytes "/credential_id") user (some set_credential_id) false
    ∷ label (bytes "/end_user") user none false
    ∷ label (bytes "/end_user_country") user none false
    ∷ label (bytes "/error_type") user (some set_error_type) false
    ∷ label (bytes "/protocol") user (some set_protocol) false
    ∷ label (bytes "/referer") user (some set_referer) false
    ∷ label (bytes "/response_code") user (some set_response_code) false
    ∷ label (bytes "/response_code_class") user (some set_response_code_class) false
    ∷ label (bytes "/status_code") user (some set_status_code) false
    ∷ []

abbrev pub platform_labels : List SupportedLabel
platform_labels =
    label (bytes "appengine.googleapis.com/clone_id") user none false
    ∷ label (bytes "appengine.googleapis.com/module_id") user none false
    ∷ label (bytes "appengine.googleapis.com/replica_index") user none false
    ∷ label (bytes "appengine.googleapis.com/version_id") user none false
    ∷ label (bytes "cloud.googleapis.com/location") system (some set_location) false
    ∷ label (bytes "cloud.googleapis.com/project") system none false
    ∷ label (bytes "cloud.googleapis.com/region") system none false
    ∷ label (bytes "cloud.googleapis.com/resource_id") user none false
    ∷ label (bytes "cloud.googleapis.com/resource_type") user none false
    ∷ label (bytes "cloud.googleapis.com/service") system none false
    ∷ label (bytes "cloud.googleapis.com/zone") system none false
    ∷ label (bytes "cloud.googleapis.com/uid") system none false
    ∷ label (bytes "serviceruntime.googleapis.com/api_method") user (some set_api_method) false
    ∷ label (bytes "serviceruntime.googleapis.com/api_version") user (some set_api_version) false
    ∷ label (bytes "servicecontrol.googleapis.com/caller_ip") system none false
    ∷ label (bytes "servicecontrol.googleapis.com/referer") system none false
    ∷ label (bytes "servicecontrol.googleapis.com/service_agent") system (some set_service_agent)
        false
    ∷ label (bytes "servicecontrol.googleapis.com/user_agent") system (some set_user_agent) false
    ∷ label (bytes "servicecontrol.googleapis.com/platform") system (some set_platform) false
    ∷ label (bytes "servicecontrol.googleapis.com/backend_protocol") system
        (some set_backend_protocol) false
    ∷ label (bytes "serviceruntime.googleapis.com/consumer_project") system
        (some set_consumer_project) true
    ∷ []

abbrev pub supported_labels : List SupportedLabel
supported_labels = request_labels ++ platform_labels

-- Labels, or the status of the setter that failed.
pub data Labelled : Type 0 where
  labelled : Labels → Labelled
  failed : Status → Labelled

abbrev pub set_label : Str → LabelValue → Labels → Labelled
set_label name unset labels = labelled labels
set_label name (value s) labels = labelled (map_update name s (λ old. s) labels)
set_label name (refused status) labels = failed status

abbrev pub label_value : Encoding → ReportRequestInfo → SupportedLabel → LabelValue
label_value e info l = elim l.set [ none ↦ unset | some set ↦ set e info ]

-- The loop over the labels; `all` also sets those that are by consumer only.
unfoldable pub add_labels :
    Encoding → ReportRequestInfo → Bool → List SupportedLabel → Labels → Labelled
add_labels e info all [] labels = labelled labels
add_labels e info all (l ∷ ls) labels =
    let skipped = add_labels e info all ls labels in
    if l.by_consumer_only && not all
    then skipped
    else elim (set_label l.name (label_value e info l) labels) [
      | labelled more ↦ add_labels e info all ls more
      | failed status ↦ failed status
    ]

-- ===== src/RequestContext/Report.antt =====
-- `FillReportRequestInfo` of src/api_manager/context/request_context.cc, and the reports that
-- src/api_manager/request_handler.cc sends, where there is a service control. The trace is left out. Byte counts are integers without a bound, times nanoseconds.
pub mod Deltas
use esp.Base.{
  ℕ, ◌+◌, ◌-◌, ◌*◌, ◌/◌, Bool, true, false, not, ◌&&◌, ◌||◌, Option, none, some, List, [], ◌∷◌,
  ◌++◌, Str, bytes, is_empty, ltb, leb, if◌then◌else◌,
}
use esp.Base.Int.{ℤ, pos, negsuc, ◌+ℤ◌, ◌-ℤ◌}
use esp.StatusCode.{http_code}
use esp.StatusCode.Names.{Status, is_ok, ok_status, to_string}
use esp.Request.{Protocol}
use esp.MethodInfo.{MethodInfo}
use esp.RequestContext.{
  Service, RequestContext, CheckResponseInfo, method, http_method_with_override,
}
use esp.RequestContext.Operation.{OperationInfo, fill_operation_info}

-- What is read of the configuration for a report; `field_value` is `GetPrimitiveFieldValue`.
pub record Logging : Type 0 where
  pub location : Str
  pub platform : Str
  pub has_service_control_config : Bool
  pub log_request_header : List Str
  pub log_response_header : List Str
  pub log_jwt_payload : List Str
  pub field_value : Str → Str → Option Str
  -- In seconds.
  pub intermediate_report_interval : ℕ

-- The counts of a stream so far.
pub record Stream : Type 0 where
  pub grpc_request_bytes : ℤ
  pub grpc_response_bytes : ℤ
  pub grpc_request_message_counts : ℤ
  pub grpc_response_message_counts : ℤ

-- `LatencyInfo` of include/api_manager/service_control.h; -1 is a time that is not available.
pub record LatencyInfo : Type 0 where
  pub request_time_ms : ℤ
  pub backend_time_ms : ℤ
  pub overhead_time_ms : ℤ

abbrev pub no_latency : LatencyInfo
no_latency = record {
  request_time_ms = negsuc 0;
  backend_time_ms = negsuc 0;
  overhead_time_ms = negsuc 0;
}

-- `Response` of include/api_manager/response.h.
pub record Response : Type 0 where
  pub status : Status
  pub request_size : ℕ
  pub response_size : ℕ
  pub latency : LatencyInfo
  pub find_header : Str → Option Str

-- The part of the context that reports change.
pub record Progress : Type 0 where
  pub is_first_report : Bool
  pub last_report_time : ℕ
  pub last_request_bytes : ℤ
  pub last_response_bytes : ℤ

-- `ReportRequestInfo`.
pub record ReportRequestInfo : Type 0 where
  pub operation : OperationInfo
  pub response_code : ℕ
  pub status : Status
  pub url : Str
  pub location : Str
  pub api_name : Str
  pub api_version : Str
  pub api_method : Str
  pub request_size : ℤ
  pub response_size : ℤ
  pub latency : LatencyInfo
  pub log_message : Str
  pub frontend_protocol : Protocol
  pub backend_protocol : Protocol
  pub auth_issuer : Str
  pub auth_audience : Str
  pub jwt_payloads : Str
  pub http_method : Str
  pub compute_platform : Str
  pub check_response_info : CheckResponseInfo
  pub request_bytes : ℤ
  pub request_headers : Str
  pub response_bytes : ℤ
  pub response_headers : Str
  pub streaming_request_message_counts : ℤ
  pub streaming_response_message_counts : ℤ
  pub streaming_durations : ℕ
  pub is_first_report : Bool
  pub is_final_report : Bool

-- The names that are found, each as `name=value;`.
unfoldable pub logged : (Str → Option Str) → List Str → Str
logged find [] = []
logged find (name ∷ names) = elim (find name) [
  | none ↦ logged find names
  | some value ↦ name ++ (b'=' ∷ value ++ (b';' ∷ logged find names))
]

abbrev pub logged_if : Bool → (Str → Option Str) → List Str → Str
logged_if configured find names = if configured then logged find names else []

abbrev pub verb_of : Str → Str
verb_of verb = if is_empty verb then bytes "<Unknown HTTP Verb>" else verb

-- The message of `FillLogMessage`.
abbrev pub log_message_of : Option MethodInfo → Status → Str → Str → Str
log_message_of (some m) status verb path =
    bytes "Method: "
    ++ m.selector
    ++ (if leb 400 (http_code status.code) then bytes " failed: " ++ to_string status else [])
log_message_of none status verb path =
    bytes "Endpoints management skipped for an unrecognized HTTP call: "
    ++ verb_of verb
    ++ (b' ' ∷ path)

abbrev pub text_of : (MethodInfo → Str) → Option MethodInfo → Str
text_of text none = []
text_of text (some m) = text m

abbrev pub is_streaming : Option MethodInfo → Bool
is_streaming none = false
is_streaming (some m) = m.request_streaming || m.response_streaming

-- A difference of byte counts in a final report is not below 0.
abbrev pub clipped : ℤ → ℤ
clipped (pos n) = pos n
clipped (negsuc k) = pos 0

module _ (service : Service) (logging : Logging) (c : RequestContext) where
  -- What every report has; the rest is as the struct is constructed.
  abbrev pub common_info : Bool → Bool → ReportRequestInfo
  common_info is_first is_final = record {
    operation = fill_operation_info service c;
    response_code = 200;
    status = ok_status;
    url = c.request.unparsed_path;
    location = logging.location;
    api_name = [];
    api_version = [];
    api_method = [];
    request_size = negsuc 0;
    response_size = negsuc 0;
    latency = no_latency;
    log_message = [];
    frontend_protocol = c.request.frontend_protocol;
    backend_protocol = c.request.backend_protocol;
    auth_issuer = c.auth_issuer;
    auth_audience = c.auth_audience;
    jwt_payloads = [];
    http_method = http_method_with_override c.request;
    compute_platform = logging.platform;
    check_response_info = c.check_response_info;
    request_bytes = pos 0;
    request_headers = [];
    response_bytes = pos 0;
    response_headers = [];
    streaming_request_message_counts = pos 0;
    streaming_response_message_counts = pos 0;
    streaming_durations = 0;
    is_first_report = is_first;
    is_final_report = is_final;
  }

  -- `FillReportRequestInfo` for an intermediate report.
  unfoldable pub fill_intermediate : Stream → Progress → ReportRequestInfo
  fill_intermediate stream p = record (common_info p.is_first_report false) {
    request_bytes = stream.grpc_request_bytes -ℤ p.last_request_bytes;
    response_bytes = stream.grpc_response_bytes -ℤ p.last_response_bytes;
  }

  -- What it sets in the context.
  abbrev pub advance : ReportRequestInfo → Progress → Progress
  advance info p = record p {
    last_request_bytes = p.last_request_bytes +ℤ info.request_bytes;
    last_response_bytes = p.last_response_bytes +ℤ info.response_bytes;
  }

  -- `FillReportRequestInfo` for the final report, at a time not before the start of the request.
  unfoldable pub fill_final : ℕ → Stream → Response → Progress → ReportRequestInfo
  fill_final now stream response p = record (common_info p.is_first_report true) {
    request_size = pos response.request_size;
    response_size = pos response.response_size;
    request_bytes = clipped (pos response.request_size -ℤ p.last_request_bytes);
    response_bytes = clipped (pos response.response_size -ℤ p.last_response_bytes);
    streaming_request_message_counts = stream.grpc_request_message_counts;
    streaming_response_message_counts = stream.grpc_response_message_counts;
    streaming_durations = (now - c.start_time) / 1000;
    status = response.status;
    response_code = http_code response.status.code;
    api_method = text_of (λ m. m.selector) (method c);
    api_name = text_of (λ m. m.api_name) (method c);
    api_version = text_of (λ m. m.api_version) (method c);
    log_message =
        log_message_of (method c) response.status (http_method_with_override c.request)
          c.request.unparsed_path;
    latency = if is_streaming (method c) then no_latency else response.latency;
    request_headers =
        logged_if logging.has_service_control_config c.request.find_header
          logging.log_request_header;
    response_headers =
        logged_if logging.has_service_control_config response.find_header
          logging.log_response_header;
    jwt_payloads =
        logged_if logging.has_service_control_config (logging.field_value c.auth_claims)
          logging.log_jwt_payload;
  }

  -- `AttemptIntermediateReport`: the reports that it sends, and the status of `Report`. `now` is of
  -- the steady clock.
  unfoldable pub attempt_intermediate_report :
      (ReportRequestInfo → Status) → ℕ → Stream → Progress → Progress × List ReportRequestInfo
  attempt_intermediate_report send now stream p =
      if ltb ((now - p.last_report_time) / 1000000000) logging.intermediate_report_interval
      then (p, [])
      else (
        record (advance (fill_intermediate stream p) p) {
          is_first_report = p.is_first_report && not (is_ok (send (fill_intermediate stream p)));
          last_report_time = now;
        },
        fill_intermediate stream p ∷ [],
      )

  abbrev pub skips : Option MethodInfo → Bool
  skips none = false
  skips (some m) = m.skip_service_control

  -- `Report`: the final report, where one is sent.
  unfoldable pub report : ℕ → Stream → Response → Progress → List ReportRequestInfo
  report now stream response p =
      if skips (method c) || not service.has_service_control
      then []
      else fill_final now stream response p ∷ []

-- ===== src/ServiceControl/LogEntry.antt =====
-- `FillLogEntry` of src/api_manager/service_control/proto.cc.
use esp.Base.{ℕ, ◌/◌, ◌%◌, List, [], ◌∷◌, ◌++◌, Str, bytes, is_empty, leb, if◌then◌else◌}
use esp.Base.Int.{ℤ, pos, negsuc}
use esp.StatusCode.Names.{error_cause_to_string}
use esp.RequestContext.Report.{ReportRequestInfo}
use esp.ServiceControl.Labels.{Encoding}

-- `Timestamp`, and `CreateTimestamp` of a time in nanoseconds.
pub record Timestamp : Type 0 where
  pub seconds : ℕ
  pub nanos : ℕ

abbrev pub create_timestamp : ℕ → Timestamp
create_timestamp time = record { seconds = time / 1000000000; nanos = time % 1000000000 }

-- A field: a string, a number, or the seconds of a timestamp with its fraction.
pub data FieldValue : Type 0 where
  string_value : Str → FieldValue
  number_value : ℤ → FieldValue
  time_value : Timestamp → FieldValue

abbrev pub Fields : Type 0
Fields = List (Str × FieldValue)

pub data Severity : Type 0 where
  info_severity error_severity : Severity

pub record LogEntry : Type 0 where
  pub name : Str
  pub timestamp : Timestamp
  pub severity : Severity
  pub fields : Fields

abbrev pub text_field : Str → Str → Fields
text_field name s = if is_empty s then [] else (name, string_value s) ∷ []

-- A number that is -1 where it is not available.
abbrev pub number_field : Str → ℤ → Fields
number_field name (pos n) = (name, number_value (pos n)) ∷ []
number_field name (negsuc k) = []

abbrev pub error_fields : ReportRequestInfo → Fields
error_fields info =
    if leb 400 info.response_code
    then (bytes "error_cause", string_value (error_cause_to_string info.status.error_cause)) ∷ []
    else []

unfoldable pub fill_log_entry : Encoding → ReportRequestInfo → Str → Str → Timestamp → LogEntry
fill_log_entry e info name config_id current_time = record {
  name = name;
  timestamp = current_time;
  severity = if leb 400 info.response_code then error_severity else info_severity;
  fields =
      (bytes "timestamp", time_value current_time)
      ∷ (bytes "service_config_id", string_value config_id)
      ∷ (bytes "service_agent", string_value (bytes "ESP/" ++ e.version))
      ∷ (text_field (bytes "producer_project_id") info.operation.producer_project_id
          ++ text_field (bytes "api_key") info.operation.api_key
          ++ text_field (bytes "referer") info.operation.referer
          ++ text_field (bytes "api_name") info.api_name
          ++ text_field (bytes "api_version") info.api_version
          ++ text_field (bytes "url") info.url
          ++ text_field (bytes "api_method") info.api_method
          ++ text_field (bytes "location") info.location
          ++ text_field (bytes "log_message") info.log_message
          ++ text_field (bytes "jwt_payloads") info.jwt_payloads
          ++ ((bytes "http_response_code", number_value (pos info.response_code)) ∷ [])
          ++ number_field (bytes "request_size_in_bytes") info.request_size
          ++ text_field (bytes "request_headers") info.request_headers
          ++ number_field (bytes "response_size_in_bytes") info.response_size
          ++ text_field (bytes "response_headers") info.response_headers
          ++ number_field (bytes "request_latency_in_ms") info.latency.request_time_ms
          ++ text_field (bytes "http_method") info.http_method
          ++ text_field (bytes "client_ip") info.operation.client_ip
          ++ error_fields info);
}

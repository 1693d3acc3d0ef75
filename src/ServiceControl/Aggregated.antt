-- ===== src/ServiceControl/Aggregated.antt =====
-- `Check`, `Quota`, `Report` and the transport of src/api_manager/service_control/aggregated.cc. The
-- client of service control, which caches and aggregates, is a parameter. The rollout ids of responses
-- and the statistics are left out.
use esp.Base.{
  ℕ, Bool, ◌&&◌, ◌||◌, Option, none, some, List, [], ◌∷◌, ◌++◌, Str, bytes, is_empty, ◌==◌,
  if◌then◌else◌,
}
use esp.Base.Int.{ℤ, pos, negsuc}
use esp.StatusCode.{canonical_code}
use esp.StatusCode.Code
use esp.StatusCode.Names.{Status, ok_status, is_ok, internal, decimal}
use esp.RequestContext.{CheckResponseInfo, default_check_response}
use esp.RequestContext.Operation.{CheckRequestInfo, QuotaRequestInfo}
use esp.RequestContext.Report.{ReportRequestInfo}
use esp.Workflow.Control.{ServiceControl, control_failure}
use esp.ServiceControl.Convert.{
  CheckResponse, convert_check_response, QuotaError, convert_allocate_quota_response,
}
use esp.ServiceControl.Labels.{Encoding}
use esp.ServiceControl.Fill.{
  Proto, CheckRequest, QuotaRequest, ReportRequest, Filled, filled, not_filled, fill_check_request,
  fill_allocate_quota_request, fill_report_request,
}

-- A status of protobuf, and `ToProto`.
pub record ProtoStatus : Type 0 where
  pub error_code : ℕ
  pub error_message : Str

abbrev pub to_proto : Status → ProtoStatus
to_proto s = record { error_code = canonical_code s.code; error_message = s.message }

abbrev pub proto_ok : ProtoStatus → Bool
proto_ok s = s.error_code == Code.ok

abbrev pub Answer : Type 0 → Type 0
Answer R = ProtoStatus × R

abbrev pub internal_failure : ℤ → Str → Status
internal_failure code message = record { code = code; message = message; error_cause = internal }

-- The status for a response that is no success.
abbrev pub failure_message : ℕ → Str → Str
failure_message code body =
    if is_empty body
    then bytes "Service control request failed with HTTP response code " ++ decimal code
    else body

abbrev pub call_failure : ℤ → Str → Status
call_failure (negsuc k) body =
    internal_failure (pos Code.unavailable) (bytes "Failed to connect to service control")
call_failure (pos c) body = internal_failure (pos c) (failure_message c body)

abbrev pub parsed_or : {R : Type 0} → R → Option R → Answer R
parsed_or empty none =
    (to_proto (internal_failure (pos Code.invalid_argument) (bytes "Invalid response")), empty)
parsed_or empty (some response) = (to_proto ok_status, response)

-- `Call`: what the transport makes of an HTTP response, for an empty response and `ParseFromString`.
unfoldable pub call : {R : Type 0} → R → (Str → Option R) → Status → Str → Answer R
call empty parse status body =
    if is_ok status
    then parsed_or empty (parse body)
    else (to_proto (call_failure status.code body), empty)

-- `StatusCodeIs5xxHttpCode`.
unfoldable pub status_code_is_5xx : ℕ → Bool
status_code_is_5xx code =
    code == Code.unavailable
    || (code == Code.internal || (code == Code.unimplemented || code == Code.deadline_exceeded))

-- What is outside: the client, given the transport, and the HTTP responses with their bodies.
pub record Client : Type 0 where
  pub check : (CheckRequest → Answer CheckResponse) → CheckRequest → Answer CheckResponse
  pub quota :
      (QuotaRequest → Answer (List (QuotaError × Str)))
      → QuotaRequest
      → Answer (List (QuotaError × Str))
  pub http_check : CheckRequest → Status × Str
  pub http_quota : QuotaRequest → Status × Str
  pub parse_check : Str → Option CheckResponse
  pub parse_quota : Str → Option (List (QuotaError × Str))

abbrev pub no_check_response : CheckResponse
no_check_response = record { project_number = 0; check_errors = [] }

abbrev pub missing_client : Status
missing_client = internal_failure (pos Code.internal) (bytes "Missing service control client")

module _ (proto : Proto) (e : Encoding) (network_fail_open : Bool) where
  abbrev pub check_call : Client → CheckRequest → Answer CheckResponse
  check_call client request =
      call no_check_response client.parse_check (client.http_check request).0
        (client.http_check request).1

  -- A code that is no 5xx code becomes 500.
  abbrev pub preserved : ℕ → ℕ
  preserved code = if status_code_is_5xx code then code else Code.internal

  -- `check_on_done`.
  unfoldable pub check_on_done : Answer CheckResponse → Status × CheckResponseInfo
  check_on_done (status, response) =
      if proto_ok status
      then convert_check_response proto.service_name response
      else if network_fail_open && status_code_is_5xx status.error_code
      then (ok_status, default_check_response)
      else (
        control_failure (preserved status.error_code) status.error_message,
        default_check_response,
      )

  abbrev pub check_filled : Client → Filled CheckRequest → Status × CheckResponseInfo
  check_filled client (filled request) = check_on_done (client.check (check_call client) request)
  check_filled client (not_filled status) = (status, default_check_response)

  -- `Check`, at a time.
  unfoldable pub check : Option Client → ℕ → CheckRequestInfo → Status × CheckResponseInfo
  check none now info = (missing_client, default_check_response)
  check (some client) now info = check_filled client (fill_check_request proto e now info)

  abbrev pub quota_on_done : Answer (List (QuotaError × Str)) → Status
  quota_on_done (status, errors) =
      if proto_ok status
      then convert_allocate_quota_response errors
      else control_failure status.error_code status.error_message

  abbrev pub quota_call : Client → QuotaRequest → Answer (List (QuotaError × Str))
  quota_call client request =
      call [] client.parse_quota (client.http_quota request).0 (client.http_quota request).1

  -- `Quota`.
  unfoldable pub quota : Option Client → QuotaRequestInfo → Status
  quota none info = missing_client
  quota (some client) info =
      quota_on_done (client.quota (quota_call client) (fill_allocate_quota_request proto e info))

  abbrev pub report_filled : Filled ReportRequest → Status × List ReportRequest
  report_filled (filled request) = (ok_status, request ∷ [])
  report_filled (not_filled status) = (status, [])

  -- `Report`, with what is handed to the client.
  unfoldable pub report : Option Client → ℕ → ReportRequestInfo → Status × List ReportRequest
  report none now info = (missing_client, [])
  report (some client) now info = report_filled (fill_report_request proto e now info)

  -- The service control that the workflow is given, at a time.
  abbrev pub as_service_control : Option Client → ℕ → ServiceControl
  as_service_control client now = record { check = check client now; quota = quota client }

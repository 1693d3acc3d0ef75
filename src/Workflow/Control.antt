-- ===== src/Workflow/Control.antt =====
-- The handlers of service control, src/api_manager/check_service_control.cc and
-- src/api_manager/quota_control.cc.
use esp.Base.{ℕ, not, ◌||◌, Option, none, some, Str, bytes, str_eq, is_empty, if◌then◌else◌}
use esp.Base.Int.{pos}
use esp.StatusCode.Code
use esp.StatusCode.Names.{Status, ok_status, service_control, code_eq}
use esp.MethodInfo.{MethodInfo}
use esp.RequestContext.{
  Service, RequestContext, CheckResponseInfo, method, add_header_to_backend,
  http_method_with_override,
}
use esp.RequestContext.Operation.{
  CheckRequestInfo, QuotaRequestInfo, fill_check_request_info, fill_quota_request_info,
}
use esp.Workflow.{Handler}

-- The service control client: what `Check` and `Quota` answer.
pub record ServiceControl : Type 0 where
  pub check : CheckRequestInfo → Status × CheckResponseInfo
  pub quota : QuotaRequestInfo → Status

-- How a run of the workflow ends: `CompleteCheck`, or the use of a null pointer.
pub data Ending : Type 0 where
  completed : Status → RequestContext → Ending
  null_pointer : Ending

abbrev pub control_failure : ℕ → Str → Status
control_failure code message = record {
  code = pos code;
  message = message;
  error_cause = service_control;
}

abbrev pub not_configured : RequestContext → Status
not_configured c =
    if str_eq (http_method_with_override c.request) (bytes "OPTIONS")
    then control_failure Code.permission_denied (bytes "The service does not allow CORS traffic.")
    else control_failure Code.not_found (bytes "Method does not exist.")

abbrev pub unregistered_message : Str
unregistered_message =
    bytes
      "Method doesn't allow unregistered callers (callers without established identity). Please use API Key or other form of API consumer identity to call this API."

abbrev pub k_consumer_project_id : Str
k_consumer_project_id = bytes "X-Endpoint-API-Project-ID"

-- What the answer of `Check` sets in the context.
unfoldable pub with_check_response : CheckResponseInfo → RequestContext → RequestContext
with_check_response info c =
    let checked = record c { check_response_info = info } in
    if is_empty info.consumer_project_id
    then checked
    else add_header_to_backend k_consumer_project_id info.consumer_project_id checked

module _ (service : Service) (client : ServiceControl) where
  abbrev pub check_method_call :
      RequestContext → Option MethodInfo → (Status → RequestContext → Ending) → Ending
  check_method_call c none continuation = continuation (not_configured c) c
  check_method_call c (some m) continuation =
      if not service.has_service_control || m.skip_service_control
      then continuation ok_status c
      else if is_empty c.api_key
      then if m.allow_unregistered_calls
        then continuation ok_status c
        else continuation (control_failure Code.unauthenticated unregistered_message) c
      else continuation (client.check (fill_check_request_info service c)).0
          (with_check_response (client.check (fill_check_request_info service c)).1 c)

  -- `CheckServiceControl`.
  unfoldable pub check_service_control : Handler RequestContext Ending
  check_service_control c continuation = check_method_call c (method c) continuation

  -- The policy of quota control is to let a request go where the server is not available.
  abbrev pub failed_open : Status → Status
  failed_open status = if code_eq status.code (pos Code.unavailable) then ok_status else status

  abbrev pub quota_method_call :
      RequestContext → Option MethodInfo → (Status → RequestContext → Ending) → Ending
  quota_method_call c none continuation = null_pointer
  quota_method_call c (some m) continuation =
      if is_empty m.metric_cost_vector || m.skip_service_control
      then continuation ok_status c
      else if service.has_service_control
      then continuation (failed_open (client.quota (fill_quota_request_info service c m))) c
      else null_pointer

  -- `QuotaControl`.
  unfoldable pub quota_control : Handler RequestContext Ending
  quota_control c continuation = quota_method_call c (method c) continuation

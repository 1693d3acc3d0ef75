-- ===== src/ServiceControl/Examples.antt =====
-- Runs of the requests and answers of service control and concrete cases of the theorems on them.
use esp.Base.{refl, true, ◌&&◌, none, some, ◌+◌, ◌≡◌, ◌⊎◌, false, [], ◌∷◌, bytes}
use esp.Base.Int.{pos}
use esp.StatusCode.Names.{Status, is_ok, auth, internal}
use esp.RequestContext.{get_method_call_info, http_method_with_override}
use esp.RequestContext.Operation.{
  OperationInfo, CheckRequestInfo, fill_operation_info, fill_check_request_info,
}
use esp.StatusCode.{canonical_code, canonical_of_http}
use esp.ServiceControl.LogEntry.{create_timestamp}
use esp.ServiceControl.Labels.{Encoding}
use esp.ServiceControl.Fill.{
  common_operation, quota_consumer_of, Proto, full_proto, fill_check_request,
}
use esp.ServiceControl.Aggregated.{Client, check, check_on_done, call, status_code_is_5xx}
use esp.ServiceControl.FailOpen.{is_server_error, check-fails_open}
use esp.RequestContext.Report.{ReportRequestInfo, fill_final}
use esp.RequestContext.Report.Deltas.{attempts, new_progress}
use esp.RequestContext.Examples.{library, context, logging, stream_at, response, ticks}
use esp.Workflow.Control.{with_check_response}
use esp.ServiceControl.Convert.{
  CheckResponse, api_key_expired, quota_check_unavailable, are_rejecting, project_consumer,
  convert_check_response, convert_check_response_lem,
}
use esp.ServiceControl.Once.{accepted_counts, counts, counted-once}

-- The key has expired; the second error does not count.
abbrev expired_response : CheckResponse
expired_response = record {
  project_number = 7;
  check_errors = api_key_expired ∷ quota_check_unavailable ∷ [];
}

abbrev expired : Status
expired = (convert_check_response (bytes "library") expired_response).0

abbrev expired_operation : OperationInfo
expired_operation =
    fill_operation_info library
      (with_check_response (convert_check_response (bytes "library") expired_response).1 context)

convert_check_response_lem_example :
    ((are_rejecting expired_response.check_errors ≡ false)
      × (expired_operation.api_key ≡ context.api_key))
    ⊎ ((are_rejecting expired_response.check_errors ≡ true)
        × (is_ok expired ≡ false)
        × (expired_operation.api_key ≡ [])
        × ((common_operation expired_operation (create_timestamp 5)).consumer_id ≡ [])
        × (quota_consumer_of expired_operation
            ≡ project_consumer expired_operation.producer_project_id))
convert_check_response_lem_example =
    convert_check_response_lem library context (bytes "library") 5 expired_response

-- Service control does not accept the first report.
abbrev refuse : ReportRequestInfo → Status
refuse info = record { code = pos 14; message = []; error_cause = auth }

counted-once_example :
    accepted_counts library logging context refuse
        (attempts library logging context refuse ticks (new_progress 0)).1
      + counts (
          fill_final library logging context 1000
            (stream_at 100)
            response
            (attempts library logging context refuse ticks (new_progress 0)).0)
    ≡ 1
counted-once_example =
    counted-once library logging context refuse ticks 0 1000 (stream_at 100) response

abbrev encoding : Encoding
encoding = record { base64_encode = λ s. some s; version = bytes "1" }

abbrev proto : Proto
proto = full_proto (bytes "log" ∷ []) (bytes "library") (bytes "config")

-- Nothing is cached, and the server answers 503.
abbrev unavailable : Status
unavailable = record { code = pos 503; message = []; error_cause = internal }

abbrev client : Client
client = record {
  check = λ transport request. transport request;
  quota = λ transport request. transport request;
  http_check = λ request. (unavailable, bytes "down");
  http_quota = λ request. (unavailable, []);
  parse_check = λ body. none;
  parse_quota = λ body. none;
}

abbrev check_info : CheckRequestInfo
check_info = fill_check_request_info library context

check-fails_open_example :
    is_ok (check proto encoding true (some client) 5 check_info).0
    ≡ true && is_server_error (pos 503)
unfolding fill_check_request fill_check_request_info fill_operation_info get_method_call_info
    http_method_with_override
check-fails_open_example =
    check-fails_open proto encoding true client 5 check_info _ unavailable (bytes "down") refl refl
      refl refl

-- Where the network does not fail open, the status has the code of a 503 response.
closed : (check proto encoding false (some client) 5 check_info).0.code ≡ pos 14
unfolding fill_check_request fill_check_request_info fill_operation_info get_method_call_info
    http_method_with_override check check_on_done call is_ok canonical_code canonical_of_http
    status_code_is_5xx
closed = refl

-- ===== src/RequestContext/Examples.antt =====
-- A service and a request to it, runs of the request's context, and concrete cases of the theorems on
-- its reports.
use esp.Base.{
  ℕ, ◌≡◌, refl, true, false, none, some, List, [], ◌∷◌, ◌++◌, bytes, str_eq, if◌then◌else◌,
}
use esp.Base.Int.{pos, negsuc, ◌+ℤ◌}
use esp.StatusCode.Names.{Status, ok_status}
use esp.Request.{Request, http, unknown}
use esp.MethodInfo.{MethodInfo, new_method_info, constant_address}
use esp.PathMatcher.Request.{split}
use esp.RequestContext.{
  Service, RequestContext, new_context, get_method_call_info, extract_api_key, first_found,
  http_method_with_override, method,
}
use esp.RequestContext.ClientIp.{find_client_ip_address, drop_heading, drop_tailing}
use esp.RequestContext.BackendPath.{get_backend_path, parameters_of, field_path_of, field_name}
use esp.RequestContext.Report.{Logging, Stream, Response, no_latency, ReportRequestInfo, report}
use esp.RequestContext.Report.Deltas.{total, larger, new_progress, attempts, report-total}

abbrev pub shelf : MethodInfo
shelf = record (new_method_info (bytes "GetShelf") (bytes "library") (bytes "v1")) {
  selector = bytes "library.GetShelf";
  backend_path = bytes "/shelf";
  backend_path_translation = constant_address;
  metric_cost_vector = (bytes "reads", pos 1) ∷ [];
}

-- It serves GET requests of one method.
abbrev pub library : Service
library = record {
  method_call_info = λ http_method url query.
      if str_eq http_method (bytes "GET")
      then record {
        method_info = some shelf;
        variable_bindings =
            record { field_path = bytes "shelf_id" ∷ []; value = bytes "7" }
            ∷ record { field_path = bytes "a" ∷ bytes "b" ∷ []; value = bytes "x" }
            ∷ [];
      }
      else record { method_info = none; variable_bindings = [] };
  has_service_control = true;
  gcp_project_id = [];
  producer_project_id = bytes "project";
  has_client_ip_extraction = true;
  client_ip_header = bytes "X-Forwarded-For";
  client_ip_position = negsuc 1;
  json_name = λ name. if str_eq name (bytes "shelf_id") then some (bytes "shelfId") else none;
}

abbrev pub head_request : Request
head_request = record {
  frontend_protocol = http;
  backend_protocol = unknown;
  http_method = bytes "HEAD";
  unparsed_path = bytes "/shelves/7";
  path = bytes "/shelves/7";
  query_parameters = bytes "key=k";
  client_ip = bytes "127.0.0.1";
  client_host = [];
  find_header = λ name.
      if str_eq name (bytes "X-Forwarded-For")
      then some (bytes "1.2.3.4, 5.6.7.8 ,9.9.9.9")
      else none;
  find_query = λ name. if str_eq name (bytes "key") then some (bytes "k") else none;
}

abbrev pub context : RequestContext
context = new_context library head_request 1000 (bytes "id")

-- A HEAD request is served as GET, with the key of its query.
head_context : (method context ≡ some shelf) × (context.api_key ≡ bytes "k")
unfolding get_method_call_info http_method_with_override extract_api_key first_found
head_context = (refl, refl)

client_ip : find_client_ip_address library head_request ≡ bytes "5.6.7.8"
unfolding find_client_ip_address drop_heading drop_tailing split ◌+ℤ◌
client_ip = refl

backend_path : get_backend_path library context ≡ bytes "/shelf?shelfId=7&a.b=x"
unfolding get_backend_path parameters_of field_path_of field_name get_method_call_info
    http_method_with_override
backend_path = refl

abbrev pub logging : Logging
logging = record {
  location = bytes "us";
  platform = bytes "GKE";
  has_service_control_config = false;
  log_request_header = [];
  log_response_header = [];
  log_jwt_payload = [];
  field_value = λ claims path. none;
  intermediate_report_interval = 10;
}

abbrev pub stream_at : ℕ → Stream
stream_at n = record {
  grpc_request_bytes = pos n;
  grpc_response_bytes = pos 0;
  grpc_request_message_counts = pos 1;
  grpc_response_message_counts = pos 0;
}

abbrev pub response : Response
response = record {
  status = ok_status;
  request_size = 120;
  response_size = 30;
  latency = no_latency;
  find_header = λ name. none;
}

-- The second of the ticks is too early for a report.
abbrev pub ticks : List (ℕ × Stream)
ticks =
    (10000000000, stream_at 50) ∷ (12000000000, stream_at 70) ∷ (20000000000, stream_at 100) ∷ []

abbrev send : ReportRequestInfo → Status
send info = ok_status

report-total_example :
    (total
        (λ i. i.request_bytes)
        ((attempts library logging context send ticks (new_progress 0)).1
          ++ report library logging context 1000
              (stream_at 100)
              response
              (attempts library logging context send ticks (new_progress 0)).0)
      ≡ larger
          (pos 120)
          (attempts library logging context send ticks (new_progress 0)).0.last_request_bytes)
    × (total
          (λ i. i.response_bytes)
          ((attempts library logging context send ticks (new_progress 0)).1
            ++ report library logging context 1000
                (stream_at 100)
                response
                (attempts library logging context send ticks (new_progress 0)).0)
        ≡ larger
            (pos 30)
            (attempts library logging context send ticks (new_progress 0)).0.last_response_bytes)
unfolding get_method_call_info http_method_with_override
report-total_example =
    report-total library logging context send ticks 0 1000 (stream_at 100) response refl refl

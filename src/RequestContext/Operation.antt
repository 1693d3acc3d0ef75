-- ===== src/RequestContext/Operation.antt =====
-- What service control is told of a request: `OperationInfo` and the structs that extend it, of
-- src/api_manager/service_control/info.h, as src/api_manager/context/request_context.cc fills them.
use esp.Base.{ℕ, ◌&&◌, Option, none, some, List, [], Str, bytes, if◌then◌else◌}
use esp.Base.Int.{ℤ}
use esp.MethodInfo.{MethodInfo}
use esp.RequestContext.{Service, RequestContext, method, or_else, project_id}
use esp.RequestContext.ClientIp.{find_client_ip_address}

pub record OperationInfo : Type 0 where
  pub operation_id : Str
  pub operation_name : Str
  pub producer_project_id : Str
  pub api_key : Str
  pub referer : Str
  pub request_start_time : ℕ
  pub client_ip : Str
  pub client_host : Str

pub record CheckRequestInfo : Type 0 where
  pub operation : OperationInfo
  pub android_package_name : Str
  pub android_cert_fingerprint : Str
  pub ios_bundle_id : Str

pub record QuotaRequestInfo : Type 0 where
  pub operation : OperationInfo
  pub method_name : Str
  pub metric_cost_vector : List (Str × ℤ)

abbrev pub k_unrecognized_operation : Str
k_unrecognized_operation = bytes "<Unknown Operation Name>"

abbrev pub operation_name_of : Option MethodInfo → Str
operation_name_of none = k_unrecognized_operation
operation_name_of (some m) = m.selector

-- `FillOperationInfo`.
unfoldable pub fill_operation_info : Service → RequestContext → OperationInfo
fill_operation_info service c = record {
  operation_id = c.operation_id;
  operation_name = operation_name_of (method c);
  producer_project_id = project_id service;
  api_key =
      if c.check_response_info.is_api_key_valid && c.check_response_info.service_is_activated
      then c.api_key
      else [];
  referer = c.http_referer;
  request_start_time = c.start_time;
  client_ip = find_client_ip_address service c.request;
  client_host = c.request.client_host;
}

-- `FillCheckRequestInfo`.
unfoldable pub fill_check_request_info : Service → RequestContext → CheckRequestInfo
fill_check_request_info service c = record {
  operation = fill_operation_info service c;
  android_package_name = or_else (c.request.find_header (bytes "x-android-package")) [];
  android_cert_fingerprint = or_else (c.request.find_header (bytes "x-android-cert")) [];
  ios_bundle_id = or_else (c.request.find_header (bytes "x-ios-bundle-identifier")) [];
}

-- `FillAllocateQuotaRequestInfo`, for the method of the context.
unfoldable pub fill_quota_request_info : Service → RequestContext → MethodInfo → QuotaRequestInfo
fill_quota_request_info service c m = record {
  operation = fill_operation_info service c;
  method_name = m.name;
  metric_cost_vector = m.metric_cost_vector;
}

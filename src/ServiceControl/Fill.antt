-- ===== src/ServiceControl/Fill.antt =====
-- The requests to service control: `FillCheckRequest`, `FillAllocateQuotaRequest`,
-- `FillReportRequest` and `AppendByConsumerOperations` of src/api_manager/service_control/proto.cc.
use esp.Base.{
  ℕ, Bool, true, false, not, ◌&&◌, ◌||◌, Option, none, some, List, [], ◌∷◌, ◌++◌, Str, bytes,
  is_empty, contains, map, leb, if◌then◌else◌,
}
use esp.Base.Int.{ℤ, pos, negsuc}
use esp.StatusCode.Code
use esp.StatusCode.Names.{Status}
use esp.MethodInfo.{map_update}
use esp.RequestContext.Operation.{OperationInfo, CheckRequestInfo, QuotaRequestInfo}
use esp.RequestContext.Report.{ReportRequestInfo}
use esp.Workflow.Control.{control_failure}
use esp.ServiceControl.Labels.{
  Encoding, Labels, Kind, user, system, SupportedLabel, supported_labels, labelled, failed,
  add_labels,
}
use esp.ServiceControl.Metrics.{
  MetricValue, Mark, SupportedMetric, supported_metrics, add_metrics, sends_mark, sends_by_consumer,
}
use esp.ServiceControl.LogEntry.{Timestamp, create_timestamp, LogEntry, fill_log_entry}

-- `Proto`: the logs, the metrics and the labels that are sent.
pub record Proto : Type 0 where
  pub logs : List Str
  pub metrics : List SupportedMetric
  pub labels : List SupportedLabel
  pub service_name : Str
  pub service_config_id : Str

abbrev pub is_set : SupportedLabel → Bool
is_set l = elim l.set [ none ↦ false | some set ↦ true ]

abbrev pub is_system : Kind → Bool
is_system user = false
is_system system = true

-- `FilterPointers`.
unfoldable pub filter_pointers : {A : Type 0} → (A → Bool) → List A → List A
filter_pointers p [] = []
filter_pointers p (x ∷ xs) = let rest = filter_pointers p xs in if p x then x ∷ rest else rest

-- The constructors: all that is supported, or what the service configures.
abbrev pub full_proto : List Str → Str → Str → Proto
full_proto logs service_name service_config_id = record {
  logs = logs;
  metrics = supported_metrics;
  labels = filter_pointers is_set supported_labels;
  service_name = service_name;
  service_config_id = service_config_id;
}

abbrev pub configured_proto : List Str → List Str → List Str → Str → Str → Proto
configured_proto logs metrics labels service_name service_config_id = record {
  logs = logs;
  metrics = filter_pointers (λ m. contains metrics m.name) supported_metrics;
  labels =
      filter_pointers (λ l. is_set l && (is_system l.kind || contains labels l.name))
        supported_labels;
  service_name = service_name;
  service_config_id = service_config_id;
}

pub record Operation : Type 0 where
  pub operation_id : Str
  pub operation_name : Str
  pub consumer_id : Str
  pub start_time : Timestamp
  pub end_time : Timestamp
  pub labels : Labels
  pub metric_value_sets : List (Str × MetricValue)
  pub log_entries : List LogEntry

-- A request, or the status of what failed.
pub data Filled (A : Type 0) : Type 0 where
  filled : A → Filled A
  not_filled : Status → Filled A

-- `SetOperationCommonFields`, of a new operation. A field that is not set is empty.
abbrev pub consumer_of : Str → Str
consumer_of api_key = if is_empty api_key then [] else bytes "api_key:" ++ api_key

unfoldable pub common_operation : OperationInfo → Timestamp → Operation
common_operation info current_time = record {
  operation_id = info.operation_id;
  operation_name = info.operation_name;
  consumer_id = consumer_of info.api_key;
  start_time = current_time;
  end_time = current_time;
  labels = [];
  metric_value_sets = [];
  log_entries = [];
}

abbrev pub label_if_set : Str → Str → Labels → Labels
label_if_set name s labels = if is_empty s then labels else map_update name s (λ old. s) labels

abbrev pub put_label : Str → Str → Labels → Labels
put_label name s labels = map_update name s (λ old. s) labels

-- The labels that checks and quota requests have.
abbrev pub caller_labels : Encoding → OperationInfo → Labels
caller_labels e info =
    put_label (bytes "servicecontrol.googleapis.com/service_agent") (bytes "ESP/" ++ e.version) (
      put_label (bytes "servicecontrol.googleapis.com/user_agent") (bytes "ESP") (
        label_if_set (bytes "servicecontrol.googleapis.com/referer") info.referer
          (label_if_set (bytes "servicecontrol.googleapis.com/caller_ip") info.client_ip [])))

-- `VerifyRequiredCheckFields`: the message, where a field is missing.
abbrev pub missing_field : OperationInfo → Option Str
missing_field info =
    if is_empty info.operation_id
    then some (bytes "operation_id is required.")
    else if is_empty info.operation_name
    then some (bytes "operation_name is required.")
    else none

pub record CheckRequest : Type 0 where
  pub service_name : Str
  pub service_config_id : Str
  pub operation : Operation

-- `FillCheckRequest`.
unfoldable pub fill_check_request : Proto → Encoding → ℕ → CheckRequestInfo → Filled CheckRequest
fill_check_request proto e now info = elim (missing_field info.operation) [
  | some message ↦ not_filled (control_failure Code.invalid_argument message)
  | none ↦ filled (record {
    service_name = proto.service_name;
    service_config_id = proto.service_config_id;
    operation = record (common_operation info.operation (create_timestamp now)) {
      labels =
          label_if_set (bytes "servicecontrol.googleapis.com/ios_bundle_id") info.ios_bundle_id (
            label_if_set (bytes "servicecontrol.googleapis.com/android_cert_fingerprint")
              info.android_cert_fingerprint
              (label_if_set (bytes "servicecontrol.googleapis.com/android_package_name")
                info.android_package_name (caller_labels e info.operation)));
    };
  })
]

pub record QuotaRequest : Type 0 where
  pub service_name : Str
  pub service_config_id : Str
  pub operation_id : Str
  pub method_name : Str
  pub consumer_id : Str
  pub labels : Labels
  pub quota_metrics : List (Str × ℤ)

abbrev pub quota_consumer_of : OperationInfo → Str
quota_consumer_of info =
    if not (is_empty info.api_key)
    then bytes "api_key:" ++ info.api_key
    else if is_empty info.producer_project_id
    then []
    else bytes "project:" ++ info.producer_project_id

-- A cost is at least 1.
abbrev pub cost_of : ℤ → ℤ
cost_of (pos n) = if leb 1 n then pos n else pos 1
cost_of (negsuc k) = pos 1

-- `FillAllocateQuotaRequest`.
unfoldable pub fill_allocate_quota_request : Proto → Encoding → QuotaRequestInfo → QuotaRequest
fill_allocate_quota_request proto e info = record {
  service_name = proto.service_name;
  service_config_id = proto.service_config_id;
  operation_id = info.operation.operation_id;
  method_name = info.method_name;
  consumer_id = quota_consumer_of info.operation;
  labels = caller_labels e info.operation;
  quota_metrics = map (λ metric. (metric.0, cost_of metric.1)) info.metric_cost_vector;
}

pub record ReportRequest : Type 0 where
  pub service_name : Str
  pub service_config_id : Str
  pub operations : List Operation

-- The labels and the metrics of an operation, where it can be told which operation it is.
abbrev pub measured :
    Proto → Encoding → ReportRequestInfo → Bool → (Mark → Bool) → Operation → Filled Operation
measured proto e info all sends op =
    if is_empty info.operation.operation_id || is_empty info.operation.operation_name
    then filled op
    else elim (add_labels e info all proto.labels op.labels) [
      | labelled labels ↦
          filled (record op {
            labels = labels;
            metric_value_sets = add_metrics sends info proto.metrics;
          })
      | failed status ↦ not_filled status
    ]

-- `AppendByConsumerOperations`.
abbrev pub by_consumer_operation :
    Proto → Encoding → Timestamp → ReportRequestInfo → Filled Operation
by_consumer_operation proto e current_time info =
    let op = common_operation info.operation current_time in
    measured proto e info true sends_by_consumer
      (record op { operation_id = op.operation_id ++ bytes "1" })

abbrev pub with_log_entries :
    Proto → Encoding → Timestamp → ReportRequestInfo → Operation → Operation
with_log_entries proto e current_time info op =
    if info.is_final_report
    then record op {
      log_entries =
          map (λ name. fill_log_entry e info name proto.service_config_id current_time) proto.logs;
    }
    else op

abbrev pub report_of : Proto → List Operation → ReportRequest
report_of proto operations = record {
  service_name = proto.service_name;
  service_config_id = proto.service_config_id;
  operations = operations;
}

abbrev pub append_by_consumer :
    Proto → Encoding → Timestamp → ReportRequestInfo → Operation → Filled ReportRequest
append_by_consumer proto e current_time info op =
    if is_empty info.check_response_info.consumer_project_id
    then filled (report_of proto (op ∷ []))
    else elim (by_consumer_operation proto e current_time info) [
      | filled consumer ↦ filled (report_of proto (op ∷ consumer ∷ []))
      | not_filled status ↦ not_filled status
    ]

-- `FillReportRequest`.
unfoldable pub fill_report_request : Proto → Encoding → ℕ → ReportRequestInfo → Filled ReportRequest
fill_report_request proto e now info =
    let current_time = create_timestamp now in
    elim (measured proto e info false (sends_mark (not (is_empty info.operation.api_key)))
      (common_operation info.operation current_time)) [
        | filled op ↦
            append_by_consumer proto e current_time info
              (with_log_entries proto e current_time info op)
        | not_filled status ↦ not_filled status
      ]

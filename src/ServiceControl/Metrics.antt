-- ===== src/ServiceControl/Metrics.antt =====
-- The metrics of a report, src/api_manager/service_control/proto.cc. The helper for distributions
-- belongs to the service control client: a distribution is its options and its sample, and it is not
-- refused.
use esp.Base.{
  Bool, true, false, ◌&&◌, Option, none, some, List, [], ◌∷◌, ◌++◌, Str, bytes, leb, if◌then◌else◌,
}
use esp.Base.Int.{ℤ, pos, negsuc}
use esp.RequestContext.Report.{ReportRequestInfo}

-- `DistributionHelperOptions`: the two that are used.
pub data Distribution : Type 0 where
  time_distribution size_distribution : Distribution

-- A sample: a number, or a number of milliseconds taken as seconds.
pub data Sample : Type 0 where
  plain : ℤ → Sample
  seconds_of_ms : ℤ → Sample

pub data MetricValue : Type 0 where
  int64_value : ℤ → MetricValue
  distribution_value : Distribution → Sample → MetricValue

-- `Mark` and `Tag` of `SupportedMetric`.
pub data Mark : Type 0 where
  producer consumer producer_by_consumer : Mark

pub data Tag : Type 0 where
  start intermediate final : Tag

-- What is added to the operation, if anything.
abbrev pub Setter : Type 0
Setter = ReportRequestInfo → Option MetricValue

pub record SupportedMetric : Type 0 where
  pub name : Str
  pub tag : Tag
  pub mark : Mark
  pub set : Setter

abbrev pub if_not_negative : (ℤ → MetricValue) → ℤ → Option MetricValue
if_not_negative value (pos n) = some (value (pos n))
if_not_negative value (negsuc k) = none

abbrev pub if_positive : (ℤ → MetricValue) → ℤ → Option MetricValue
if_positive value (pos n) = if leb 1 n then some (value (pos n)) else none
if_positive value (negsuc k) = none

abbrev pub size_sample : ℤ → MetricValue
size_sample n = distribution_value size_distribution (plain n)

abbrev pub time_sample : ℤ → MetricValue
time_sample n = distribution_value time_distribution (seconds_of_ms n)

abbrev pub set_constant_1 : Setter
set_constant_1 info = some (int64_value (pos 1))

abbrev pub set_constant_1_if_http_error : Setter
set_constant_1_if_http_error info =
    if leb 400 info.response_code then some (int64_value (pos 1)) else none

abbrev pub set_request_size : Setter
set_request_size info = if_not_negative size_sample info.request_size

abbrev pub set_response_size : Setter
set_response_size info = if_not_negative size_sample info.response_size

abbrev pub set_request_time : Setter
set_request_time info = if_not_negative time_sample info.latency.request_time_ms

abbrev pub set_backend_time : Setter
set_backend_time info = if_not_negative time_sample info.latency.backend_time_ms

abbrev pub set_overhead_time : Setter
set_overhead_time info = if_not_negative time_sample info.latency.overhead_time_ms

abbrev pub set_request_bytes : Setter
set_request_bytes info = if_positive int64_value info.request_bytes

abbrev pub set_response_bytes : Setter
set_response_bytes info = if_positive int64_value info.response_bytes

abbrev pub set_streaming_request_message_counts : Setter
set_streaming_request_message_counts info =
    if_positive size_sample info.streaming_request_message_counts

abbrev pub set_streaming_response_message_counts : Setter
set_streaming_response_message_counts info =
    if_positive size_sample info.streaming_response_message_counts

abbrev pub set_streaming_durations : Setter
set_streaming_durations info =
    if_positive (λ n. distribution_value time_distribution (plain n)) (pos info.streaming_durations)

abbrev pub metric_prefix : Str
metric_prefix = bytes "serviceruntime.googleapis.com/api/"

abbrev pub metric : Str → Tag → Mark → Setter → SupportedMetric
metric name tag mark set = record {
  name = metric_prefix ++ name;
  tag = tag;
  mark = mark;
  set = set;
}

-- The table, in its order: requests with their sizes, bytes with errors, and latencies with streams.
-- Every one is a delta.
abbrev pub request_metrics : List SupportedMetric
request_metrics =
    metric (bytes "consumer/request_count") start consumer set_constant_1
    ∷ metric (bytes "producer/request_count") start producer set_constant_1
    ∷ metric (bytes "producer/by_consumer/request_count") final producer_by_consumer set_constant_1
    ∷ metric (bytes "consumer/request_sizes") final consumer set_request_size
    ∷ metric (bytes "producer/request_sizes") final producer set_request_size
    ∷ metric (bytes "producer/by_consumer/request_sizes") final producer_by_consumer
        set_request_size
    ∷ metric (bytes "consumer/response_sizes") final consumer set_response_size
    ∷ metric (bytes "producer/response_sizes") final producer set_response_size
    ∷ metric (bytes "producer/by_consumer/response_sizes") final producer_by_consumer
        set_response_size
    ∷ []

abbrev pub byte_metrics : List SupportedMetric
byte_metrics =
    metric (bytes "consumer/request_bytes") intermediate consumer set_request_bytes
    ∷ metric (bytes "consumer/response_bytes") intermediate consumer set_response_bytes
    ∷ metric (bytes "producer/request_bytes") intermediate producer set_request_bytes
    ∷ metric (bytes "producer/response_bytes") intermediate producer set_response_bytes
    ∷ metric (bytes "consumer/error_count") final consumer set_constant_1_if_http_error
    ∷ metric (bytes "producer/error_count") final producer set_constant_1_if_http_error
    ∷ metric (bytes "producer/by_consumer/error_count") final producer_by_consumer
        set_constant_1_if_http_error
    ∷ []

abbrev pub latency_metrics : List SupportedMetric
latency_metrics =
    metric (bytes "consumer/total_latencies") final consumer set_request_time
    ∷ metric (bytes "producer/total_latencies") final producer set_request_time
    ∷ metric (bytes "producer/by_consumer/total_latencies") final producer_by_consumer
        set_request_time
    ∷ metric (bytes "consumer/backend_latencies") final consumer set_backend_time
    ∷ metric (bytes "producer/backend_latencies") final producer set_backend_time
    ∷ metric (bytes "producer/by_consumer/backend_latencies") final producer_by_consumer
        set_backend_time
    ∷ metric (bytes "consumer/request_overhead_latencies") final consumer set_overhead_time
    ∷ metric (bytes "producer/request_overhead_latencies") final producer set_overhead_time
    ∷ metric (bytes "producer/by_consumer/request_overhead_latencies") final producer_by_consumer
        set_overhead_time
    ∷ metric (bytes "consumer/streaming_request_message_counts") final consumer
        set_streaming_request_message_counts
    ∷ metric (bytes "producer/streaming_request_message_counts") final producer
        set_streaming_request_message_counts
    ∷ metric (bytes "consumer/streaming_response_message_counts") final consumer
        set_streaming_response_message_counts
    ∷ metric (bytes "producer/streaming_response_message_counts") final producer
        set_streaming_response_message_counts
    ∷ metric (bytes "consumer/streaming_durations") final consumer set_streaming_durations
    ∷ metric (bytes "producer/streaming_durations") final producer set_streaming_durations
    ∷ []

abbrev pub supported_metrics : List SupportedMetric
supported_metrics = request_metrics ++ byte_metrics ++ latency_metrics

-- Whether a report of a kind has the metrics of a tag.
abbrev pub is_due : Bool → Bool → Tag → Bool
is_due is_first is_final start = is_first
is_due is_first is_final final = is_final
is_due is_first is_final intermediate = true

abbrev pub added : Str → Option MetricValue → List (Str × MetricValue)
added name none = []
added name (some value) = (name, value) ∷ []

-- The loop over the metrics, of the marks that are to be sent.
unfoldable pub add_metrics :
    (Mark → Bool) → ReportRequestInfo → List SupportedMetric → List (Str × MetricValue)
add_metrics sends info [] = []
add_metrics sends info (m ∷ ms) =
    let rest = add_metrics sends info ms in
    if sends m.mark && is_due info.is_first_report info.is_final_report m.tag
    then added m.name (m.set info) ++ rest
    else rest

-- The marks that the first operation of a report sends; consumer metrics only with an API key.
abbrev pub sends_mark : Bool → Mark → Bool
sends_mark has_api_key producer = true
sends_mark has_api_key consumer = has_api_key
sends_mark has_api_key producer_by_consumer = false

-- The marks that the operation by consumer sends.
abbrev pub sends_by_consumer : Mark → Bool
sends_by_consumer producer = false
sends_by_consumer consumer = false
sends_by_consumer producer_by_consumer = true

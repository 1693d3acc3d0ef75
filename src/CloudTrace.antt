-- ===== src/CloudTrace.antt =====
-- The traces of src/api_manager/cloud_trace/cloud_trace.{h,cc}: the spans, and the header that passes
-- a trace on. Random numbers, the clock (in nanoseconds) and the version are arguments; the base64
-- and the hexadecimal functions of absl are parameters.
pub mod Stream
pub mod Header
pub mod Create
pub mod Carried
pub mod Sampling
pub mod Spans
pub mod Aggregator
mod Examples
use esp.Base.{
  ℕ, zero, suc, ◌+◌, ◌*◌, ◌/◌, ◌%◌, Bool, true, false, ◌&&◌, Option, none, some, List, [], ◌∷◌,
  ◌++◌, Str, bytes, str_eq, length, take, leb, if◌then◌else◌,
}
use esp.CloudTrace.Stream.{decimal, hexadecimal}

pub data HeaderType : Type 0 where
  cloud_trace_context grpc_trace_context : HeaderType

-- `google::protobuf::Timestamp`.
pub record Timestamp : Type 0 where
  pub seconds : ℕ
  pub nanos : ℕ

-- `GetNow`.
abbrev pub get_now : ℕ → Timestamp
get_now now = record { seconds = now / 1000000000; nanos = now % 1000000000 }

-- `TraceSpan`, whose kind is always `RPC_SERVER`. A parent that is not set is 0.
pub record TraceSpan : Type 0 where
  pub span_id : ℕ
  pub parent_span_id : ℕ
  pub name : Str
  pub labels : List (Str × Str)
  pub start_time : Timestamp
  pub end_time : Option Timestamp

pub record Trace : Type 0 where
  pub trace_id : Str
  pub project_id : Str
  pub spans : List TraceSpan

-- `CloudTrace`. Its root span is the first one.
pub record CloudTrace : Type 0 where
  pub trace : Trace
  pub options : Str
  pub header_type : HeaderType

abbrev pub k_default_trace_options : Str
k_default_trace_options = bytes "o=1"

abbrev pub k_cloud_trace_agent_key : Str
k_cloud_trace_agent_key = bytes "trace.cloud.google.com/agent"

abbrev pub k_service_agent_prefix : Str
k_service_agent_prefix = bytes "esp/"

abbrev pub k_grpc_trace_bin_len : ℕ
k_grpc_trace_bin_len = 29

abbrev pub set_project_id : Str → CloudTrace → CloudTrace
set_project_id project_id t = record t { trace = record t.trace { project_id = project_id } }

abbrev pub end_first : Timestamp → List TraceSpan → List TraceSpan
end_first now [] = []
end_first now (root ∷ spans) = record root { end_time = some now } ∷ spans

-- `EndRootSpan`.
abbrev pub end_root_span : ℕ → CloudTrace → CloudTrace
end_root_span now t = record t {
  trace = record t.trace { spans = end_first (get_now now) t.trace.spans };
}

-- A span as it is added, with the label of the agent.
abbrev pub new_span : Str → ℕ → ℕ → ℕ → Str → TraceSpan
new_span version now span_id parent name = record {
  span_id = span_id;
  parent_span_id = parent;
  name = name;
  labels = (k_cloud_trace_agent_key, k_service_agent_prefix ++ version) ∷ [];
  start_time = get_now now;
  end_time = none;
}

-- `GetNewTrace`, and the parent of the root span where it is not 0.
unfoldable pub get_new_trace : Str → ℕ → ℕ → Str → ℕ → Str → Trace
get_new_trace version now span_id id parent name = record {
  trace_id = id;
  project_id = [];
  spans = new_span version now span_id parent name ∷ [];
}

-- `HexUInt128`.
unfoldable pub hex_uint128 : ℕ → ℕ → Str
hex_uint128 hi lo = hexadecimal 16 hi ++ hexadecimal 16 lo

-- `__builtin_bswap64`, and the bytes in memory of the result: the highest byte comes first.
unfoldable pub big_endian : ℕ → ℕ → Str
big_endian zero n = []
big_endian (suc k) n = big_endian k (n / 256) ++ (n % 256 ∷ [])

-- `memcpy` of the first bytes of a string; `none` where it reads behind its end.
abbrev pub memcpy : ℕ → Str → Option Str
memcpy n s = if leb n (length s) then some (take n s) else none

-- The 29 bytes of the gRPC header.
abbrev pub grpc_trace_bin : Str → ℕ → Str → Str
grpc_trace_bin trace_id span_id options =
    let flag = if str_eq options k_default_trace_options then 1 else 0 in
    0 ∷ 0 ∷ (trace_id ++ (1 ∷ (big_endian 8 span_id ++ (2 ∷ flag ∷ []))))

abbrev pub escaped : (Str → Str) → Str → ℕ → Option Str → Option Str
escaped base64_escape options span_id none = none
escaped base64_escape options span_id (some trace_id) =
    some (base64_escape (grpc_trace_bin trace_id span_id options))

-- `ToTraceContextHeader`.
unfoldable pub to_trace_context_header : (Str → Str) → (Str → Str) → CloudTrace → ℕ → Option Str
to_trace_context_header base64_escape hex_string_to_bytes t span_id = elim t.header_type [
  | cloud_trace_context ↦
      some (t.trace.trace_id ++ (b'/' ∷ decimal 20 span_id ++ (b';' ∷ t.options)))
  | grpc_trace_context ↦
      escaped base64_escape t.options span_id (memcpy 16 (hex_string_to_bytes t.trace.trace_id))
]

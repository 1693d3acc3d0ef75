-- ===== src/CloudTrace/Aggregator.antt =====
-- `Aggregator` of src/api_manager/cloud_trace/aggregator.cc: the traces that are kept, and the requests
-- that send them. The JSON writer and the token are left to the caller; logging and the timer itself
-- are left out.
pub mod Delivery
use esp.Base.{
  ℕ, zero, suc, ◌+◌, Bool, true, false, ◌||◌, Option, none, some, List, [], ◌∷◌, ◌++◌, map, Str,
  bytes, length, is_empty, ltb, if◌then◌else◌,
}
use esp.Base.Int.{ℤ, pos, negsuc}
use esp.CloudTrace.{Trace}

pub record Aggregator : Type 0 where
  pub cloud_trace_address : Str
  pub cache_max_size : ℤ
  pub traces : List Trace
  pub project_id : Str

-- A request to the Cloud Trace API.
pub record HttpRequest : Type 0 where
  pub url : Str
  pub method : Str
  pub body : List Trace

abbrev pub with_project : Str → Trace → Trace
with_project project_id t = record t { project_id = project_id }

abbrev pub clear_traces : Aggregator → Aggregator
clear_traces a = record a { traces = [] }

-- `SendAndClearTraces`.
unfoldable pub send_and_clear_traces : Aggregator → Aggregator × Option HttpRequest
send_and_clear_traces a =
    if is_empty a.traces || is_empty a.project_id then (clear_traces a, none) else (
      clear_traces a,
      some (record {
        url = a.cloud_trace_address ++ bytes "/v1/projects/" ++ a.project_id ++ bytes "/traces";
        method = bytes "PATCH";
        body = map (with_project a.project_id) a.traces;
      }),
    )

abbrev pub is_above : ℕ → ℤ → Bool
is_above n (pos m) = ltb m n
is_above n (negsuc m) = true

-- `AppendTrace`.
unfoldable pub append_trace : Trace → Aggregator → Aggregator × Option HttpRequest
append_trace t a =
    let appended = record a { traces = a.traces ++ (t ∷ []) } in
    if is_above (length appended.traces) a.cache_max_size
    then send_and_clear_traces appended
    else (appended, none)

-- ===== src/CloudTrace/Examples.antt =====
-- Runs on the headers of a trace, its spans and its aggregator, and concrete cases of the theorems.
use esp.Base.{
  ◌⊎◌, true, ◌/◌, ◌==◌, ℕ, ◌≡◌, ◌≤◌, ◌↔◌, refl, ap, Bool, false, none, some, List, [], ◌∷◌, ◌++◌,
  map, Str, bytes, length, get_elem?, ltb, arith,
}
use esp.Base.Int.{ℤ, pos, ◌-ℤ◌, pos_part}
use esp.RewriteRule.{isdigit, digits_value}
use esp.PathMatcher.Unescape.{ascii_isxdigit}
use esp.CloudTrace.{
  cloud_trace_context, grpc_trace_context, TraceSpan, CloudTrace, get_new_trace,
  to_trace_context_header, grpc_trace_bin, big_endian,
}
use esp.CloudTrace.Stream.{fields, read_int, read_number, read_digits, read_uint64}
use esp.CloudTrace.Header.{
  read_options, read_ids, read_cloud_trace_context, read_grpc_trace_context, load,
}
use esp.CloudTrace.Create.{Sampler, new_sampler, Env, Absl, refresh, create_cloud_trace}
use esp.CloudTrace.Carried.{create_cloud_trace-to_trace_context_header, create_cloud_trace_grpc}
use esp.CloudTrace.Sampling.{started, create_cloud_trace-sampled}
use esp.CloudTrace.Spans.{CloudTraceSpan, id_at, init_with_parent_span_id}
use esp.CloudTrace.Spans.Parents.{created, added, child_added, Reach-HasParent}
use esp.CloudTrace.Aggregator.{Aggregator, with_project, send_and_clear_traces, append_trace}
use esp.CloudTrace.Aggregator.Delivery.{Call, appended, run, given, run-delivers}

abbrev trace_id : Str
trace_id = bytes "e133eacd437d8a12068fd902af3962d8"

abbrev header : Str
header = trace_id ++ bytes "/6;o=1"

-- The readers of the two parts, and options that are refused.
read_header_6 : read_cloud_trace_context header ≡ (some (trace_id, 6), bytes "o=1")
unfolding read_cloud_trace_context fields read_options read_int read_number read_digits read_ids
    read_uint64 isdigit digits_value ascii_isxdigit
read_header_6 = refl

refused_option : (read_cloud_trace_context (trace_id ++ bytes ";o=4")).0 ≡ none
unfolding read_cloud_trace_context fields read_options read_int read_number read_digits read_ids
    isdigit digits_value ascii_isxdigit
refused_option = refl

-- Functions in the place of those of absl, which keep the bytes.
abbrev plain : Absl
plain = record {
  base64_escape = λ s. s;
  base64_unescape = λ s. some s;
  bytes_to_hex_string = λ s. s;
  hex_string_to_bytes = λ s. s;
}

abbrev longer : ℤ → ℕ → Bool
longer d limit = ltb limit (pos_part d)

abbrev env : Env
env = record { now = 5000000000; span_id = 77; hi = 1; lo = 2; version = bytes "1" }

abbrev sampler : Sampler ℕ
sampler = record { is_disabled = false; previous = 0; duration = 1000000000 }

abbrev traced : CloudTrace
traced = record {
  trace = get_new_trace (bytes "1") 5000000000 77 trace_id 6 (bytes "root");
  options = bytes "o=1";
  header_type = cloud_trace_context;
}

creates :
    create_cloud_trace plain longer env header (bytes "root") cloud_trace_context (some sampler)
    ≡ (some traced, some (record sampler { previous = 5000000000 }))
unfolding create_cloud_trace read_cloud_trace_context fields read_options read_int read_number
    read_digits read_ids read_uint64 isdigit digits_value ascii_isxdigit refresh
creates = refl

create_cloud_trace-to_trace_context_header_example :
    (h : Str) × (to_trace_context_header (λ s. s) (λ s. s) traced 9 ≡ some h)
    × (create_cloud_trace plain longer env h (bytes "next") cloud_trace_context none ≡ (
      some (record traced {
        trace = get_new_trace (bytes "1") 5000000000 77 trace_id 9 (bytes "next");
      }),
      none,
    ))
unfolding get_new_trace
create_cloud_trace-to_trace_context_header_example =
    create_cloud_trace-to_trace_context_header plain longer env env header (bytes "root")
      (bytes "next") (some sampler) none traced 9 (omega arith) (ap (λ r. r.0) creates)

-- The bytes of a gRPC header, whose id is sixteen letters.
abbrev letters : Str
letters = bytes "abcdefghijklmnop"

reads_bin :
    read_grpc_trace_context (λ s. some s) (λ s. s) (grpc_trace_bin letters 300 (bytes "o=1"))
    ≡ (some (letters, 300), bytes "o=1")
unfolding read_grpc_trace_context big_endian load
reads_bin = refl

create_cloud_trace_grpc_example :
    (t : CloudTrace) × (h : Str) × ((create_cloud_trace plain longer env
        (grpc_trace_bin letters 300 (bytes "o=1"))
        (bytes "root")
        grpc_trace_context
        (some sampler)).0
      ≡ some t)
    × (to_trace_context_header (λ s. s) (λ s. s) t 9 ≡ some h)
    × (create_cloud_trace plain longer env h (bytes "next") grpc_trace_context none ≡ (
      some (record {
        trace = get_new_trace (bytes "1") 5000000000 77 letters 9 (bytes "next");
        options = bytes "o=1";
        header_type = grpc_trace_context;
      }),
      none,
    ))
create_cloud_trace_grpc_example =
    create_cloud_trace_grpc plain longer env env (grpc_trace_bin letters 300 (bytes "o=1"))
      (bytes "root") (bytes "next") (some sampler) none letters (bytes "o=1") 300 9 (λ s. refl)
      (λ s. refl) (omega arith) reads_bin

-- Five seconds after a sampler of one trace a second starts, a request without a header.
abbrev is_zero_rate : ℕ → Bool
is_zero_rate rate = rate == 0

abbrev period : ℕ → ℕ
period rate = 1000000000 / rate

create_cloud_trace-sampled_example :
    ((create_cloud_trace plain longer env []
        (bytes "root")
        cloud_trace_context
        (some (new_sampler is_zero_rate period 0 1))).0
      ≡ none)
    ↔ ((is_zero_rate 1 ≡ true) ⊎ (longer (pos 5000000000 -ℤ pos 0) (period 1) ≡ false))
unfolding read_cloud_trace_context fields
create_cloud_trace-sampled_example =
    create_cloud_trace-sampled plain longer is_zero_rate period 0 1
      (new_sampler is_zero_rate period 0 1) 0 env [] (bytes "root") cloud_trace_context started refl

-- A span below the root, and one below it.
abbrev check_span : CloudTraceSpan
check_span = record { index = 1; messages = [] }

abbrev two_spans : CloudTrace
two_spans =
    (init_with_parent_span_id (bytes "1") 6000000000 78 (bytes "check") (id_at 0 traced) traced).0

abbrev three_spans : CloudTrace
three_spans =
    (init_with_parent_span_id (bytes "1") 7000000000 79 (bytes "http") (id_at 1 two_spans)
      two_spans).0

Reach-HasParent_example :
    (j : ℕ) × (p : TraceSpan) × (get_elem? (0 ∷ 1 ∷ []) 1 ≡ some j)
    × (j ≤ 1)
    × (get_elem? three_spans.trace.spans j ≡ some p)
    × (78 ≡ p.span_id)
unfolding init_with_parent_span_id get_new_trace
Reach-HasParent_example =
    Reach-HasParent (0 ∷ 1 ∷ []) (1 ∷ 2 ∷ []) three_spans
      (child_added (bytes "1") (bytes "http") 7000000000 79 0 check_span (0 ∷ []) (1 ∷ []) two_spans
        three_spans (record { index = 2; messages = [] })
        (added (bytes "1") (bytes "check") 6000000000 78 [] [] traced two_spans check_span
          (created (bytes "1") trace_id (bytes "root") [] 5000000000 77 6 traced refl) refl)
        refl refl)
      1 _ refl

abbrev empty_aggregator : Aggregator
empty_aggregator = record {
  cloud_trace_address = bytes "https://c";
  cache_max_size = pos 1;
  traces = [];
  project_id = bytes "p";
}

abbrev three_calls : List Call
three_calls = appended traced.trace ∷ appended traced.trace ∷ appended traced.trace ∷ []

-- The second trace is above the bound, and both are sent.
kept_one : length (run three_calls empty_aggregator).0.traces ≡ 1
unfolding run append_trace send_and_clear_traces
kept_one = refl

run-delivers_example :
    (length (run three_calls empty_aggregator).0.traces ≤ 1)
    × ((run three_calls empty_aggregator).1
          ++ map (with_project (bytes "p")) (run three_calls empty_aggregator).0.traces
        ≡ map (with_project (bytes "p")) (given three_calls))
run-delivers_example = run-delivers three_calls 1 empty_aggregator refl refl (omega arith)

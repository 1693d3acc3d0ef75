-- ===== src/CloudTrace/Create.antt =====
-- `Sampler` of src/api_manager/cloud_trace/sampler.cc, and `CreateCloudTrace` of cloud_trace.cc. The
-- operations of the type double are parameters.
use esp.Base.{ℕ, Bool, true, false, Option, none, some, Str, if◌then◌else◌}
use mathlib.Core.Option
use esp.Base.Int.{ℤ, pos, ◌-ℤ◌}
use esp.CloudTrace.{
  HeaderType, cloud_trace_context, grpc_trace_context, CloudTrace, get_new_trace, hex_uint128,
  k_default_trace_options,
}
use esp.CloudTrace.Header.{Ids, read_cloud_trace_context, read_grpc_trace_context}

-- Times are nanoseconds of the system clock. A sampler that is disabled keeps no duration.
pub record Sampler (D : Type 0) : Type 0 where
  pub is_disabled : Bool
  pub previous : ℕ
  pub duration : D

-- `Sampler::Sampler`, at what the memory of the duration holds before it.
abbrev pub new_sampler : {D : Type 0} → (D → Bool) → (D → D) → D → D → Sampler D
new_sampler is_zero inverse former qps =
    if is_zero qps
    then record { is_disabled = true; previous = 0; duration = former }
    else record { is_disabled = false; previous = 0; duration = inverse qps }

module _ {D : Type 0} (is_longer : ℤ → D → Bool) where
  -- `Sampler::On`.
  unfoldable pub on : ℕ → Sampler D → Bool × Sampler D
  on now s =
      if s.is_disabled
      then (false, s)
      else if is_longer (pos now -ℤ pos s.previous) s.duration
      then (true, record s { previous = now })
      else (false, s)

-- `Sampler::Refresh`.
unfoldable pub refresh : {D : Type 0} → ℕ → Sampler D → Sampler D
refresh now s = if s.is_disabled then s else record s { previous = now }

-- What a request brings to a trace: the clock, the random numbers and the version.
pub record Env : Type 0 where
  pub now : ℕ
  pub span_id : ℕ
  pub hi : ℕ
  pub lo : ℕ
  pub version : Str

-- The functions of absl.
pub record Absl : Type 0 where
  pub base64_escape : Str → Str
  pub base64_unescape : Str → Option Str
  pub bytes_to_hex_string : Str → Str
  pub hex_string_to_bytes : Str → Str

abbrev pub read_header : Absl → HeaderType → Str → Option Ids × Str
read_header absl cloud_trace_context context = read_cloud_trace_context context
read_header absl grpc_trace_context context =
    read_grpc_trace_context absl.base64_unescape absl.bytes_to_hex_string context

module _ {D : Type 0} (absl : Absl) (is_longer : ℤ → D → Bool) where
  -- A trace that the sampler turns on.
  abbrev pub turned_on :
      Env → Str → HeaderType → Bool × Sampler D → Option CloudTrace × Option (Sampler D)
  turned_on env name header_type (false, s) = (none, some s)
  turned_on env name header_type (true, s) = (
    some (record {
      trace = get_new_trace env.version env.now env.span_id (hex_uint128 env.hi env.lo) 0 name;
      options = k_default_trace_options;
      header_type = header_type;
    }),
    some s,
  )

  -- The sampler is a pointer that may be null.
  abbrev pub sampled :
      Env → Str → HeaderType → Option (Sampler D) → Option CloudTrace × Option (Sampler D)
  sampled env name header_type none = (none, none)
  sampled env name header_type (some s) = turned_on env name header_type (on is_longer env.now s)

  abbrev pub triggered :
      Env
      → Str
      → HeaderType
      → Option (Sampler D)
      → Option Ids × Str
      → Option CloudTrace × Option (Sampler D)
  triggered env name header_type sampler (none, options) = sampled env name header_type sampler
  triggered env name header_type sampler (some (trace_id, parent), options) = (
    some (record {
      trace = get_new_trace env.version env.now env.span_id trace_id parent name;
      options = options;
      header_type = header_type;
    }),
    Option.map (refresh env.now) sampler,
  )

  -- `CreateCloudTrace`.
  unfoldable pub create_cloud_trace :
      Env → Str → Str → HeaderType → Option (Sampler D) → Option CloudTrace × Option (Sampler D)
  create_cloud_trace env context name header_type sampler =
      triggered env name header_type sampler (read_header absl header_type context)

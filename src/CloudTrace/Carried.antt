-- ===== src/CloudTrace/Carried.antt =====
-- The header of a trace, read by the next proxy: the traces that `CreateCloudTrace` makes with a
-- header of the type `CLOUD_TRACE_CONTEXT`.
use mathlib.Core.Option
use esp.Base.{
  some_same, ℕ, ◌^◌, ◌<◌, ◌≡◌, refl, sym, ap, subst, ◌∙◌, Bool, true, false, Option, none, some, [],
  ◌∷◌, ◌++◌, Str, length, take, append-nil,
}
use esp.Base.Int.{ℤ}
use esp.CloudTrace.{
  cloud_trace_context, grpc_trace_context, CloudTrace, get_new_trace, k_default_trace_options,
  to_trace_context_header, grpc_trace_bin, escaped, memcpy,
}
use esp.CloudTrace.Stream.Laws.{take-append}
use esp.CloudTrace.Stream.{decimal}
use esp.CloudTrace.Header.{Ids, read_cloud_trace_context, read_grpc_trace_context, has_nonzero}
use esp.CloudTrace.Header.Written.{
  IsCarried, read_cloud_trace_context-carried, hex_uint128-IsCarried,
  read_cloud_trace_context-IsCarried,
}
use esp.CloudTrace.Header.Binary.{
  IsBytesOf, bytes_of, read_bin-grpc_trace_bin, read_grpc_trace_context_lem,
}
use esp.CloudTrace.Create.{
  Sampler, Env, Absl, on, refresh, turned_on, sampled, triggered, create_cloud_trace,
}

abbrev IsReadable : CloudTrace → Type 0
IsReadable t = IsCarried t.trace.trace_id t.options × (t.header_type ≡ cloud_trace_context)

-- What `CreateCloudTrace` makes for this type of header.
create_cloud_trace-IsReadable :
    {D : Type 0} (absl : Absl) (is_longer : ℤ → D → Bool) (env : Env) (context name : Str)
    (sampler : Option (Sampler D)) (t : CloudTrace)
    → (create_cloud_trace absl is_longer env context name cloud_trace_context sampler).0 ≡ some t
    → IsReadable t
unfolding create_cloud_trace get_new_trace
create_cloud_trace-IsReadable {D = D} absl is_longer env context name sampler t h =
    whole (read_cloud_trace_context context) refl h
  where
    random :
        (r : Bool × Sampler D)
        → (turned_on absl is_longer env name cloud_trace_context r).0 ≡ some t
        → IsReadable t
    random (false, s) e = absurd cc
    random (true, s) e = subst IsReadable (some_same e) (hex_uint128-IsCarried env.hi env.lo, refl)

    chosen :
        (o : Option (Sampler D))
        → (sampled absl is_longer env name cloud_trace_context o).0 ≡ some t
        → IsReadable t
    chosen none e = absurd cc
    chosen (some s) e = random (on is_longer env.now s) e

    whole :
        (r : Option Ids × Str)
        → read_cloud_trace_context context ≡ r
        → (triggered absl is_longer env name cloud_trace_context sampler r).0 ≡ some t
        → IsReadable t
    whole (none, options) e q = chosen sampler q
    whole (some (trace_id, parent), options) e q =
        subst IsReadable (some_same q)
          (read_cloud_trace_context-IsCarried context trace_id options parent e, refl)

-- A proxy that writes the header of its trace for a span of 64 bits, `CLOUD_TRACE_CONTEXT`, is read
-- by the next one, whatever its own sampler: the trace goes on with the same id and options, and its
-- root span has that span as parent.
pub create_cloud_trace-to_trace_context_header :
    {D : Type 0} (absl : Absl) (is_longer : ℤ → D → Bool) (env next : Env)
    (context name label : Str) (sampler other : Option (Sampler D)) (t : CloudTrace) (span : ℕ)
    → span < 2 ^ 64
    → (create_cloud_trace absl is_longer env context name cloud_trace_context sampler).0 ≡ some t
    → (header : Str) × (to_trace_context_header absl.base64_escape absl.hex_string_to_bytes t span
        ≡ some header)
      × (create_cloud_trace absl is_longer next header label cloud_trace_context other ≡ (
        some (record {
          trace = get_new_trace next.version next.now next.span_id t.trace.trace_id span label;
          options = t.options;
          header_type = cloud_trace_context;
        }),
        Option.map (refresh next.now) other,
      ))
unfolding create_cloud_trace to_trace_context_header
create_cloud_trace-to_trace_context_header absl is_longer env next context name label sampler other
      t span fits h =
    let (carried, type) =
      create_cloud_trace-IsReadable absl is_longer env context name sampler t h in
    let header = t.trace.trace_id ++ (b'/' ∷ decimal 20 span ++ (b';' ∷ t.options)) in
    (
      header,
      rw type refl,
      rw (read_cloud_trace_context-carried t.trace.trace_id t.options span carried fits) refl,
    )

take_all : (n : ℕ) (s : Str) → length s ≡ n → take n s ≡ s
take_all n s h = rw (← h) (ap (take (length s)) (sym (append-nil s)) ∙ take-append s [])

escaped_bytes :
    (escape : Str → Str) (options b : Str) (span : ℕ)
    → length b ≡ 16
    → escaped escape options span (memcpy 16 b) ≡ some (escape (grpc_trace_bin b span options))
escaped_bytes escape options b span h = rw (h, take_all 16 b h) refl

to_trace_context_header_grpc :
    (absl : Absl) (b : Str) (span : ℕ) (t : CloudTrace)
    → absl.hex_string_to_bytes t.trace.trace_id ≡ b
    → length b ≡ 16
    → t.header_type ≡ grpc_trace_context
    → to_trace_context_header absl.base64_escape absl.hex_string_to_bytes t span
      ≡ some (absl.base64_escape (grpc_trace_bin b span t.options))
unfolding to_trace_context_header
to_trace_context_header_grpc absl b span t e h type =
    rw (type, e) (escaped_bytes absl.base64_escape t.options b span h)

read_grpc_trace_context_written :
    (absl : Absl) (b : Str) (span : ℕ)
    → ((s : Str) → absl.base64_unescape (absl.base64_escape s) ≡ some s)
    → length b ≡ 16
    → has_nonzero b ≡ true
    → span < 2 ^ 64
    → read_grpc_trace_context absl.base64_unescape absl.bytes_to_hex_string
        (absl.base64_escape (grpc_trace_bin b span k_default_trace_options))
      ≡ (some (absl.bytes_to_hex_string b, span), k_default_trace_options)
unfolding read_grpc_trace_context
read_grpc_trace_context_written absl b span unescapes l nonzero fits =
    rw unescapes (read_bin-grpc_trace_bin absl.bytes_to_hex_string b span l nonzero fits)

-- What is known of the bytes.
bytes_are :
    {hex : Str → Str} {trace_id : Str}
    → IsBytesOf hex trace_id
    → (b : Str) × (length b ≡ 16) × (has_nonzero b ≡ true) × (trace_id ≡ hex b)
bytes_are (bytes_of b l nonzero same) = (b, l, nonzero, same)

enabled_bytes :
    {D : Type 0} (absl : Absl) (is_longer : ℤ → D → Bool) (env next : Env)
    (context name label : Str) (sampler other : Option (Sampler D)) (b : Str) (parent span : ℕ)
    → ((s : Str) → absl.base64_unescape (absl.base64_escape s) ≡ some s)
    → absl.hex_string_to_bytes (absl.bytes_to_hex_string b) ≡ b
    → length b ≡ 16
    → has_nonzero b ≡ true
    → span < 2 ^ 64
    → read_grpc_trace_context absl.base64_unescape absl.bytes_to_hex_string context
      ≡ (some (absl.bytes_to_hex_string b, parent), k_default_trace_options)
    → (t : CloudTrace) × (header : Str) × ((create_cloud_trace absl is_longer env context name
          grpc_trace_context sampler).0
        ≡ some t)
      × (to_trace_context_header absl.base64_escape absl.hex_string_to_bytes t span ≡ some header)
      × (create_cloud_trace absl is_longer next header label grpc_trace_context other ≡ (
        some (record {
          trace =
              get_new_trace next.version next.now next.span_id
                (absl.bytes_to_hex_string b)
                span
                label;
          options = k_default_trace_options;
          header_type = grpc_trace_context;
        }),
        Option.map (refresh next.now) other,
      ))
unfolding create_cloud_trace to_trace_context_header get_new_trace
enabled_bytes absl is_longer env next context name label sampler other b parent span unescapes
      digits l nonzero fits h =
    (
      t,
      absl.base64_escape (grpc_trace_bin b span k_default_trace_options),
      rw h refl,
      to_trace_context_header_grpc absl b span t digits l refl,
      rw (read_grpc_trace_context_written absl b span unescapes l nonzero fits) refl,
    )
  where
    t : CloudTrace
    t = record {
      trace =
          get_new_trace env.version env.now env.span_id (absl.bytes_to_hex_string b) parent name;
      options = k_default_trace_options;
      header_type = grpc_trace_context;
    }

-- A trace that the gRPC header enabled is written for a span of 64 bits and read by the next proxy:
-- it goes on with the same id, and its root span has that span as parent. That holds where base64
-- and the hexadecimal digits of absl are read back as they were written.
pub create_cloud_trace_grpc :
    {D : Type 0} (absl : Absl) (is_longer : ℤ → D → Bool) (env next : Env)
    (context name label : Str) (sampler other : Option (Sampler D)) (trace_id options : Str)
    (parent span : ℕ)
    → ((s : Str) → absl.base64_unescape (absl.base64_escape s) ≡ some s)
    → ((s : Str) → absl.hex_string_to_bytes (absl.bytes_to_hex_string s) ≡ s)
    → span < 2 ^ 64
    → read_grpc_trace_context absl.base64_unescape absl.bytes_to_hex_string context
      ≡ (some (trace_id, parent), options)
    → (t : CloudTrace) × (header : Str) × ((create_cloud_trace absl is_longer env context name
          grpc_trace_context sampler).0
        ≡ some t)
      × (to_trace_context_header absl.base64_escape absl.hex_string_to_bytes t span ≡ some header)
      × (create_cloud_trace absl is_longer next header label grpc_trace_context other ≡ (
        some (record {
          trace = get_new_trace next.version next.now next.span_id trace_id span label;
          options = k_default_trace_options;
          header_type = grpc_trace_context;
        }),
        Option.map (refresh next.now) other,
      ))
create_cloud_trace_grpc absl is_longer env next context name label sampler other trace_id options
      parent span unescapes digits fits h =
    let (known, default) =
      read_grpc_trace_context_lem absl.base64_unescape absl.bytes_to_hex_string context trace_id
        options parent h in
    let (b, l, nonzero, same) = bytes_are known in
    rw same (
      enabled_bytes absl is_longer env next context name label sampler other b parent span unescapes
        (digits b) l nonzero fits (rw (same, default) at h))

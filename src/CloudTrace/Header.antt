-- ===== src/CloudTrace/Header.antt =====
-- The readers of the two headers in src/api_manager/cloud_trace/cloud_trace.cc. Each gives the id of
-- the trace and of the parent span, where the trace is enabled and its id is right, and the options.
pub mod Written
pub mod Binary
use esp.Base.{
  ℕ, zero, suc, ◌+◌, ◌*◌, ◌%◌, Bool, true, false, not, ◌&&◌, Option, none, some, List, [], ◌∷◌, Str,
  bytes, starts_with, find_first, length, is_empty, get_or, take, drop, ltb, ◌==◌, if◌then◌else◌,
}
use esp.Base.Int.{ℤ, pos, negsuc}
use esp.PathMatcher.Unescape.{ascii_isxdigit}
use esp.CloudTrace.{k_default_trace_options, k_grpc_trace_bin_len}
use esp.CloudTrace.Stream.{fields, read_int, read_uint64}

-- The ids of a trace and of the parent span; the latter is 0 where there is none.
abbrev pub Ids : Type 0
Ids = Str × ℕ

-- The value of an option: whether the trace is enabled, and `none` where the value is not allowed.
abbrev pub enabled_by : Option ℤ → Option Bool
enabled_by none = none
enabled_by (some (negsuc k)) = none
enabled_by (some (pos v)) = if ltb 3 v then none else some (v % 2 == 1)

abbrev pub with_option : Str → Str → Option Bool → Bool × Str
with_option suffix options none = (false, options)
with_option suffix options (some enabled) = (enabled, suffix)

-- The loop over the fields behind the first one; the options become all that stands there.
unfoldable pub read_options : Str → List Str → Str → Bool × Str
read_options suffix [] options = (false, options)
read_options suffix (item ∷ items) options =
    let rest = read_options suffix items options in
    if starts_with (bytes "o=") item
    then with_option suffix options (enabled_by (read_int (drop 2 item)))
    else rest

-- `s.substr(s.find_first_of(c) + 1)`, where `npos + 1` is 0.
abbrev pub behind : Str → Option ℕ → Str
behind s none = s
behind s (some i) = drop (suc i) s

abbrev pub all_hexadecimal : Str → Bool
all_hexadecimal [] = true
all_hexadecimal (c ∷ s) = ascii_isxdigit c && all_hexadecimal s

abbrev pub is_trace_id : Str → Bool
is_trace_id s = length s == 32 && all_hexadecimal s

abbrev pub read_span_id : Str → Option ℕ
read_span_id [] = some 0
read_span_id (c ∷ s) = read_uint64 (c ∷ s)

abbrev pub split_ids : Str → Option ℕ → Str × Str
split_ids s none = (s, [])
split_ids s (some i) = (take i s, drop (suc i) s)

abbrev pub with_span_id : Str → Option ℕ → Option Ids
with_span_id trace_id none = none
with_span_id trace_id (some n) = if is_trace_id trace_id then some (trace_id, n) else none

abbrev pub ids_of : Str × Str → Option Ids
ids_of (trace_id, span_id) = with_span_id trace_id (read_span_id span_id)

-- The first field.
unfoldable pub read_ids : Str → Option Ids
read_ids s = ids_of (split_ids s (find_first b'/' s))

abbrev pub if_enabled : Str → Bool × Str → Option Ids × Str
if_enabled first (false, options) = (none, options)
if_enabled first (true, options) = (read_ids first, options)

-- `GetTraceFromCloudTraceContextHeader`, up to the call of `GetNewTrace`.
abbrev pub read_fields : Str → List Str → Option Ids × Str
read_fields context [] = (none, [])
read_fields context (first ∷ items) =
    if_enabled first (read_options (behind context (find_first b';' context)) items [])

unfoldable pub read_cloud_trace_context : Str → Option Ids × Str
read_cloud_trace_context context = read_fields context (fields b';' context)

abbrev pub has_nonzero : Str → Bool
has_nonzero [] = false
has_nonzero (c ∷ s) = if c == 0 then has_nonzero s else true

-- `absl::big_endian::Load64`, of all bytes of a string.
unfoldable pub load : ℕ → Str → ℕ
load n [] = n
load n (c ∷ s) = load (n * 256 + c) s

-- The checks of the version and of the field ids.
abbrev pub is_grpc_trace_bin : Str → Bool
is_grpc_trace_bin s =
    length s == k_grpc_trace_bin_len
    && get_or s 0 0 == 0
    && get_or s 1 0 == 0
    && get_or s 18 0 == 1
    && get_or s 27 0 == 2

-- `GetTraceFromGRpcTraceContextHeader`, up to the call of `GetNewTrace`.
abbrev pub read_bin : (Str → Str) → Str → Option Ids × Str
read_bin bytes_to_hex_string s =
    if is_grpc_trace_bin s && get_or s 28 0 % 2 == 1
    then (
      if has_nonzero (take 16 (drop 2 s))
          then some (bytes_to_hex_string (take 16 (drop 2 s)), load 0 (take 8 (drop 19 s)))
          else none,
      k_default_trace_options,
    )
    else (none, [])

abbrev pub read_unescaped : (Str → Str) → Option Str → Option Ids × Str
read_unescaped bytes_to_hex_string none = (none, [])
read_unescaped bytes_to_hex_string (some s) = read_bin bytes_to_hex_string s

unfoldable pub read_grpc_trace_context : (Str → Option Str) → (Str → Str) → Str → Option Ids × Str
read_grpc_trace_context base64_unescape bytes_to_hex_string raw =
    read_unescaped bytes_to_hex_string (base64_unescape raw)

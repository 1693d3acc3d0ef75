-- ===== src/CloudTrace/Spans.antt =====
-- `CloudTraceSpan` of src/api_manager/cloud_trace/cloud_trace.cc. A span is known by its index in the
-- spans of the trace, which several spans share; a null pointer is `none`.
pub mod Ids
pub mod Parents
use esp.Base.{
  ℕ, zero, suc, ◌+◌, ◌-◌, Bool, true, false, Option, none, some, List, [], ◌∷◌, ◌++◌, Str, str_eq,
  length, get_elem?, set, replicate, if◌then◌else◌,
}
use esp.CloudTrace.{
  Timestamp, get_now, TraceSpan, Trace, CloudTrace, new_span, set_project_id, end_root_span,
}
use esp.CloudTrace.Stream.{decimal}

pub record CloudTraceSpan : Type 0 where
  pub index : ℕ
  pub messages : List Str

-- The span of an index; there always is one.
abbrev pub id_of : Option TraceSpan → ℕ
id_of none = 0
id_of (some s) = s.span_id

abbrev pub id_at : ℕ → CloudTrace → ℕ
id_at i t = id_of (get_elem? t.trace.spans i)

-- `InitWithParentSpanId`, with the version, the clock and a random number.
unfoldable pub init_with_parent_span_id :
    Str → ℕ → ℕ → Str → ℕ → CloudTrace → CloudTrace × CloudTraceSpan
init_with_parent_span_id version now span_id name parent t = (
  record t {
    trace = record t.trace {
      spans = t.trace.spans ++ (new_span version now span_id parent name ∷ []);
    };
  },
  record { index = length t.trace.spans; messages = [] },
)

-- `CreateSpan`, below the root span.
abbrev pub create_span :
    Str → ℕ → ℕ → Str → Option CloudTrace → Option (CloudTrace × CloudTraceSpan)
create_span version now span_id name none = none
create_span version now span_id name (some t) =
    some (init_with_parent_span_id version now span_id name (id_at 0 t) t)

-- `CreateChildSpan`, in the trace of the parent.
abbrev pub create_child_span :
    Str → ℕ → ℕ → Str → Option CloudTraceSpan → CloudTrace → Option (CloudTrace × CloudTraceSpan)
create_child_span version now span_id name none t = none
create_child_span version now span_id name (some parent) t =
    some (init_with_parent_span_id version now span_id name (id_at parent.index t) t)

-- `Write`.
abbrev pub write : Str → CloudTraceSpan → CloudTraceSpan
write message s = record s { messages = s.messages ++ (message ∷ []) }

-- `insert` of a map, which keeps the value that is there.
abbrev pub insert_label : Str → Str → List (Str × Str) → List (Str × Str)
insert_label key label [] = (key, label) ∷ []
insert_label key label ((k, v) ∷ labels) =
    let rest = insert_label key label labels in
    if str_eq k key then (k, v) ∷ labels else (k, v) ∷ rest

-- `stream << std::setfill('0') << std::setw(3) << i`.
abbrev pub sequence : ℕ → Str
sequence i = let digits = decimal 10 i in replicate (3 - length digits) b'0' ++ digits

unfoldable pub insert_messages : ℕ → List Str → List (Str × Str) → List (Str × Str)
insert_messages i [] labels = labels
insert_messages i (m ∷ ms) labels = insert_messages (suc i) ms (insert_label (sequence i) m labels)

abbrev pub ended_span : ℕ → List Str → TraceSpan → TraceSpan
ended_span now messages s = record s {
  end_time = some (get_now now);
  labels = insert_messages 0 messages s.labels;
}

abbrev pub end_at : ℕ → List Str → ℕ → List TraceSpan → List TraceSpan
end_at now messages i [] = []
end_at now messages zero (s ∷ spans) = ended_span now messages s ∷ spans
end_at now messages (suc i) (s ∷ spans) = s ∷ end_at now messages i spans

-- `~CloudTraceSpan`.
unfoldable pub end_span : ℕ → CloudTraceSpan → CloudTrace → CloudTrace
end_span now s t = record t {
  trace = record t.trace { spans = end_at now s.messages s.index t.trace.spans };
}

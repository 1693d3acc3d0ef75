-- ===== src/ServiceControl/Once.antt =====
-- How often the reports of one request count it.
use esp.Base.{
  ℕ, ◌+◌, ◌-◌, ◌/◌, ◌≡◌, refl, ◌∙◌, inl, inr, Bool, not, ◌&&◌, Option, none, some, List, [], ◌∷◌,
  ◌++◌, Str, bytes, str_eq, is_empty, is_some, ltb, if◌then◌else◌, Bool-cases, arith,
}
use esp.StatusCode.Names.{Status, is_ok}
use esp.RequestContext.{Service, RequestContext}
use esp.RequestContext.Report.{
  Logging, Stream, Response, Progress, ReportRequestInfo, fill_intermediate, fill_final,
  attempt_intermediate_report,
}
use esp.RequestContext.Report.Deltas.{attempts, new_progress}
use esp.ServiceControl.Metrics.{
  MetricValue, Mark, SupportedMetric, supported_metrics, is_due, added, add_metrics, sends_mark,
}

-- How often a metric is among those of an operation.
unfoldable pub count : Str → List (Str × MetricValue) → ℕ
count name [] = 0
count name ((n, v) ∷ ms) = (if str_eq n name then 1 else 0) + count name ms

count-append :
    (name : Str) (xs ys : List (Str × MetricValue))
    → count name (xs ++ ys) ≡ count name xs + count name ys
unfolding count
count-append name [] ys = omega arith
count-append name ((n, v) ∷ xs) ys = omega (arith, count-append name xs ys)

-- The same, from the entries of a table that have the name.
abbrev one_if : Bool → ℕ
one_if b = if b then 1 else 0

abbrev expected : Str → (Mark → Bool) → ReportRequestInfo → List SupportedMetric → ℕ
expected name sends info [] = 0
expected name sends info (m ∷ ms) =
    let rest = expected name sends info ms in
    if str_eq m.name name
    then one_if (
        sends m.mark
        && is_due info.is_first_report info.is_final_report m.tag
        && is_some (m.set info))
      + rest
    else rest

count-added :
    (name n : Str) (v : Option MetricValue)
    → count name (added n v) ≡ (if str_eq n name then one_if (is_some v) else 0)
unfolding count
count-added name n none = ground arith
count-added name n (some v) = ground arith

count-add_metrics :
    (name : Str) (sends : Mark → Bool) (info : ReportRequestInfo) (ms : List SupportedMetric)
    → count name (add_metrics sends info ms) ≡ expected name sends info ms
unfolding add_metrics count
count-add_metrics name sends info [] = refl
count-add_metrics name sends info (m ∷ ms) = ground (
  arith,
  count-add_metrics name sends info ms,
  count-added name m.name (m.set info),
  count-append name (added m.name (m.set info)) (add_metrics sends info ms),
)

abbrev pub producer_request_count : Str
producer_request_count = bytes "serviceruntime.googleapis.com/api/producer/request_count"

-- How often a report counts the request, in the operation that every report has.
abbrev pub counts : ReportRequestInfo → ℕ
counts info =
    count producer_request_count
      (add_metrics (sends_mark (not (is_empty info.operation.api_key))) info supported_metrics)

counts-first : (info : ReportRequestInfo) → counts info ≡ one_if info.is_first_report
counts-first info =
    count-add_metrics producer_request_count (sends_mark (not (is_empty info.operation.api_key)))
      info supported_metrics
    ∙ ground arith

module _ (service : Service) (logging : Logging) (c : RequestContext)
    (send : ReportRequestInfo → Status) where
  -- The counts of the reports that service control accepts.
  unfoldable pub accepted_counts : List ReportRequestInfo → ℕ
  accepted_counts [] = 0
  accepted_counts (info ∷ infos) =
      (if is_ok (send info) then counts info else 0) + accepted_counts infos

  accepted_counts-append :
      (xs ys : List ReportRequestInfo)
      → accepted_counts (xs ++ ys) ≡ accepted_counts xs + accepted_counts ys
  unfolding accepted_counts
  accepted_counts-append [] ys = omega arith
  accepted_counts-append (x ∷ xs) ys = omega (arith, accepted_counts-append xs ys)

  -- What is left to count after some reports.
  attempt-counts :
      (now : ℕ) (stream : Stream) (p : Progress)
      → accepted_counts (attempt_intermediate_report service logging c send now stream p).1
          + one_if
              (attempt_intermediate_report service logging c send now stream p).0.is_first_report
        ≡ one_if p.is_first_report
  unfolding attempt_intermediate_report accepted_counts fill_intermediate
  attempt-counts now stream p =
      elim (Bool-cases
        (ltb ((now - p.last_report_time) / 1000000000) logging.intermediate_report_interval)) [
          | inl early ↦ rw early (omega arith)
          | inr due ↦
              let info = fill_intermediate service logging c stream p in
              elim (Bool-cases (is_ok (send info))) [
                | inl fine ↦ rw (due, fine) (ground (arith, counts-first info))
                | inr bad ↦ rw (due, bad) (ground arith)
              ]
        ]

  attempts-counts :
      (ticks : List (ℕ × Stream)) (p : Progress)
      → accepted_counts (attempts service logging c send ticks p).1
          + one_if (attempts service logging c send ticks p).0.is_first_report
        ≡ one_if p.is_first_report
  unfolding attempts accepted_counts
  attempts-counts [] p = omega arith
  attempts-counts ((now, stream) ∷ ticks) p =
      let q = attempt_intermediate_report service logging c send now stream p in
      omega (
        arith,
        attempt-counts now stream p,
        attempts-counts ticks q.0,
        accepted_counts-append q.1 (attempts service logging c send ticks q.0).1,
      )

  -- Over the intermediate reports of a request that service control accepts and its final report, the
  -- request is counted once, whichever of the intermediate reports are accepted.
  pub counted-once :
      (ticks : List (ℕ × Stream)) (started now : ℕ) (stream : Stream) (response : Response)
      → let (p, sent) = attempts service logging c send ticks (new_progress started) in
        accepted_counts sent + counts (fill_final service logging c now stream response p) ≡ 1
  unfolding fill_final
  counted-once ticks started now stream response =
      let (p, sent) = attempts service logging c send ticks (new_progress started) in
      omega (
        arith,
        attempts-counts ticks (new_progress started),
        counts-first (fill_final service logging c now stream response p),
      )

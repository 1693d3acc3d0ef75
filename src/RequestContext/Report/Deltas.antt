-- ===== src/RequestContext/Report/Deltas.antt =====
-- What the reports of one request add up to.
use esp.Base.{
  inl, inr, ℕ, ◌+◌, ◌-◌, ◌/◌, ◌≡◌, refl, sym, ◌∙◌, ap₂, true, false, List, [], ◌∷◌, ◌++◌, ltb, leb,
  if◌then◌else◌, Bool-cases,
}
use esp.Base.Int.{ℤ, pos, pos_part, neg_part, ◌+ℤ◌, ◌-ℤ◌, int_laws}
use esp.StatusCode.Names.{Status}
use esp.RequestContext.{Service, RequestContext, method}
use esp.RequestContext.Report.{
  Logging, Stream, Response, Progress, ReportRequestInfo, fill_final, attempt_intermediate_report,
  skips, report, clipped,
}

-- The sum of a field of reports.
unfoldable pub total : (ReportRequestInfo → ℤ) → List ReportRequestInfo → ℤ
total field [] = pos 0
total field (info ∷ infos) = field info +ℤ total field infos

abbrev pub larger : ℤ → ℤ → ℤ
larger a b = if leb (pos_part b + neg_part a) (pos_part a + neg_part b) then a else b

-- The progress of a new request.
abbrev pub new_progress : ℕ → Progress
new_progress now = record {
  is_first_report = true;
  last_report_time = now;
  last_request_bytes = pos 0;
  last_response_bytes = pos 0;
}

total-append :
    (field : ReportRequestInfo → ℤ) (xs ys : List ReportRequestInfo)
    → total field (xs ++ ys) ≡ total field xs +ℤ total field ys
unfolding total
total-append field [] ys = grind int_laws
total-append field (x ∷ xs) ys = grind (int_laws, total-append field xs ys)

clipped-rest : (size last : ℤ) → last +ℤ clipped (size -ℤ last) ≡ larger size last
unfolding ◌+ℤ◌ ◌-ℤ◌
clipped-rest size last = grind (int_laws)

zero-+ℤ : (a : ℤ) → pos 0 +ℤ a ≡ a
zero-+ℤ a = grind int_laws

+ℤ-zero : (a : ℤ) → a +ℤ pos 0 ≡ a
+ℤ-zero a = grind int_laws

-- The last report closes the gap to the size.
closing :
    (field : ReportRequestInfo → ℤ) (sent : List ReportRequestInfo) (info : ReportRequestInfo)
    (size last : ℤ)
    → pos 0 +ℤ total field sent ≡ last
    → field info ≡ clipped (size -ℤ last)
    → total field (sent ++ (info ∷ [])) ≡ larger size last
unfolding total
closing field sent info size last told rest =
    total-append field sent (info ∷ [])
    ∙ ap₂ (λ a b. a +ℤ b) (sym (zero-+ℤ (total field sent)) ∙ told) (+ℤ-zero (field info) ∙ rest)
    ∙ clipped-rest size last

module _ (service : Service) (logging : Logging) (c : RequestContext)
    (send : ReportRequestInfo → Status) where
  -- The reports of a timer that ticks at some times, and the progress after them.
  unfoldable pub attempts : List (ℕ × Stream) → Progress → Progress × List ReportRequestInfo
  attempts [] p = (p, [])
  attempts ((now, stream) ∷ ticks) p =
      let (q, sent) = attempt_intermediate_report service logging c send now stream p in
      let (r, more) = attempts ticks q in (r, sent ++ more)

  -- The bytes that reports tell of, and those that the progress knows as told.
  abbrev IsCounted : Progress → Progress × List ReportRequestInfo → Type 0
  IsCounted p (q, sent) =
      (p.last_request_bytes +ℤ total (λ i. i.request_bytes) sent ≡ q.last_request_bytes)
      × (p.last_response_bytes +ℤ total (λ i. i.response_bytes) sent ≡ q.last_response_bytes)

  attempt-Counted :
      (now : ℕ) (stream : Stream) (p : Progress)
      → IsCounted p (attempt_intermediate_report service logging c send now stream p)
  unfolding attempt_intermediate_report total
  attempt-Counted now stream p =
      elim (Bool-cases
        (ltb ((now - p.last_report_time) / 1000000000) logging.intermediate_report_interval)) [
          | inl early ↦ rw early (grind int_laws, grind int_laws)
          | inr due ↦ rw due (grind int_laws, grind int_laws)
        ]

  attempts-Counted : (ticks : List (ℕ × Stream)) (p : Progress) → IsCounted p (attempts ticks p)
  unfolding attempts total
  attempts-Counted [] p = (grind int_laws, grind int_laws)
  attempts-Counted ((now, stream) ∷ ticks) p =
      let q = attempt_intermediate_report service logging c send now stream p in
      let (first_request, first_response) = attempt-Counted now stream p in
      let (rest_request, rest_response) = attempts-Counted ticks q.0 in
      (
        grind (
          int_laws,
          first_request,
          rest_request,
          total-append (λ i. i.request_bytes) q.1 (attempts ticks q.0).1,
        ),
        grind (
          int_laws,
          first_response,
          rest_response,
          total-append (λ i. i.response_bytes) q.1 (attempts ticks q.0).1,
        ),
      )

  pub one-final :
      (now : ℕ) (stream : Stream) (response : Response) (p : Progress)
      → service.has_service_control ≡ true
      → skips service logging c (method c) ≡ false
      → report service logging c now stream response p
        ≡ fill_final service logging c now stream response p ∷ []
  unfolding report
  one-final now stream response p present counted = simp (counted, present)

  -- Where there is service control and the method does not skip it, over the final report of a new
  -- request and the intermediate ones that are filled before it, whether service control accepts them
  -- or not, the request bytes add up to the size of the request, or to what the intermediate reports
  -- told of where that is more, and the response bytes in the same way.
  pub report-total :
      (ticks : List (ℕ × Stream)) (started now : ℕ) (stream : Stream) (response : Response)
      → service.has_service_control ≡ true
      → skips service logging c (method c) ≡ false
      → let (p, sent) = attempts ticks (new_progress started) in
        let reports = sent ++ report service logging c now stream response p in
        (total (λ i. i.request_bytes) reports
          ≡ larger (pos response.request_size) p.last_request_bytes)
        × (total (λ i. i.response_bytes) reports
            ≡ larger (pos response.response_size) p.last_response_bytes)
  unfolding fill_final
  report-total ticks started now stream response present counted =
      let (p, sent) = attempts ticks (new_progress started) in
      let (requests, responses) = attempts-Counted ticks (new_progress started) in
      rw (one-final now stream response p present counted) (
        closing (λ i. i.request_bytes) sent (fill_final service logging c now stream response p)
            (pos response.request_size) p.last_request_bytes requests refl,
        closing (λ i. i.response_bytes) sent (fill_final service logging c now stream response p)
            (pos response.response_size) p.last_response_bytes responses refl,
      )

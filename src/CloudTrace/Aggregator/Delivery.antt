-- ===== src/CloudTrace/Aggregator/Delivery.antt =====
-- The traces that an aggregator sends over any calls of `AppendTrace` and of its timer.
use esp.Base.{
  ℕ, ◌≤◌, ◌≡◌, inl, inr, refl, sym, ap, ◌∙◌, true, false, Option, none, some, List, [], ◌∷◌, ◌++◌,
  map, append-nil, append_assoc, length, is_empty, Bool-cases, arith, ltb-false→le,
}
use esp.Base.Int.{pos}
use esp.CloudTrace.{Trace}
use esp.CloudTrace.Aggregator.{
  Aggregator, HttpRequest, with_project, send_and_clear_traces, append_trace, is_above,
}

-- A call: of `AppendTrace`, or of the timer.
pub data Call : Type 0 where
  appended : Trace → Call
  timer : Call

abbrev pub step : Call → Aggregator → Aggregator × Option HttpRequest
step (appended t) a = append_trace t a
step timer a = send_and_clear_traces a

abbrev pub sent_by : Option HttpRequest → List Trace
sent_by none = []
sent_by (some r) = r.body

abbrev pub given : List Call → List Trace
given [] = []
given (appended t ∷ calls) = t ∷ given calls
given (timer ∷ calls) = given calls

-- The aggregator after the calls, and the traces of the requests in their order.
unfoldable pub run : List Call → Aggregator → Aggregator × List Trace
run [] a = (a, [])
run (c ∷ calls) a =
    let (b, request) = step c a in let (d, sent) = run calls b in (d, sent_by request ++ sent)

-- What a step keeps: the project, the bound, and the traces that are sent or kept.
record IsStep (m : ℕ) (more : List Trace) (a : Aggregator) (r : Aggregator × Option HttpRequest)
    : Type 0 where
  same_project : r.0.project_id ≡ a.project_id
  same_size : r.0.cache_max_size ≡ pos m
  bounded : length r.0.traces ≤ m
  delivers :
      sent_by r.1 ++ map (with_project a.project_id) r.0.traces
      ≡ map (with_project a.project_id) (a.traces ++ more)

nothing_in : (l : List Trace) → is_empty l ≡ true → l ≡ []
nothing_in [] h = refl
nothing_in (t ∷ l) h = cc

send_lem :
    (m : ℕ) (a : Aggregator)
    → is_empty a.project_id ≡ false
    → a.cache_max_size ≡ pos m
    → IsStep m [] a (send_and_clear_traces a)
unfolding send_and_clear_traces
send_lem m a named size = elim (Bool-cases (is_empty a.traces)) [
  | inl p ↦ rw p (record {
    same_project = refl;
    same_size = size;
    bounded = omega arith;
    delivers = ap (λ l. map (with_project a.project_id) (l ++ [])) (sym (nothing_in a.traces p));
  })
  | inr p ↦
      rw (p, named)
        (record {
          same_project = refl;
          same_size = size;
          bounded = omega arith;
          delivers =
              append-nil _ ∙ ap (map (with_project a.project_id)) (sym (append-nil a.traces));
        })
]

append_lem :
    (m : ℕ) (t : Trace) (a : Aggregator)
    → is_empty a.project_id ≡ false
    → a.cache_max_size ≡ pos m
    → IsStep m (t ∷ []) a (append_trace t a)
unfolding append_trace
append_lem m t a named size =
    elim (Bool-cases (is_above (length (a.traces ++ (t ∷ []))) a.cache_max_size)) [
      | inl p ↦
          let sent = send_lem m (record a { traces = a.traces ++ (t ∷ []) }) named size in
          rw p (record {
            same_project = sent.same_project;
            same_size = sent.same_size;
            bounded = sent.bounded;
            delivers =
                sent.delivers
                ∙ ap (map (with_project a.project_id)) (append-nil (a.traces ++ (t ∷ [])));
          })
      | inr p ↦ rw p (record {
        same_project = refl;
        same_size = size;
        bounded = ltb-false→le m _ (rw size at p);
        delivers = refl;
      })
    ]

step_lem :
    (m : ℕ) (c : Call) (a : Aggregator)
    → is_empty a.project_id ≡ false
    → a.cache_max_size ≡ pos m
    → IsStep m (given (c ∷ [])) a (step c a)
step_lem m (appended t) a = append_lem m t a
step_lem m timer a = send_lem m a

map-append : (f : Trace → Trace) (xs ys : List Trace) → map f (xs ++ ys) ≡ map f xs ++ map f ys
map-append f [] ys = refl
map-append f (x ∷ xs) ys = ap (λ l. f x ∷ l) (map-append f xs ys)

given-append : (c : Call) (calls : List Call) → given (c ∷ calls) ≡ given (c ∷ []) ++ given calls
given-append (appended t) calls = refl
given-append timer calls = refl

-- With a project and a bound on the traces that are kept, every trace that is appended is sent
-- once, with that project, in the order of the calls, or is still kept; and after each call no more
-- than the bound are kept.
pub run-delivers :
    (calls : List Call) (m : ℕ) (a : Aggregator)
    → is_empty a.project_id ≡ false
    → a.cache_max_size ≡ pos m
    → length a.traces ≤ m
    → let (b, sent) = run calls a in
      (length b.traces ≤ m)
      × (sent ++ map (with_project a.project_id) b.traces
          ≡ map (with_project a.project_id) (a.traces ++ given calls))
unfolding run
run-delivers [] m a named size fits = (fits, rw append-nil refl)
run-delivers (c ∷ calls) m a named size fits =
    let s = step_lem m c a named size in
    let rest =
      run-delivers calls m (step c a).0 (rw s.same_project named) (s.same_size) s.bounded in
    (
      rest.0,
      join (step c a).1 (run calls (step c a).0).1 (run calls (step c a).0).0.traces
          (step c a).0.traces s.delivers (rw s.same_project at rest.1),
    )
  where
    join :
        (request : Option HttpRequest) (sent kept middle : List Trace)
        → sent_by request ++ map (with_project a.project_id) middle
          ≡ map (with_project a.project_id) (a.traces ++ given (c ∷ []))
        → sent ++ map (with_project a.project_id) kept
          ≡ map (with_project a.project_id) (middle ++ given calls)
        → (sent_by request ++ sent) ++ map (with_project a.project_id) kept
          ≡ map (with_project a.project_id) (a.traces ++ given (c ∷ calls))
    join request sent kept middle h k =
        append_assoc (sent_by request) sent (map (with_project a.project_id) kept)
        ∙ ap (λ l. sent_by request ++ l) (k ∙ map-append _ middle (given calls))
        ∙ sym (append_assoc (sent_by request) _ _)
        ∙ ap (λ l. l ++ map (with_project a.project_id) (given calls)) h
        ∙ sym (map-append _ (a.traces ++ given (c ∷ [])) (given calls))
        ∙ ap (map (with_project a.project_id)) (
            append_assoc a.traces (given (c ∷ [])) (given calls)
            ∙ ap (λ l. a.traces ++ l) (sym (given-append c calls)))

-- ===== src/CloudTrace/Spans/Parents.antt =====
-- The spans of a trace over any order of the calls that add spans, end them or set the project.
use esp.Base.{
  some_same, ℕ, suc, ◌≤◌, ◌<◌, ◌≡◌, inl, inr, refl, sym, ap, subst, ◌∙◌, some, List, [], ◌∷◌, ◌++◌,
  map, Str, length, get_elem?, arith,
}
use esp.CloudTrace.{TraceSpan, CloudTrace, get_new_trace, set_project_id, end_root_span}
use esp.CloudTrace.Spans.Ids.{
  ids, get_elem?-snoc, get_elem?-front, get_elem?-lt, get_elem?-last, length-snoc, ids-end_at,
  ids-end_first, map-snoc, get_elem?-ids, length-ids, get_elem?-map-ids, span_of,
}
use esp.CloudTrace.Spans.{
  create_span, create_child_span, CloudTraceSpan, id_at, init_with_parent_span_id, end_span,
}

-- A trace, from its creation on, with two numbers for each call of `CreateSpan` and `CreateChildSpan`
-- so far: below which span it was asked to add one, 0 for the root and `suc call` for the span that
-- an earlier call gave, and the index of the span that it gave. `CreateSpan` asks for the root.
pub data Reach : List ℕ → List ℕ → CloudTrace → Type 0 where
  created :
      (version id name options : Str) (now span_id parent : ℕ) (t : CloudTrace)
      → t.trace ≡ get_new_trace version now span_id id parent name
      → Reach [] [] t
  added :
      (version name : Str) (now span_id : ℕ) (links given : List ℕ) (t t' : CloudTrace)
      (span : CloudTraceSpan)
      → Reach links given t
      → create_span version now span_id name (some t) ≡ some (t', span)
      → Reach (links ++ (0 ∷ [])) (given ++ (span.index ∷ [])) t'
  child_added :
      (version name : Str) (now span_id call : ℕ) (parent : CloudTraceSpan) (links given : List ℕ)
      (t t' : CloudTrace) (span : CloudTraceSpan)
      → Reach links given t
      → get_elem? given call ≡ some parent.index
      → create_child_span version now span_id name (some parent) t ≡ some (t', span)
      → Reach (links ++ (suc call ∷ [])) (given ++ (span.index ∷ [])) t'
  ended :
      (now : ℕ) (s : CloudTraceSpan) (links given : List ℕ) (t : CloudTrace)
      → Reach links given t
      → Reach links given (end_span now s t)
  root_ended :
      (now : ℕ) (links given : List ℕ) (t : CloudTrace)
      → Reach links given t
      → Reach links given (end_root_span now t)
  named :
      (project_id : Str) (links given : List ℕ) (t : CloudTrace)
      → Reach links given t
      → Reach links given (set_project_id project_id t)

-- The item behind the first one at an index names the item that its link leads to, one before it.
pub record HasParent (l : List (ℕ × ℕ)) (links : List ℕ) (i parent : ℕ) : Type 0 where
  index : ℕ
  above : ℕ
  linked : get_elem? links i ≡ some index
  before : index ≤ i
  at : get_elem? l index ≡ some (parent, above)

-- There is a link for every item but the first.
record AreParented (l : List (ℕ × ℕ)) (links : List ℕ) : Type 0 where
  rooted : length l ≡ suc (length links)
  parents : (i id parent : ℕ) → get_elem? l (suc i) ≡ some (id, parent) → HasParent l links i parent

AreParented-snoc :
    (l : List (ℕ × ℕ)) (links : List ℕ) (id index above parent : ℕ)
    → get_elem? l index ≡ some (parent, above)
    → AreParented l links
    → AreParented (l ++ ((id, parent) ∷ [])) (links ++ (index ∷ []))
AreParented-snoc l links id index above parent at h = record {
  rooted = omega (arith, length-snoc l (id, parent), length-snoc links index, h.rooted);
  parents = λ i n p e. elim (get_elem?-snoc l (suc i) (id, parent) (n, p) e) [
    | inl q ↦
        let k = h.parents i n p q in
        record {
          index = k.index;
          above = k.above;
          linked = get_elem?-front links i index k.index k.linked;
          before = k.before;
          at = get_elem?-front l k.index _ _ k.at;
        }
    | inr (q, same) ↦
        let last : length links ≡ i = omega (arith, h.rooted) in
        record {
          index = index;
          above = above;
          linked = ap (get_elem? (links ++ (index ∷ []))) (sym last) ∙ get_elem?-last links index;
          before = omega (arith, get_elem?-lt l index at);
          at = get_elem?-front l index _ _ (at ∙ cc);
        }
  ];
}

-- A span that is added below one of the trace.
init-AreParented :
    (version name : Str) (now span_id index : ℕ) (links : List ℕ) (t : CloudTrace)
    → index < length t.trace.spans
    → AreParented (map ids t.trace.spans) links
    → AreParented
        (map ids
          (init_with_parent_span_id version now span_id name (id_at index t) t).0.trace.spans)
        (links ++ (index ∷ []))
unfolding init_with_parent_span_id
init-AreParented version name now span_id index links t below h =
    let (s, at, ids_at) = get_elem?-ids t.trace.spans index below in
    rw (map-snoc, at)
      (AreParented-snoc (map ids t.trace.spans) links span_id index s.parent_span_id s.span_id
        ids_at h)

-- The span that a call gave is the one that the call added.
record AreGiven (links given : List ℕ) : Type 0 where
  as_many : length given ≡ length links
  own : (call i : ℕ) → get_elem? given call ≡ some i → i ≡ suc call

AreGiven-snoc :
    (links given : List ℕ) (link i : ℕ)
    → i ≡ suc (length links)
    → AreGiven links given
    → AreGiven (links ++ (link ∷ [])) (given ++ (i ∷ []))
AreGiven-snoc links given link i at h = record {
  as_many = omega (arith, length-snoc links link, length-snoc given i, h.as_many);
  own = λ call n e. elim (get_elem?-snoc given call i n e) [
    | inl before ↦ h.own call n before
    | inr (last, same) ↦ omega (arith, h.as_many)
  ];
}

IsTraced : List ℕ → List ℕ → CloudTrace → Type 0
IsTraced links given t = AreParented (map ids t.trace.spans) links × AreGiven links given

-- A call that adds a span below one of the trace.
added-IsTraced :
    (version name : Str) (now span_id index : ℕ) (links given : List ℕ) (t t' : CloudTrace)
    (span : CloudTraceSpan)
    → index < length t.trace.spans
    → some (init_with_parent_span_id version now span_id name (id_at index t) t) ≡ some (t', span)
    → IsTraced links given t
    → IsTraced (links ++ (index ∷ [])) (given ++ (span.index ∷ [])) t'
unfolding IsTraced init_with_parent_span_id
added-IsTraced version name now span_id index links given t t' span below e (h, k) =
    subst
      (λ (q : CloudTrace × CloudTraceSpan).
        AreParented (map ids q.0.trace.spans) (links ++ (index ∷ []))
        × AreGiven (links ++ (index ∷ [])) (given ++ (q.1.index ∷ [])))
      (some_same e)
      (
        init-AreParented version name now span_id index links t below h,
        AreGiven-snoc links given index (length t.trace.spans)
            (sym (length-ids t.trace.spans) ∙ h.rooted) k,
      )

Reach-IsTraced :
    (links given : List ℕ) (t : CloudTrace) → Reach links given t → IsTraced links given t
unfolding end_span get_new_trace IsTraced
Reach-IsTraced _ _ t (created version id name options now span_id parent _ e) = (
  subst (λ tr. AreParented (map ids tr.spans) []) (sym e)
      (record { rooted = refl; parents = λ i n p q. cc }),
  record { as_many = refl; own = λ call i q. cc },
)
Reach-IsTraced _ _ _ (added version name now span_id links given t t' span r e) =
    let h = Reach-IsTraced links given t r in
    added-IsTraced version name now span_id 0 links given t t' span
      (omega (arith, h.0.rooted, length-ids t.trace.spans)) e h
Reach-IsTraced _ _ _
      (child_added version name now span_id call parent links given t t' span r at e) =
    let h = Reach-IsTraced links given t r in
    let same = h.1.own call parent.index at in
    added-IsTraced version name now span_id (suc call) links given t t' span
      (omega (arith, h.0.rooted, h.1.as_many, length-ids t.trace.spans, get_elem?-lt given call at))
      (ap (λ i. some (init_with_parent_span_id version now span_id name (id_at i t) t)) (sym same)
        ∙ e)
      h
Reach-IsTraced _ _ _ (ended now s links given t r) = rw ids-end_at (Reach-IsTraced links given t r)
Reach-IsTraced _ _ _ (root_ended now links given t r) =
    rw ids-end_first (Reach-IsTraced links given t r)
Reach-IsTraced _ _ _ (named project_id links given t r) = Reach-IsTraced links given t r

-- In every trace that is reached, the parent of each span but the root is the span below which it
-- was asked to stand: the root for `CreateSpan`, and for `CreateChildSpan` the one that the call which
-- gave the parent had added. That span was added before it.
pub Reach-HasParent :
    (links given : List ℕ) (t : CloudTrace)
    → Reach links given t
    → (i : ℕ) (s : TraceSpan) → get_elem? t.trace.spans (suc i) ≡ some s
    → (j : ℕ) × (p : TraceSpan) × (get_elem? links i ≡ some j)
      × (j ≤ i)
      × (get_elem? t.trace.spans j ≡ some p)
      × (s.parent_span_id ≡ p.span_id)
unfolding IsTraced
Reach-HasParent links given t r i s h =
    let k =
      (Reach-IsTraced links given t r).0.parents i s.span_id s.parent_span_id
        (get_elem?-map-ids t.trace.spans (suc i) s h) in
    let (p, at, same) = span_of t.trace.spans k.index s.parent_span_id k.above k.at in
    (k.index, p, k.linked, k.before, at, same)

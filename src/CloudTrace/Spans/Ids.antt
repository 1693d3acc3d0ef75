-- ===== src/CloudTrace/Spans/Ids.antt =====
-- The ids of the spans of a trace, in the order in which they stand in it.
use esp.Base.{
  ℕ, zero, suc, ◌<◌, ◌≡◌, ◌⊎◌, inl, inr, refl, ap, some, List, [], ◌∷◌, ◌++◌, map, Str, length,
  get_elem?, arith,
}
use esp.CloudTrace.{Timestamp, TraceSpan, end_first}
use esp.CloudTrace.Spans.{end_at}

-- The ids of a span and of its parent.
abbrev pub ids : TraceSpan → ℕ × ℕ
ids s = (s.span_id, s.parent_span_id)

pub get_elem?-snoc :
    {A : Type 0} (l : List A) (i : ℕ) (x y : A)
    → get_elem? (l ++ (x ∷ [])) i ≡ some y
    → (get_elem? l i ≡ some y) ⊎ ((i ≡ length l) × (x ≡ y))
get_elem?-snoc [] zero x y h = inr (refl, cc)
get_elem?-snoc [] (suc i) x y h = cc
get_elem?-snoc (z ∷ l) zero x y h = inl h
get_elem?-snoc (z ∷ l) (suc i) x y h = elim (get_elem?-snoc l i x y h) [
  | inl e ↦ inl e
  | inr (e, q) ↦ inr (ap suc e, q)
]

pub get_elem?-front :
    {A : Type 0} (l : List A) (i : ℕ) (x y : A)
    → get_elem? l i ≡ some y
    → get_elem? (l ++ (x ∷ [])) i ≡ some y
get_elem?-front [] i x y h = cc
get_elem?-front (z ∷ l) zero x y h = h
get_elem?-front (z ∷ l) (suc i) x y h = get_elem?-front l i x y h

pub get_elem?-lt : {A : Type 0} (l : List A) (i : ℕ) {y : A} → get_elem? l i ≡ some y → i < length l
get_elem?-lt [] i h = cc
get_elem?-lt (z ∷ l) zero h = omega arith
get_elem?-lt (z ∷ l) (suc i) h = omega (arith, get_elem?-lt l i h)

pub get_elem?-last : (l : List ℕ) (x : ℕ) → get_elem? (l ++ (x ∷ [])) (length l) ≡ some x
get_elem?-last [] x = refl
get_elem?-last (z ∷ l) x = get_elem?-last l x

pub length-snoc : {A : Type 0} (l : List A) (x : A) → length (l ++ (x ∷ [])) ≡ suc (length l)
length-snoc [] x = refl
length-snoc (z ∷ l) x = ap suc (length-snoc l x)

-- What ends a span keeps its ids.
pub ids-end_at :
    (now : ℕ) (messages : List Str) (i : ℕ) (spans : List TraceSpan)
    → map ids (end_at now messages i spans) ≡ map ids spans
ids-end_at now messages i [] = refl
ids-end_at now messages zero (s ∷ spans) = refl
ids-end_at now messages (suc i) (s ∷ spans) = ap (λ l. ids s ∷ l) (ids-end_at now messages i spans)

pub ids-end_first :
    (now : Timestamp) (spans : List TraceSpan) → map ids (end_first now spans) ≡ map ids spans
ids-end_first now [] = refl
ids-end_first now (s ∷ spans) = refl

pub map-snoc :
    (l : List TraceSpan) (s : TraceSpan) → map ids (l ++ (s ∷ [])) ≡ map ids l ++ (ids s ∷ [])
map-snoc [] s = refl
map-snoc (x ∷ l) s = ap (λ r. ids x ∷ r) (map-snoc l s)

pub get_elem?-ids :
    (l : List TraceSpan) (i : ℕ)
    → i < length l
    → (s : TraceSpan) × (get_elem? l i ≡ some s) × (get_elem? (map ids l) i ≡ some (ids s))
get_elem?-ids [] i h = absurd (omega arith)
get_elem?-ids (s ∷ l) zero h = (s, refl, refl)
get_elem?-ids (s ∷ l) (suc i) h = get_elem?-ids l i (omega arith)

pub length-ids : (l : List TraceSpan) → length (map ids l) ≡ length l
length-ids [] = refl
length-ids (x ∷ l) = ap suc (length-ids l)

pub get_elem?-map-ids :
    (l : List TraceSpan) (i : ℕ) (s : TraceSpan)
    → get_elem? l i ≡ some s
    → get_elem? (map ids l) i ≡ some (ids s)
get_elem?-map-ids [] i s h = cc
get_elem?-map-ids (x ∷ l) zero s h = cc
get_elem?-map-ids (x ∷ l) (suc i) s h = get_elem?-map-ids l i s h

pub span_of :
    (l : List TraceSpan) (i a b : ℕ)
    → get_elem? (map ids l) i ≡ some (a, b)
    → (s : TraceSpan) × (get_elem? l i ≡ some s) × (a ≡ s.span_id)
span_of [] i a b h = absurd cc
span_of (x ∷ l) zero a b h = (x, refl, cc)
span_of (x ∷ l) (suc i) a b h = span_of l i a b h

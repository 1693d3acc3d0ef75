-- ===== src/HttpTemplate/Parsed.antt =====
-- The results of `HttpTemplate::Parse` of src/api_manager/http_template.cc.
use esp.Base.{
  ℕ, ◌+◌, ◌≤◌, ◌<◌, ◌≡◌, ◌≢◌, ◌⊎◌, refl, ap, subst, true, false, not, some, List, [], ◌∷◌, ◌++◌,
  map, Str, length, ◌==◌, is_empty, if◌then◌else◌, str_eq, str_eq_iff, inl, inr, Bool-cases, All,
  arith,
}
use esp.HttpTemplate.{
  Parser, Variable, Position, from_start, from_end, Outcome, done, failed, out_of_fuel, answer,
  initial, ensure_current, current_char, consume, k_wild_card_path_key, parse_literal,
  parse_segments, parse_verb, parse_template, consumed_all_input, post_process_variable,
  post_process_variables, parse, is_special, validate_parts, HttpTemplate, template_of, fuel_for,
  parse_http_template,
}
use esp.HttpTemplate.Window.{
  InWindow, Advances, Returns, Suffices, Suffices-Advances, Advances-refl, Returns-bind,
  Returns-answer, Returns-branch, Returns-if, consume-Advances, ensure_current-Advances,
  parse_literal-Returns,
}
use esp.HttpTemplate.Ranges.{
  IsClosed, AreRanges, Fits, Ensures, Ensures-bind, Ensures-answer, Ensures-branch, Ensures-if,
  consume-Fits, ensure_current-Fits, parse_literal-Keeps,
}
use esp.HttpTemplate.Nesting.{parse_segments-Keeps, parse_segments-Returns, Returns-bind_with}

parse_verb-Keeps : (fuel : ℕ) (p : Parser) → Fits false p → Ensures (Fits false) (parse_verb fuel p)
unfolding parse_verb
parse_verb-Keeps fuel p h =
    Ensures-bind (Fits false) (Fits false) (answer tt (consume b':' p)) _
      (Ensures-answer (Fits false) tt _ (λ _. consume-Fits false b':' p h))
      (λ _ q k.
        Ensures-bind (Fits false) (Fits false) (parse_literal fuel q.verb q) _
          (parse_literal-Keeps false fuel q.verb q k)
          (λ lit r j. record { flag = j.flag; ranges = j.ranges }))

parse_verb-Returns :
    (fuel : ℕ) (p : Parser) → InWindow p → Suffices fuel p → Returns p (parse_verb fuel p)
unfolding parse_verb
parse_verb-Returns fuel p w h =
    Returns-bind p (answer tt (consume b':' p)) _
      (Returns-answer p tt _ (consume-Advances b':' p w))
      (λ _ q a.
        Returns-bind q (parse_literal fuel q.verb q) _
          (parse_literal-Returns fuel q.verb q a.window (Suffices-Advances fuel p q h a))
          (λ lit r b. record {
            same = refl;
            forward = omega arith;
            window = record {
              ordered = b.window.ordered;
              narrow = b.window.narrow;
              inside = b.window.inside;
            };
          }))

parse_template-Keeps :
    (fuel : ℕ) (p : Parser) → Fits false p → Ensures (Fits false) (parse_template fuel p)
unfolding parse_template
parse_template-Keeps fuel p h =
    Ensures-bind (Fits false) (Fits false) (answer tt (consume b'/' p)) _
      (Ensures-answer (Fits false) tt _ (λ _. consume-Fits false b'/' p h))
      (λ _ p1 h1.
        Ensures-bind (Fits false) (Fits false) (parse_segments 2 fuel p1) _
          (parse_segments-Keeps false 2 fuel p1 h1)
          (λ _ p2 h2.
            Ensures-branch (Fits false) (Fits false) (ensure_current p2) _ _
              (ensure_current-Fits false p2 h2)
              (λ q k.
                Ensures-if (Fits false) (current_char q == b':') _ _ (parse_verb-Keeps fuel q k) k)
              (λ q k. k)))

parse_template-Returns :
    (fuel : ℕ) (p : Parser)
    → Fits false p
    → InWindow p
    → Suffices fuel p
    → Returns p (parse_template fuel p)
unfolding parse_template
parse_template-Returns fuel p f w h =
    Returns-bind_with p (Fits false) (answer tt (consume b'/' p)) _
      (Returns-answer p tt _ (consume-Advances b'/' p w))
      (Ensures-answer (Fits false) tt _ (λ _. consume-Fits false b'/' p f))
      (λ _ p1 a1 f1.
        let h1 = Suffices-Advances fuel p p1 h a1 in
        Returns-bind p1 (parse_segments 2 fuel p1) _
          (parse_segments-Returns fuel p1 f1 a1.window h1)
          (λ _ p2 a2.
            Returns-branch p2 (ensure_current p2) _ _ (ensure_current-Advances p2 a2.window)
              (λ q a _.
                Returns-if q (current_char q == b':') _ _
                  (λ _.
                    parse_verb-Returns fuel q a.window
                      (Suffices-Advances fuel p2 q (Suffices-Advances fuel p1 p2 h1 a2) a))
                  (λ _. Advances-refl a.window))
              (λ q a _. Advances-refl a.window)))

initial-Fits : (input : Str) → Fits false (initial input)
initial-Fits input = record { flag = refl; ranges = refl }

post_process_variables-Advances : (p : Parser) → InWindow p → Advances p (post_process_variables p)
unfolding post_process_variables
post_process_variables-Advances p w = ground arith

-- `Parse` comes to an end on every input within the fuel that it is given, whatever it answers,
-- and leaves its token window in the same input.
pub parse-Returns : (input : Str) → Returns (initial input) (parse (fuel_for input) (initial input))
unfolding parse
parse-Returns input =
    Returns-bind (initial input) (parse_template (fuel_for input) (initial input)) _
      (parse_template-Returns (fuel_for input) (initial input) (initial-Fits input)
        (record { ordered = omega arith; narrow = omega arith; inside = omega arith })
        (omega arith))
      (λ _ q a.
        Returns-if q (consumed_all_input q) (done tt (post_process_variables q)) (failed q)
          (λ _. post_process_variables-Advances q a.window) (λ _. Advances-refl a.window))

-- The range of a variable over the `n` segments of a template, `k` being 1 where a verb follows
-- them. A position counted from the end leaves room for the verb and for a range that begins
-- before it.
abbrev pub IsRange : ℕ → ℕ → Variable → Position → Type 0
IsRange n k v (from_start e) = (v.has_wildcard_path ≡ false) × (v.start_segment < e) × (e ≤ n)
IsRange n k v (from_end d) = (v.has_wildcard_path ≡ true) × (k < d) × (v.start_segment + d ≤ n + k)

abbrev pub IsBound : ℕ → ℕ → Variable → Type 0
IsBound n k v = (v.field_path ≢ []) × IsRange n k v v.end_segment

-- At most one `**`, and nothing but fixed segments behind it.
abbrev pub HasFixedTail : List Str → Type 0
HasFixedTail ss =
    All (λ s. s ≢ k_wild_card_path_key) ss
    ⊎ ((pre : List Str) × (suf : List Str) × (ss ≡ pre ++ (k_wild_card_path_key ∷ suf))
        × All (λ s. s ≢ k_wild_card_path_key) pre
        × All (λ s. is_special s ≡ false) suf)

validate_parts-true :
    (ss : List Str) → validate_parts true ss ≡ true → All (λ s. is_special s ≡ false) ss
unfolding validate_parts
validate_parts-true [] h = tt
validate_parts-true (s ∷ ss) h = (ground arith, validate_parts-true ss (ground arith))

validate_parts-HasFixedTail : (ss : List Str) → validate_parts false ss ≡ true → HasFixedTail ss
unfolding validate_parts
validate_parts-HasFixedTail [] h = inl tt
validate_parts-HasFixedTail (s ∷ ss) h = elim (Bool-cases (str_eq s k_wild_card_path_key)) [
  | inl wild ↦ inr (
    [],
    ss,
    ap (λ t. t ∷ ss) ((str_eq_iff s _).0 wild),
    tt,
    validate_parts-true ss (rw wild at h),
  )
  | inr plain ↦
      keep (validate_parts-HasFixedTail ss (rw plain at h))
        (ground (arith, str_eq_iff s k_wild_card_path_key))
]
  where
    keep : HasFixedTail ss → s ≢ k_wild_card_path_key → HasFixedTail (s ∷ ss)
    keep (inl a) n = inl (n, a)
    keep (inr (pre, suf, e, a, t)) n = inr (s ∷ pre, suf, ap (λ u. s ∷ u) e, (n, a), t)

-- 1 where there is a verb.
abbrev pub verb_part : Str → ℕ
verb_part verb = if is_empty verb then 0 else 1

post_process_variable-IsBound :
    (n : ℕ) (verb : Str) (v : Variable)
    → IsClosed n v
    → IsBound n (verb_part verb) (post_process_variable n (not (is_empty verb)) v)
unfolding post_process_variable
post_process_variable-IsBound n [] v c = ground (arith, c.from_front)
post_process_variable-IsBound n (x ∷ verb) v c = ground (arith, c.from_front)

map-IsBound :
    (n : ℕ) (verb : Str) (vs : List Variable)
    → AreRanges false n vs
    → All (IsBound n (verb_part verb)) (map (post_process_variable n (not (is_empty verb))) vs)
map-IsBound n verb [] h = tt
map-IsBound n verb (v ∷ []) c = (post_process_variable-IsBound n verb v c, tt)
map-IsBound n verb (v ∷ w ∷ vs) (c, h) =
    (post_process_variable-IsBound n verb v c, map-IsBound n verb (w ∷ vs) h)

-- What holds of a template that is returned.
pub record IsWellFormed (t : HttpTemplate) : Type 0 where
  pub bound : All (IsBound (length t.segments) (verb_part t.verb)) t.variables
  pub fixed_tail : HasFixedTail t.segments

abbrev Answers : Outcome (Unit {0}) → Type 0
Answers o = Ensures (λ p. All (IsBound (length p.segments) (verb_part p.verb)) p.variables) o

parse-Answers : (input : Str) → Answers (parse (fuel_for input) (initial input))
unfolding parse post_process_variables
parse-Answers input =
    Ensures-bind (Fits false)
      (λ p. All (IsBound (length p.segments) (verb_part p.verb)) p.variables)
      (parse_template (fuel_for input) (initial input)) _
      (parse_template-Keeps (fuel_for input) (initial input) (initial-Fits input))
      (λ _ q k.
        Ensures-if (λ p. All (IsBound (length p.segments) (verb_part p.verb)) p.variables)
          (consumed_all_input q) _ _ (map-IsBound (length q.segments) q.verb q.variables k.ranges)
          tt)

template_of-IsWellFormed :
    (o : Outcome (Unit {0})) (t : HttpTemplate)
    → Answers o
    → template_of o ≡ some t
    → IsWellFormed t
unfolding template_of
template_of-IsWellFormed (done u p) t a e = elim (Bool-cases (validate_parts false p.segments)) [
  | inl valid ↦
      let u : HttpTemplate = record {
        segments = p.segments;
        verb = p.verb;
        variables = p.variables;
      } in
      let same : u ≡ t = ground arith in
      subst IsWellFormed same
        (record { bound = a; fixed_tail = validate_parts-HasFixedTail p.segments valid })
  | inr invalid ↦ absurd (ground arith)
]
template_of-IsWellFormed (failed p) t a e = cc
template_of-IsWellFormed out_of_fuel t a e = cc

-- A template that `HttpTemplate::Parse` returns has at most one `**` and only fixed segments
-- behind it; each of its variables names a field and binds a non-empty range of the segments: one
-- with a `**` up to a position counted from the end of the path, its verb included, and any other
-- up to a position counted from the start.
pub parse_http_template-IsWellFormed :
    (input : Str) (t : HttpTemplate) → parse_http_template input ≡ some t → IsWellFormed t
unfolding parse_http_template
parse_http_template-IsWellFormed input t e =
    template_of-IsWellFormed (parse (fuel_for input) (initial input)) t (parse-Answers input) e

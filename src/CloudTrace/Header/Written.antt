-- ===== src/CloudTrace/Header/Written.antt =====
-- Lemmas on the header of the type `CLOUD_TRACE_CONTEXT`: what is read off it, and off one that is
-- written.
use esp.Base.{
  some_same, ℕ, zero, suc, ◌/◌, ◌%◌, ◌^◌, ◌<◌, ◌≡◌, inl, inr, refl, sym, ap, ◌∙◌, Bool, true, false,
  Option, none, some, List, [], ◌∷◌, ◌++◌, Str, bytes, starts_with, find_first, length,
  length-append, take, drop, All, All-append, append_assoc, ◌==◌, Bool-cases, Option-cases, arith,
}
use esp.PathMatcher.Unescape.{ascii_isxdigit}
use esp.RewriteRule.{isdigit, digits_value}
use esp.CloudTrace.{hex_uint128, k_default_trace_options}
use esp.CloudTrace.Stream.{
  fields, read_number, read_digits, decimal, hex_digit, hexadecimal, read_int, read_uint64,
}
use esp.CloudTrace.Stream.Laws.{
  Lacks, fields-append, find_first-append, drop-append, take-append, decimal_digits,
  read_uint64-decimal, decimal_nonempty,
}
use esp.CloudTrace.Header.{
  Ids, enabled_by, with_option, read_options, all_hexadecimal, is_trace_id, read_span_id, split_ids,
  with_span_id, read_ids, if_enabled, read_fields, read_cloud_trace_context,
}

-- Around the first separator.
fields_none : (c x : ℕ) (s : Str) → find_first c (x ∷ s) ≡ none → fields c (x ∷ s) ≡ (x ∷ s) ∷ []
unfolding fields
fields_none c x [] h = elim (Bool-cases (x == c)) [
  | inl p ↦ let e = rw p at h in cc
  | inr p ↦ rw p refl
]
fields_none c x (y ∷ s) h = elim (Bool-cases (x == c)) [
  | inl p ↦ let e = rw p at h in cc
  | inr p ↦ elim (Option-cases (find_first c (y ∷ s))) [
    | inl e ↦ rw (p, fields_none c y s e) refl
    | inr (j, e) ↦ let e' = rw (p, e) at h in cc
  ]
]

fields_nil : (c : ℕ) → fields c [] ≡ []
unfolding fields
fields_nil c = refl

fields_some :
    (c i : ℕ) (s : Str)
    → find_first c s ≡ some i
    → fields c s ≡ take i s ∷ fields c (drop (suc i) s)
unfolding fields
fields_some c i [] h = cc
fields_some c i (x ∷ s) h = elim (Bool-cases (x == c)) [
  | inl p ↦ rw (p, ← some_same (rw p at h)) refl
  | inr p ↦ elim (Option-cases (find_first c s)) [
    | inl e ↦ let e' = rw (p, e) at h in cc
    | inr (j, e) ↦ rw (p, ← some_same (rw (p, e) at h), fields_some c j s e) refl
  ]
]

-- The options that enable a trace are all that is behind the first separator.
read_options_enabled :
    (suffix : Str) (items : List Str) (options o : Str)
    → read_options suffix items options ≡ (true, o)
    → o ≡ suffix
unfolding read_options
read_options_enabled suffix [] options o h = cc
read_options_enabled suffix (item ∷ items) options o h =
    elim (Bool-cases (starts_with (bytes "o=") item)) [
      | inl p ↦ go (enabled_by (read_int (drop 2 item))) (rw p at h)
      | inr p ↦ read_options_enabled suffix items options o (rw p at h)
    ]
  where
    go : (e : Option Bool) → with_option suffix options e ≡ (true, o) → o ≡ suffix
    go none q = cc
    go (some b) q = cc

-- The text of the options, and the id, which enable the trace where they are read.
pub record IsCarried (trace_id options : Str) : Type 0 where
  pub id : is_trace_id trace_id ≡ true
  pub enabled : read_options options (fields b';' options) [] ≡ (true, options)

Lacks-all_hexadecimal : (s : Str) → all_hexadecimal s ≡ true → Lacks b'/' s × Lacks b';' s
unfolding ascii_isxdigit
Lacks-all_hexadecimal [] h = (tt, tt)
Lacks-all_hexadecimal (c ∷ s) h = ground (arith, Lacks-all_hexadecimal s)

all_of_id : (s : Str) → is_trace_id s ≡ true → all_hexadecimal s ≡ true
all_of_id s h = ground arith

digits-Lacks : (s : Str) → All (λ c. isdigit c ≡ true) s → Lacks b';' s
unfolding isdigit
digits-Lacks [] h = tt
digits-Lacks (c ∷ s) (p, h) = (ground arith, digits-Lacks s h)

read_span_id-decimal : (span : ℕ) → span < 2 ^ 64 → read_span_id (decimal 20 span) ≡ some span
read_span_id-decimal span fits =
    go (decimal 20 span) (decimal_nonempty 19 span) (read_uint64-decimal span fits)
  where
    go :
        (t : Str)
        → (c : ℕ) × (s : Str) × (t ≡ c ∷ s)
        → read_uint64 t ≡ some span
        → read_span_id t ≡ some span
    go [] (c, s, e) h = cc
    go (d ∷ t) (c, s, e) h = h

with_span_id_right :
    (s : Str) (o : Option ℕ) (trace_id : Str) (span : ℕ)
    → with_span_id s o ≡ some (trace_id, span)
    → is_trace_id trace_id ≡ true
with_span_id_right s none trace_id span h = cc
with_span_id_right s (some n) trace_id span h = elim (Bool-cases (is_trace_id s)) [
  | inl p ↦ let e = rw p at h in cc
  | inr p ↦ let e = rw p at h in cc
]

read_ids_right :
    (s trace_id : Str) (span : ℕ) → read_ids s ≡ some (trace_id, span) → is_trace_id trace_id ≡ true
unfolding read_ids
read_ids_right s trace_id span h =
    let (id, span_id) = split_ids s (find_first b'/' s) in
    with_span_id_right id (read_span_id span_id) trace_id span h

read_ids-written :
    (trace_id : Str) (span : ℕ)
    → is_trace_id trace_id ≡ true
    → Lacks b'/' trace_id
    → span < 2 ^ 64
    → read_ids (trace_id ++ (b'/' ∷ decimal 20 span)) ≡ some (trace_id, span)
unfolding read_ids
read_ids-written trace_id span h slash fits =
    rw (find_first-append b'/' trace_id (decimal 20 span) slash, take-append, drop-append)
      (rw (read_span_id-decimal span fits, h) refl)

-- Such a trace is read back off the header that is written for it.
pub read_cloud_trace_context-carried :
    (trace_id options : Str) (span : ℕ)
    → IsCarried trace_id options
    → span < 2 ^ 64
    → read_cloud_trace_context (trace_id ++ (b'/' ∷ decimal 20 span ++ (b';' ∷ options)))
      ≡ (some (trace_id, span), options)
unfolding read_cloud_trace_context
read_cloud_trace_context-carried trace_id options span h fits =
    let (slash, semi) = Lacks-all_hexadecimal trace_id (all_of_id trace_id h.id) in
    let ids = trace_id ++ (b'/' ∷ decimal 20 span) in
    let lacks =
      All-append _ trace_id (b'/' ∷ decimal 20 span) semi
        (refl, digits-Lacks _ (decimal_digits 20 span)) in
    let whole = append_assoc trace_id (b'/' ∷ decimal 20 span) (b';' ∷ options) in
    rw
      (
        ← whole,
        fields-append b';' ids options lacks,
        find_first-append b';' ids options lacks,
        drop-append,
        h.enabled,
      )
      (ap (λ i. (i, options)) (read_ids-written trace_id span h.id slash fits))

all_hexadecimal-append :
    (s t : Str)
    → all_hexadecimal s ≡ true
    → all_hexadecimal t ≡ true
    → all_hexadecimal (s ++ t) ≡ true
all_hexadecimal-append [] t h k = k
all_hexadecimal-append (c ∷ s) t h k = ground (arith, all_hexadecimal-append s t)

hex_digit_lem : (d : ℕ) → d < 16 → all_hexadecimal (hex_digit d ∷ []) ≡ true
unfolding ascii_isxdigit
hex_digit_lem d h = ground arith

hexadecimal_digits :
    (w n : ℕ) → (length (hexadecimal w n) ≡ w) × (all_hexadecimal (hexadecimal w n) ≡ true)
unfolding hexadecimal
hexadecimal_digits zero n = (refl, refl)
hexadecimal_digits (suc w) n =
    let (l, a) = hexadecimal_digits w (n / 16) in
    (
      rw (length-append, l) (omega arith),
      all_hexadecimal-append _ _ a (hex_digit_lem (n % 16) (omega arith)),
    )

-- The id that is made of random numbers, with the options of a trace that the sampler turns on.
pub hex_uint128-IsCarried : (hi lo : ℕ) → IsCarried (hex_uint128 hi lo) k_default_trace_options
unfolding hex_uint128
hex_uint128-IsCarried hi lo =
    let (l, a) = hexadecimal_digits 16 hi in
    let (k, b) = hexadecimal_digits 16 lo in
    record {
      id = rw (length-append, l, k, all_hexadecimal-append _ _ a b) refl;
      enabled =
          unfold fields read_options read_int read_number read_digits digits_value isdigit in refl;
    }

-- A text without a separator enables nothing.
one_field :
    (s : Str) {ids : Ids} {options : Str}
    → find_first b';' s ≡ none
    → ¬ (read_fields s (fields b';' s) ≡ (some ids, options))
unfolding fields read_options
one_field [] e h = absurd cc
one_field (c ∷ s) e h = let h' = rw (fields_none b';' c s e) at h in absurd cc

-- What a header says where it enables a trace.
pub read_cloud_trace_context-IsCarried :
    (context trace_id options : Str) (parent : ℕ)
    → read_cloud_trace_context context ≡ (some (trace_id, parent), options)
    → IsCarried trace_id options
unfolding read_cloud_trace_context
read_cloud_trace_context-IsCarried context trace_id options parent h =
    elim (Option-cases (find_first b';' context)) [
      | inl e ↦ absurd (one_field context e h)
      | inr (i, e) ↦
          enabled (take i context) (drop (suc i) context)
            (read_options (drop (suc i) context) (fields b';' (drop (suc i) context)) []) refl
            (rw (fields_some b';' i context e, e) at h)
    ]
  where
    enabled :
        (first suffix : Str) (r : Bool × Str)
        → read_options suffix (fields b';' suffix) [] ≡ r
        → if_enabled first r ≡ (some (trace_id, parent), options)
        → IsCarried trace_id options
    enabled first suffix (false, o) e h = absurd cc
    enabled first suffix (true, o) e h = record {
      id = read_ids_right first trace_id parent (ap (λ r. r.0) h);
      enabled =
          let same =
            sym (ap (λ r. r.1) h) ∙ read_options_enabled suffix (fields b';' suffix) [] o e in
          rw same
            (e ∙ ap (λ t. (true, t)) (read_options_enabled suffix (fields b';' suffix) [] o e));
    }

-- ===== src/PathMatcher/Bindings/Laws.antt =====
-- The bindings of a path against the values of the ranges of the variables.
use esp.Base.{
  not, true, ltb, leb, ◌||◌, ◌%◌, ℕ, zero, suc, ◌+◌, ◌-◌, ◌≤◌, ◌<◌, ◌≡◌, refl, ap, ap₂, ◌∙◌, Bool,
  false, some, List, [], ◌∷◌, ◌++◌, Str, length, get_elem?, map, take, drop, ◌==◌, All, arith,
}
use mathlib.Core.Option
use esp.HttpTemplate.{Variable, Position, from_start, from_end}
use esp.HttpTemplate.Parsed.{IsBound, IsRange}
use esp.PathMatcher.Unescape.{url_unescape_string}
use esp.PathMatcher.Bindings.{
  Binding, size_t_mod, absolute_end, is_multipart, part_value, joined, join_parts, bind_variable,
  is_from_end, emplace, extract_bindings_from_path,
}

-- The parts joined by slashes.
pub intercalate : List Str → Str
intercalate [] = []
intercalate (part ∷ []) = part
intercalate (part ∷ next ∷ parts) = part ++ (b'/' ∷ intercalate (next ∷ parts))

uncons-drop {ℓ} :
    {A : Type ℓ} (xs : List A) (i : ℕ)
    → i < length xs
    → (x : A) × (get_elem? xs i ≡ some x) × (drop i xs ≡ x ∷ drop (suc i) xs)
uncons-drop [] i h = elim h [ ]
uncons-drop (x ∷ xs) zero h = (x, refl, refl)
uncons-drop (x ∷ xs) (suc i) h = uncons-drop xs i (omega arith)

join_parts_zero :
    (keep multipart : Bool) (parts : List Str) (i : ℕ)
    → join_parts keep multipart parts 0 i ≡ some []
unfolding join_parts
join_parts_zero keep multipart parts i = refl

join_parts-suc :
    (keep multipart : Bool) (parts : List Str) (rounds i : ℕ)
    → join_parts keep multipart parts (suc rounds) i
      ≡ joined keep multipart rounds
          (get_elem? parts i)
          (join_parts keep multipart parts rounds (suc i))
unfolding join_parts
join_parts-suc keep multipart parts rounds i = refl

joined_more :
    (keep multipart : Bool) (rounds : ℕ) (part rest : Str)
    → joined keep multipart (suc rounds) (some part) (some rest)
      ≡ some (part_value keep multipart part ++ (b'/' ∷ rest))
joined_more keep multipart rounds part rest =
    let nonzero : (suc rounds == 0) ≡ false = ground arith in rw nonzero

join_parts_step :
    (keep multipart : Bool) (parts : List Str) (rounds i : ℕ) (part rest : Str)
    → get_elem? parts i ≡ some part
    → join_parts keep multipart parts (suc rounds) (suc i) ≡ some rest
    → join_parts keep multipart parts (suc (suc rounds)) i
      ≡ some (part_value keep multipart part ++ (b'/' ∷ rest))
join_parts_step keep multipart parts rounds i part rest found ih =
    join_parts-suc keep multipart parts (suc rounds) i
    ∙ rw (found, ih) (joined_more keep multipart rounds part rest)

-- The loop joins the values of a slice of the parts.
join_parts_lem :
    (keep multipart : Bool) (parts : List Str) (rounds i : ℕ)
    → i + rounds ≤ length parts
    → join_parts keep multipart parts rounds i
      ≡ some (intercalate (map (part_value keep multipart) (take rounds (drop i parts))))
unfolding intercalate
join_parts_lem keep multipart parts zero i h = join_parts_zero keep multipart parts i
join_parts_lem keep multipart parts (suc zero) i h =
    let (part, found, front) = uncons-drop parts i (omega arith) in
    rw front (
      join_parts-suc keep multipart parts 0 i
      ∙ rw (found, join_parts_zero keep multipart parts (suc i)) refl)
join_parts_lem keep multipart parts (suc (suc rounds)) i h =
    let (part, found, front) = uncons-drop parts i (omega arith) in
    let (next, _, behind) = uncons-drop parts (suc i) (omega arith) in
    let ih = join_parts_lem keep multipart parts (suc rounds) (suc i) (omega arith) in
    join_parts_step keep multipart parts rounds i part _ found ih ∙ rw (front, behind) refl

-- The number of parts that a matching request has at least: those of a position counted from the
-- start, and all but one of the segments and the verb for a position counted from the end.
abbrev pub Reaches : ℕ → ℕ → ℕ → Position → Type 0
Reaches n k size (from_start e) = e ≤ size
Reaches n k size (from_end d) = n + k ≤ size + 1

-- The first part behind a range, counted from the start or from the end.
abbrev pub range_end : ℕ → Position → ℕ
range_end size (from_start e) = e
range_end size (from_end d) = (size + 1) - d

-- A range of one part; a range that is counted from the end may have any number of parts.
abbrev pub is_single : ℕ → Position → Bool
is_single start (from_start e) = leb e (start + 1)
is_single start (from_end d) = false

absolute_end-range_end :
    (n k size : ℕ) (v : Variable) (position : Position)
    → size + 2 < size_t_mod
    → IsRange n k v position
    → Reaches n k size position
    → absolute_end size position ≡ range_end size position
unfolding absolute_end
absolute_end-range_end n k size v (from_start e) small h r = refl
absolute_end-range_end n k size v (from_end d) small h r = omega arith

range_end_inside :
    (n k size : ℕ) (v : Variable) (position : Position)
    → IsRange n k v position
    → Reaches n k size position
    → (v.start_segment ≤ range_end size position) × (range_end size position ≤ size)
range_end_inside n k size v (from_start e) h r = omega arith
range_end_inside n k size v (from_end d) h r = omega arith

or_true : (b : Bool) → not (b || true) ≡ false
or_true true = refl
or_true false = refl

difference :
    (start e size : ℕ)
    → size + 2 < size_t_mod
    → start < e
    → e ≤ size
    → (e + (size_t_mod - start)) % size_t_mod ≡ e - start
difference start e size small h r = omega arith

not-is_multipart :
    (n k size : ℕ) (v : Variable) (position : Position)
    → size + 2 < size_t_mod
    → IsRange n k v position
    → Reaches n k size position
    → not (
        ltb 1 ((range_end size position + (size_t_mod - v.start_segment)) % size_t_mod)
        || is_from_end position)
      ≡ is_single v.start_segment position
not-is_multipart n k size v (from_start e) small h r =
    let some_parts : (ltb 1 (e - v.start_segment) || false) ≡ ltb 1 (e - v.start_segment) =
      ground arith in
    rw (difference v.start_segment e size small h.1 r, some_parts) (ground (arith, h.1))
not-is_multipart n k size v (from_end d) small h r =
    or_true (ltb 1 ((range_end size (from_end d) + (size_t_mod - v.start_segment)) % size_t_mod))

-- The value of a part in its range: as it is where it is to be kept, unescaped in full where it is
-- the only one, and else unescaped but for the reserved characters.
abbrev pub bound_part : Bool → Bool → Str → Str
bound_part true single part = part
bound_part false single part = url_unescape_string part single

-- What a variable binds: the values of the parts of its range, joined.
pub bound_value : Bool → List Str → Variable → Binding
bound_value keep parts v =
    let size = range_end (length parts) v.end_segment - v.start_segment in
    record {
      field_path = v.field_path;
      value = intercalate (
          map (bound_part keep (is_single v.start_segment v.end_segment))
            (take size (drop v.start_segment parts)));
    }

map-part_value :
    (keep multipart single : Bool) (parts : List Str)
    → not multipart ≡ single
    → map (part_value keep multipart) parts ≡ map (bound_part keep single) parts
map-part_value keep multipart single [] h = refl
map-part_value true multipart single (part ∷ parts) h =
    ap (λ l. part ∷ l) (map-part_value true multipart single parts h)
map-part_value false multipart single (part ∷ parts) h =
    ap₂ (λ b l. url_unescape_string part b ∷ l) h (map-part_value false multipart single parts h)

bind_variable_lem :
    (keep : Bool) (parts : List Str) (n k : ℕ) (v : Variable)
    → length parts + 2 < size_t_mod
    → IsBound n k v
    → Reaches n k (length parts) v.end_segment
    → bind_variable keep parts v ≡ some (bound_value keep parts v)
unfolding bind_variable bound_value is_multipart
bind_variable_lem keep parts n k v small h r =
    let e = range_end (length parts) v.end_segment in
    let inside = range_end_inside n k (length parts) v v.end_segment h.1 r in
    let multipart =
      ltb 1 ((e + (size_t_mod - v.start_segment)) % size_t_mod) || is_from_end v.end_segment in
    rw (absolute_end-range_end n k (length parts) v v.end_segment small h.1 r) (
      ap (Option.map (λ (value : Str). record { field_path = v.field_path; value = value })) (
        join_parts_lem keep multipart parts (e - v.start_segment) v.start_segment (omega arith)
        ∙ ap (λ l. some (intercalate l))
            (map-part_value keep multipart (is_single v.start_segment v.end_segment)
              (take (e - v.start_segment) (drop v.start_segment parts))
              (not-is_multipart n k (length parts) v v.end_segment small h.1 r))))

-- Where the ranges of the variables are well-formed in a template, a request has the parts that
-- they reach to, and its parts are fewer than 2 ^ 64 - 2, no part is read out of bounds, and
-- every variable binds the parts of its range, counted from the start or the end of the request,
-- joined by slashes: as they are where they are to be kept, unescaped in full for a range that has
-- one part counted from the start, and else unescaped but for the reserved characters.
pub extract_bindings_from_path_lem :
    (vars : List Variable) (parts : List Str) (n k : ℕ) (keep : Bool)
    → length parts + 2 < size_t_mod
    → All (IsBound n k) vars
    → All (λ v. Reaches n k (length parts) v.end_segment) vars
    → extract_bindings_from_path vars parts keep ≡ some (map (bound_value keep parts) vars)
unfolding extract_bindings_from_path
extract_bindings_from_path_lem [] parts n k keep small h r = refl
extract_bindings_from_path_lem (v ∷ vars) parts n k keep small (h, hs) (r, rs) =
    ap₂ emplace (bind_variable_lem keep parts n k v small h r)
      (extract_bindings_from_path_lem vars parts n k keep small hs rs)

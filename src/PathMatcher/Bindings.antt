-- ===== src/PathMatcher/Bindings.antt =====
-- `ExtractBindingsFromPath` and `ExtractBindingsFromQueryParameters`. A `size_t` is a number below
-- 2 ^ 64 and wraps. `none` stands for a read behind the end of the request's parts, which the
-- source does not guard against.
pub mod Laws
pub mod Examples
use esp.Base.{
  ℕ, zero, suc, ◌+◌, ◌-◌, ◌%◌, ◌^◌, Bool, true, false, not, ◌&&◌, ◌||◌, Option, none, some, List,
  [], ◌∷◌, ◌++◌, Str, contains, find_first, length, get_elem?, take, drop, ltb, ◌==◌, if◌then◌else◌,
}
use mathlib.Core.Option
use esp.HttpTemplate.{Variable, Position, from_start, from_end}
use esp.PathMatcher.Unescape.{url_unescape_string}
use esp.PathMatcher.Request.{split}

-- `VariableBinding`.
pub record Binding : Type 0 where
  pub field_path : List Str
  pub value : Str

abbrev pub size_t_mod : ℕ
size_t_mod = 2 ^ 64

-- `end_segment >= 0 ? end_segment : parts.size() + end_segment + 1`.
unfoldable pub absolute_end : ℕ → Position → ℕ
absolute_end size (from_start e) = e
absolute_end size (from_end d) = (size + 1 + (size_t_mod - d)) % size_t_mod

abbrev pub is_from_end : Position → Bool
is_from_end (from_start e) = false
is_from_end (from_end d) = true

unfoldable pub is_multipart : Variable → ℕ → Bool
is_multipart v end_segment =
    ltb 1 ((end_segment + (size_t_mod - v.start_segment)) % size_t_mod) || is_from_end v.end_segment

-- What one part adds to the value.
abbrev pub part_value : Bool → Bool → Str → Str
part_value keep multipart part = if keep then part else url_unescape_string part (not multipart)

-- One round: the part and a slash in front of what the later rounds add, but no slash behind the
-- last part.
abbrev pub joined : Bool → Bool → ℕ → Option Str → Option Str → Option Str
joined keep multipart rounds none rest = none
joined keep multipart rounds (some part) none = none
joined keep multipart rounds (some part) (some rest) = some (
    if rounds == 0
    then part_value keep multipart part
    else part_value keep multipart part ++ (b'/' ∷ rest))

-- The loop over `i`, with the rounds that are left.
unfoldable pub join_parts : Bool → Bool → List Str → ℕ → ℕ → Option Str
join_parts keep multipart parts zero i = some []
join_parts keep multipart parts (suc rounds) i =
    let rest = join_parts keep multipart parts rounds (suc i) in
    joined keep multipart rounds (get_elem? parts i) rest

unfoldable pub bind_variable : Bool → List Str → Variable → Option Binding
bind_variable keep parts v =
    let end_segment = absolute_end (length parts) v.end_segment in
    Option.map (λ value. record { field_path = v.field_path; value = value })
      (join_parts keep (is_multipart v end_segment) parts (end_segment - v.start_segment)
        v.start_segment)

-- `bindings->emplace_back(binding)`, before those of the later variables.
abbrev pub emplace : Option Binding → Option (List Binding) → Option (List Binding)
emplace none bindings = none
emplace (some binding) none = none
emplace (some binding) (some bindings) = some (binding ∷ bindings)

unfoldable pub extract_bindings_from_path : List Variable → List Str → Bool → Option (List Binding)
extract_bindings_from_path [] parts keep = some []
extract_bindings_from_path (v ∷ vars) parts keep =
    emplace (bind_variable keep parts v) (extract_bindings_from_path vars parts keep)

-- One round of the loop over the query's parameters: the binding, unless it is skipped.
pub bind_parameter : List Str → Bool → Str → Option Binding
bind_parameter system_params keep param = elim (find_first b'=' param) [
  | none ↦ none
  | some pos ↦
      if pos == 0 || contains system_params (take pos param)
      then none
      else some (record {
        field_path = split (take pos param) b'.';
        value =
            if keep then drop (suc pos) param else url_unescape_string (drop (suc pos) param) true;
      })
]

pub bind_parameters : List Str → Bool → List Str → List Binding
bind_parameters system_params keep [] = []
bind_parameters system_params keep (param ∷ params) =
    let rest = bind_parameters system_params keep params in
    elim (bind_parameter system_params keep param) [ none ↦ rest | some binding ↦ binding ∷ rest ]

unfoldable pub extract_bindings_from_query_parameters : Str → List Str → Bool → List Binding
unfolding bind_parameter bind_parameters
extract_bindings_from_query_parameters query_params system_params keep =
    bind_parameters system_params keep (split query_params b'&')

-- ===== src/PathMatcher/Bindings/Examples.antt =====
-- Runs of the extraction of bindings of src/api_manager/path_matcher.h and a concrete case of its
-- theorem.
use esp.Base.{◌≡◌, refl, true, false, some, List, [], ◌∷◌, Str, bytes, map, arith}
use esp.HttpTemplate.{Variable, from_start, from_end}
use esp.PathMatcher.Unescape.{url_unescape_string}
use esp.PathMatcher.Request.{split}
use esp.PathMatcher.Bindings.{
  absolute_end, is_multipart, join_parts, bind_variable, extract_bindings_from_path,
  extract_bindings_from_query_parameters,
}
use esp.PathMatcher.Bindings.Laws.{bound_value, extract_bindings_from_path_lem}

-- The variables of the template `/a/{x}/{y=b/**}`.
abbrev variables : List Variable
variables =
    record {
      start_segment = 1;
      end_segment = from_start 2;
      field_path = bytes "x" ∷ [];
      has_wildcard_path = false;
    }
    ∷ record {
      start_segment = 2;
      end_segment = from_end 1;
      field_path = bytes "y" ∷ [];
      has_wildcard_path = true;
    }
    ∷ []

abbrev parts : List Str
parts = bytes "a" ∷ bytes "p%2Fq" ∷ bytes "b" ∷ bytes "c%2Fd" ∷ bytes "e" ∷ []

both_bound :
    extract_bindings_from_path variables parts false
    ≡ some (
        record { field_path = bytes "x" ∷ []; value = bytes "p/q" }
        ∷ record { field_path = bytes "y" ∷ []; value = bytes "b/c%2Fd/e" }
        ∷ [])
unfolding extract_bindings_from_path bind_variable join_parts absolute_end url_unescape_string
    is_multipart
both_bound = refl

system_parameter_left_out :
    extract_bindings_from_query_parameters (bytes "a.b=1%20&key=K&x") (bytes "key" ∷ []) false
    ≡ record { field_path = bytes "a" ∷ bytes "b" ∷ []; value = bytes "1 " } ∷ []
unfolding extract_bindings_from_query_parameters split url_unescape_string
system_parameter_left_out = refl

extract_bindings_from_path_lem_example :
    extract_bindings_from_path variables parts false
    ≡ some (map (bound_value false parts) variables)
extract_bindings_from_path_lem_example =
    extract_bindings_from_path_lem variables parts 4 0 false (omega arith)
      (
        ((λ e. cc), (refl, omega arith, omega arith)),
        (((λ e. cc), (refl, omega arith, omega arith)), tt),
      )
      (omega arith, (omega arith, tt))

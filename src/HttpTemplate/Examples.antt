-- ===== src/HttpTemplate/Examples.antt =====
-- Runs of the parser of src/api_manager/http_template.cc and concrete cases of its theorems.
use esp.Base.{◌≡◌, refl, true, false, none, some, [], ◌∷◌, Str, bytes}
use esp.HttpTemplate.{
  from_start, from_end, HttpTemplate, initial, parse, fuel_for, parse_http_template,
}
use esp.HttpTemplate.Window.{Returns}
use esp.HttpTemplate.Parsed.{IsWellFormed, parse-Returns, parse_http_template-IsWellFormed}

abbrev two_variables : Str
two_variables = bytes "/a/{x}/{y.z=b/**}/c:v"

abbrev two_variables_template : HttpTemplate
two_variables_template = record {
  segments = bytes "a" ∷ bytes "*" ∷ bytes "b" ∷ bytes "**" ∷ bytes "c" ∷ [];
  verb = bytes "v";
  variables =
      record {
        start_segment = 1;
        end_segment = from_start 2;
        field_path = bytes "x" ∷ [];
        has_wildcard_path = false;
      }
      ∷ record {
        start_segment = 2;
        end_segment = from_end 3;
        field_path = bytes "y" ∷ bytes "z" ∷ [];
        has_wildcard_path = true;
      }
      ∷ [];
}

two_variables_parsed : parse_http_template two_variables ≡ some two_variables_template
unfolding parse_http_template
two_variables_parsed = refl

nested_variables : parse_http_template (bytes "/a/{x={y}}") ≡ none
unfolding parse_http_template
nested_variables = refl

two_wildcards : parse_http_template (bytes "/a/**/b/**") ≡ none
unfolding parse_http_template
two_wildcards = refl

empty_segment : parse_http_template (bytes "/a//b") ≡ none
unfolding parse_http_template
empty_segment = refl

parse-Returns_example :
    Returns (initial two_variables) (parse (fuel_for two_variables) (initial two_variables))
parse-Returns_example = parse-Returns two_variables

parse_http_template-IsWellFormed_example : IsWellFormed two_variables_template
parse_http_template-IsWellFormed_example =
    parse_http_template-IsWellFormed two_variables two_variables_template two_variables_parsed

-- ===== src/PathMatcher/Builder/Examples.antt =====
-- Runs of `Register` and `Lookup` of src/api_manager/path_matcher.h and concrete cases of their
-- theorems.
use mathlib.Core.List.{Memᴰ}
use esp.Base.{
  ◌≡◌, ◌≢◌, refl, inl, true, false, ◌&&◌, none, some, is_some, [], ◌∷◌, ◌++◌, Str, bytes, str_eq,
  if◌then◌else◌,
}
use esp.HttpTemplate.{from_start, HttpTemplate, parse_http_template, is_special}
use esp.PathMatcherNode.{
  find_result, find_child, insert_result, at_child, insert_template, get_result_for_http_method,
  find_2_keys_or_null, lookup_path_from_child, lookup_keys, lookup_end, lookup_path,
}
use esp.PathMatcherNode.Stored.{stored, path_eq}
use esp.PathMatcherNode.Matching.{Matches, name, any, end}
use esp.PathMatcher.Unescape.{url_unescape_string}
use esp.PathMatcher.Request.{split, extract_request_parts}
use esp.PathMatcher.Bindings.{
  absolute_end, is_multipart, join_parts, bind_variable, extract_bindings_from_path,
  extract_bindings_from_query_parameters,
}
use esp.PathMatcher.Builder.{
  Method, PathMatcher, new_builder, ok, already_exists, transform_http_template, insert_verb,
  register, found, lookup, lookup_method,
}
use esp.PathMatcher.Builder.Registered.{
  Registration, data_of, run, IsBuilt, start, registered, register_new, register_duplicate,
}
use esp.PathMatcher.Builder.Lookups.{Serves, lookup_method-Serves, lookup_method-finds}

abbrev shelf_method : Method
shelf_method = record {
  name = bytes "GetShelf";
  keep_binding_escaped = false;
  system_query_parameter_names = bytes "key" ∷ [];
}

abbrev get_shelf : Registration
get_shelf = record {
  http_method = bytes "GET";
  http_template = bytes "/shelves/{shelf}:go";
  body_field_path = [];
  method = shelf_method;
}

abbrev shelf_template : HttpTemplate
shelf_template = record {
  segments = bytes "shelves" ∷ bytes "*" ∷ [];
  verb = bytes "go";
  variables =
      record {
        start_segment = 1;
        end_segment = from_start 2;
        field_path = bytes "shelf" ∷ [];
        has_wildcard_path = false;
      }
      ∷ [];
}

abbrev shelf_path : Str
shelf_path = bytes "/shelves/7:go"

abbrev built : PathMatcher
built = (run get_shelf new_builder).1

built-IsBuilt : IsBuilt (get_shelf ∷ []) built
built-IsBuilt = registered get_shelf start

template_parsed : parse_http_template get_shelf.http_template ≡ some shelf_template
unfolding parse_http_template
template_parsed = refl

shelf_found : lookup_method (bytes "GET") shelf_path built ≡ some shelf_method
unfolding lookup_method register parse_http_template extract_request_parts find_result find_child
    insert_result at_child insert_template get_result_for_http_method find_2_keys_or_null
    lookup_path_from_child lookup_keys lookup_end lookup_path
shelf_found = refl

not_posted : lookup_method (bytes "POST") shelf_path built ≡ none
unfolding lookup_method register parse_http_template extract_request_parts find_result find_child
    insert_result at_child insert_template get_result_for_http_method find_2_keys_or_null
    lookup_path_from_child lookup_keys lookup_end lookup_path
not_posted = refl

shelf_bound :
    lookup (bytes "GET") shelf_path (bytes "page=2&key=k") built
    ≡ found (record {
      method = shelf_method;
      variable_bindings =
          record { field_path = bytes "shelf" ∷ []; value = bytes "7" }
          ∷ record { field_path = bytes "page" ∷ []; value = bytes "2" }
          ∷ [];
      body_field_path = [];
    })
unfolding lookup register parse_http_template extract_request_parts extract_bindings_from_path
    extract_bindings_from_query_parameters bind_variable join_parts absolute_end is_multipart
    url_unescape_string split find_result find_child insert_result at_child insert_template
    get_result_for_http_method find_2_keys_or_null lookup_path_from_child lookup_keys lookup_end
    lookup_path
shelf_bound = refl

-- A template with a verb collides with one that has the verb as a segment.
abbrev get_segment : Registration
get_segment = record get_shelf { http_template = bytes "/shelves/{shelf}/go" }

verb_collides :
    (run get_segment built).0
    ≡ already_exists (bytes "Duplicated HTTP template: GET /shelves/{shelf}/go")
unfolding register parse_http_template find_result find_child insert_result at_child insert_template
    get_result_for_http_method find_2_keys_or_null lookup_path_from_child lookup_keys lookup_end
    lookup_path
verb_collides = refl

shelf_matched :
    Matches false
      (transform_http_template shelf_template)
      (extract_request_parts shelf_path built.custom_verbs)
unfolding extract_request_parts register is_special parse_http_template find_result find_child
    insert_result at_child insert_template get_result_for_http_method find_2_keys_or_null
    lookup_path_from_child lookup_keys lookup_end lookup_path
shelf_matched = name (any refl (name end))

verb_plain : is_special shelf_template.verb ≡ false
unfolding is_special
verb_plain = refl

nothing_stored :
    stored (transform_http_template shelf_template) get_shelf.http_method new_builder.root ≡ none
unfolding stored find_child
nothing_stored = refl

shelf_stored :
    stored (transform_http_template shelf_template) get_shelf.http_method built.root
    ≡ some (record { data_ptr = data_of get_shelf shelf_template; is_multiple = false })
unfolding stored register parse_http_template find_result find_child insert_result at_child
    insert_template get_result_for_http_method find_2_keys_or_null lookup_path_from_child
    lookup_keys lookup_end lookup_path
shelf_stored = refl

register_new_example :
    ((run get_shelf new_builder).0 ≡ ok)
    × (stored [] [] (run get_shelf new_builder).1.root ≡ (
        if path_eq (transform_http_template shelf_template) [] && str_eq get_shelf.http_method []
        then some (record { data_ptr = data_of get_shelf shelf_template; is_multiple = false })
        else stored [] [] new_builder.root))
    × ((run get_shelf new_builder).1.methods
        ≡ new_builder.methods ++ (data_of get_shelf shelf_template ∷ []))
    × ((run get_shelf new_builder).1.custom_verbs
        ≡ insert_verb shelf_template.verb new_builder.custom_verbs)
register_new_example =
    register_new get_shelf new_builder shelf_template template_parsed refl nothing_stored [] []

register_duplicate_example :
    ((run get_shelf built).0 ≢ ok)
    × (stored [] [] (run get_shelf built).1.root ≡ (
        if path_eq (transform_http_template shelf_template) [] && str_eq get_shelf.http_method []
        then some (record { data_ptr = data_of get_shelf shelf_template; is_multiple = true })
        else stored [] [] built.root))
    × ((run get_shelf built).1.methods ≡ built.methods)
    × ((run get_shelf built).1.custom_verbs ≡ built.custom_verbs)
register_duplicate_example =
    register_duplicate get_shelf built shelf_template template_parsed refl
      (record { data_ptr = data_of get_shelf shelf_template; is_multiple = false }) shelf_stored []
      []

lookup_method-Serves_example :
    Serves
      (get_shelf ∷ [])
      (bytes "GET")
      (extract_request_parts shelf_path built.custom_verbs)
      shelf_method
lookup_method-Serves_example =
    lookup_method-Serves (get_shelf ∷ []) built (bytes "GET") shelf_path shelf_method built-IsBuilt
      shelf_found

lookup_method-finds_example : is_some (lookup_method (bytes "GET") shelf_path built) ≡ true
lookup_method-finds_example =
    lookup_method-finds (get_shelf ∷ []) built (bytes "GET") shelf_path get_shelf shelf_template
      built-IsBuilt (Memᴰ.head refl) template_parsed refl verb_plain (inl refl) shelf_matched

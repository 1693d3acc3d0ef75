-- ===== src/PathMatcherNode/Examples.antt =====
-- Runs of the trie of src/api_manager/path_matcher_node.cc and concrete cases of its theorems.
use esp.Base.{
  ℕ, ◌≡◌, refl, true, false, not, ◌&&◌, none, some, is_some, List, [], ◌∷◌, Str, bytes, str_eq,
  if◌then◌else◌, inl,
}
use esp.HttpTemplate.{is_special}
use esp.PathMatcherNode.{
  LookupResult, Node, empty_node, find_result, find_child, insert_result, at_child, insert_template,
  get_result_for_http_method, find_2_keys_or_null, lookup_path_from_child, lookup_keys, lookup_end,
  lookup_path,
}
use esp.PathMatcherNode.Stored.{
  stored, updated, path_eq, stored-insert_template, insert_template_new,
}
use esp.PathMatcherNode.Matching.{
  Matches, IsFixedBehind, name, any, skip, end, search, lookup_path-search,
}
use esp.PathMatcherNode.Flags.{AreFlagged, insert_template-AreFlagged}
use esp.PathMatcherNode.Lookup.{Explains, lookup_path_sound, lookup_path_complete}

abbrev get : Str
get = bytes "GET"

abbrev behind_wildcard : List Str
behind_wildcard = bytes "a" ∷ bytes "**" ∷ bytes "z" ∷ []

abbrev single : List Str
single = bytes "a" ∷ bytes "*" ∷ []

-- A trie of two paths, by the insertions themselves.
abbrev one_path : Node ℕ
one_path = (insert_template behind_wildcard get 1 true empty_node).1

abbrev two_paths : Node ℕ
two_paths = (insert_template single get 2 true one_path).1

abbrev stored_under : ℕ → LookupResult ℕ
stored_under d = record { data_ptr = d; is_multiple = false }

two_paths-AreFlagged : AreFlagged false two_paths
two_paths-AreFlagged =
    insert_template-AreFlagged single get 2 true false one_path
      (insert_template-AreFlagged behind_wildcard get 1 true false empty_node (refl, tt))

abbrev request : List Str
request = bytes "a" ∷ bytes "x" ∷ bytes "y" ∷ bytes "z" ∷ []

request_found : lookup_path request get two_paths none ≡ some (stored_under 1)
unfolding insert_template lookup_path insert_result at_child find_child find_result lookup_end
    get_result_for_http_method find_2_keys_or_null lookup_path_from_child lookup_keys
request_found = refl

wildcard_stored : stored behind_wildcard get two_paths ≡ some (stored_under 1)
unfolding stored insert_template insert_result at_child find_child find_result
wildcard_stored = refl

request_matched : Matches false behind_wildcard request
unfolding is_special
request_matched = name (any refl (skip refl (name end)))

behind_wildcard-IsFixedBehind : IsFixedBehind false behind_wildcard
unfolding is_special
behind_wildcard-IsFixedBehind = (refl, tt)

stored-insert_template_example :
    stored behind_wildcard get (insert_template behind_wildcard get 7 true two_paths).1 ≡ (
      if path_eq behind_wildcard behind_wildcard && str_eq get get
      then some (updated 7 true (stored behind_wildcard get two_paths))
      else stored behind_wildcard get two_paths)
stored-insert_template_example =
    stored-insert_template behind_wildcard behind_wildcard get get 7 true two_paths

insert_template_new_test :
    (insert_template single get 7 true one_path).0 ≡ not (is_some (stored single get one_path))
insert_template_new_test = insert_template_new single get 7 true one_path

insert_template-AreFlagged_example :
    AreFlagged false (insert_template single get 7 true two_paths).1
insert_template-AreFlagged_example =
    insert_template-AreFlagged single get 7 true false two_paths two_paths-AreFlagged

lookup_path-search_example : lookup_path request get two_paths none ≡ search request get two_paths
lookup_path-search_example = lookup_path-search request get two_paths

lookup_path_sound_example : Explains false request get two_paths (stored_under 1)
lookup_path_sound_example =
    lookup_path_sound request get two_paths (stored_under 1) two_paths-AreFlagged request_found

lookup_path_complete_example : is_some (lookup_path request get two_paths none) ≡ true
lookup_path_complete_example =
    lookup_path_complete behind_wildcard request get two_paths (stored_under 1) two_paths-AreFlagged
      behind_wildcard-IsFixedBehind request_matched (inl wildcard_stored)

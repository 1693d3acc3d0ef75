-- ===== src/PathMatcher/Builder.antt =====
-- `PathMatcherBuilder` with `Register`, `TransformHttpTemplate`, and `PathMatcher::Lookup`.
--
-- A `MethodData` object never changes once it is registered, so a pointer to it is the object
-- itself, and a null pointer is `none`.
pub mod Registered
pub mod Lookups
pub mod Examples
use esp.Base.{
  Bool, true, false, not, Option, none, some, List, [], ◌∷◌, ◌++◌, Str, is_empty, bytes,
  if◌then◌else◌,
}
use esp.HttpTemplate.{Variable, HttpTemplate, parse_http_template}
use esp.PathMatcherNode.{LookupResult, Node, empty_node, insert_path, lookup_path}
use esp.PathMatcher.Request.{extract_request_parts}
use esp.PathMatcher.Bindings.{
  Binding, extract_bindings_from_path, extract_bindings_from_query_parameters,
}

-- What the matcher asks of its template parameter `Method`.
pub record Method : Type 0 where
  pub name : Str
  pub keep_binding_escaped : Bool
  pub system_query_parameter_names : List Str

pub record MethodData : Type 0 where
  pub method : Method
  pub variables : List Variable
  pub body_field_path : Str

-- `PathMatcherBuilder`, and the `PathMatcher` that `Build` moves its members to.
pub record PathMatcher : Type 0 where
  pub root : Node MethodData
  pub custom_verbs : List Str
  pub methods : List MethodData

abbrev pub new_builder : PathMatcher
new_builder = record { root = empty_node; custom_verbs = []; methods = [] }

-- `utils::Status` as `Register` returns it, with its message.
pub data Status : Type 0 where
  ok : Status
  invalid_argument already_exists : Str → Status

-- `TransformHttpTemplate`.
abbrev pub transform_http_template : HttpTemplate → List Str
transform_http_template ht =
    if not (is_empty ht.verb) then ht.segments ++ (ht.verb ∷ []) else ht.segments

pub insert_verb : Str → List Str → List Str
insert_verb verb verbs = if not (is_empty verb) then verb ∷ verbs else verbs

-- `Register`, behind the parse.
pub register_template : Str → Str → Str → Method → HttpTemplate → PathMatcher → Status × PathMatcher
register_template http_method http_template body_field_path method ht b =
    let path = transform_http_template ht in
    let d : MethodData = record {
      method = method;
      variables = ht.variables;
      body_field_path = body_field_path;
    } in
    let inserted = insert_path path http_method d true b.root in
    if is_empty path
    then (invalid_argument (bytes "Invalid HTTP template: " ++ http_template), b)
    else if not inserted.0
    then (
      already_exists
          (bytes "Duplicated HTTP template: " ++ (http_method ++ (b' ' ∷ http_template))),
      record b { root = inserted.1 },
    )
    else (
      ok,
      record {
        root = inserted.1;
        custom_verbs = insert_verb ht.verb b.custom_verbs;
        methods = b.methods ++ (d ∷ []);
      },
    )

unfoldable pub register : Str → Str → Str → Method → PathMatcher → Status × PathMatcher
unfolding register_template insert_verb
register http_method http_template body_field_path method b =
    elim (parse_http_template http_template) [
      | none ↦ (invalid_argument (bytes "Invalid HTTP template: " ++ http_template), b)
      | some ht ↦ register_template http_method http_template body_field_path method ht b
    ]

-- The trie's answer to a request.
abbrev pub find_method : PathMatcher → Str → List Str → Option (LookupResult MethodData)
find_method m http_method parts = lookup_path parts http_method m.root none

-- What a lookup answers: the method, and the two out parameters.
pub record Found : Type 0 where
  pub method : Method
  pub variable_bindings : List Binding
  pub body_field_path : Str

-- The two sets of bindings; `none` is the read out of bounds of `ExtractBindingsFromPath`.
abbrev pub all_bindings : Option (List Binding) → List Binding → Option (List Binding)
all_bindings none query = none
all_bindings (some path) query = some (path ++ query)

abbrev pub found_with : MethodData → Option (List Binding) → Option Found
found_with d none = none
found_with d (some bindings) = some (record {
  method = d.method;
  variable_bindings = bindings;
  body_field_path = d.body_field_path;
})

-- An answer of `Lookup`: the null pointer, a method, or a read out of bounds.
pub data Answer : Type 0 where
  not_found out_of_bounds : Answer
  found : Found → Answer

abbrev pub answer_of : Option Found → Answer
answer_of none = out_of_bounds
answer_of (some f) = found f

pub lookup_in : List Str → Str → Option (LookupResult MethodData) → Answer
lookup_in parts query_params none = not_found
lookup_in parts query_params (some r) =
    let d = r.data_ptr in
    let keep = d.method.keep_binding_escaped in
    answer_of (
      found_with d (
        all_bindings (extract_bindings_from_path d.variables parts keep) (
          extract_bindings_from_query_parameters query_params d.method.system_query_parameter_names
            keep)))

-- `Lookup` with its out parameters.
unfoldable pub lookup : Str → Str → Str → PathMatcher → Answer
unfolding lookup_in
lookup http_method path query_params m =
    let parts = extract_request_parts path m.custom_verbs in
    lookup_in parts query_params (find_method m http_method parts)

-- `Lookup` of the method alone.
unfoldable pub lookup_method : Str → Str → PathMatcher → Option Method
lookup_method http_method path m =
    elim (find_method m http_method (extract_request_parts path m.custom_verbs)) [
      | none ↦ none
      | some r ↦ some r.data_ptr.method
    ]

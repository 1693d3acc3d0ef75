-- ===== src/RequestContext/BackendPath.antt =====
-- `GetBackendPath` and `ShouldOverrideBackend` of src/api_manager/context/request_context.cc.
use esp.Base.{
  Bool, true, false, Option, none, some, List, [], ◌∷◌, ◌++◌, Str, is_empty, is_some, find_first,
  if◌then◌else◌,
}
use esp.Request.{Request}
use esp.MethodInfo.{
  MethodInfo, unspecified, constant_address, append_path_to_address, PathTranslation,
}
use esp.PathMatcher.Bindings.{Binding}
use esp.RequestContext.{Service, RequestContext, method, or_else}

-- A name of a field: a name with an underscore is written as its JSON name, if it has one.
unfoldable pub field_name : Service → Str → Str
field_name service name =
    if is_some (find_first b'_' name) then or_else (service.json_name name) name else name

unfoldable pub field_path_of : Service → List Str → Str
field_path_of service [] = []
field_path_of service (f ∷ []) = field_name service f
field_path_of service (f ∷ g ∷ fs) = field_name service f ++ (b'.' ∷ field_path_of service (g ∷ fs))

abbrev pub parameter_of : Service → Binding → Str
parameter_of service b = field_path_of service b.field_path ++ (b'=' ∷ b.value)

unfoldable pub parameters_of : Service → List Binding → Str
parameters_of service [] = []
parameters_of service (b ∷ []) = parameter_of service b
parameters_of service (b ∷ c ∷ bs) =
    parameter_of service b ++ (b'&' ∷ parameters_of service (c ∷ bs))

abbrev pub translated : Service → Request → List Binding → MethodInfo → PathTranslation → Str
translated service r bindings m append_path_to_address =
    if is_empty m.backend_path then [] else m.backend_path ++ r.unparsed_path
translated service r bindings m constant_address =
    let parameters = parameters_of service bindings in
    if is_empty parameters then m.backend_path else m.backend_path ++ (b'?' ∷ parameters)
translated service r bindings m unspecified = []

abbrev pub path_for : Service → RequestContext → Option MethodInfo → Str
path_for service c none = []
path_for service c (some m) =
    translated service c.request c.method_call.variable_bindings m m.backend_path_translation

-- `GetBackendPath`: no path is the empty one.
unfoldable pub get_backend_path : Service → RequestContext → Str
get_backend_path service c = path_for service c (method c)

abbrev pub is_translated : PathTranslation → Bool
is_translated unspecified = false
is_translated constant_address = true
is_translated append_path_to_address = true

abbrev pub overrides : Option MethodInfo → Bool
overrides none = false
overrides (some m) = is_translated m.backend_path_translation

-- `ShouldOverrideBackend`.
unfoldable pub should_override_backend : RequestContext → Bool
should_override_backend c = overrides (method c)

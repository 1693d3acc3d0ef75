-- ===== src/MethodInfo/Examples.antt =====
-- Runs of the method information of src/api_manager/method_impl.cc and concrete cases of its theorems.
use esp.Base.{◌≡◌, refl, true, some, [], ◌∷◌, bytes, arith}
use esp.PathMatcher.Request.{split}
use esp.UrlUtil.{get_url_content}
use esp.MethodInfo.{
  AuthProvider, constant_address, MethodInfo, new_method_info, map_find, map_update, add_audiences,
  add_provider, add_auth_provider, is_issuer_allowed, is_audience_allowed,
  authorization_url_by_issuer, add_url_query_parameter, process_system_parameters, insert_all,
  insert_names, process_system_query_parameter_names,
}
use esp.MethodInfo.Backend.{
  process_backend_rule, LacksSlash, process_backend_rule_full, process_backend_rule_one_slash,
  process_backend_rule_no_path,
}
use esp.MethodInfo.Providers.{add_auth_provider_issuer, add_auth_provider_audience}

abbrev plain_method : MethodInfo
plain_method = new_method_info (bytes "m") (bytes "api") (bytes "v1")

abbrev provider : AuthProvider
provider = record { audiences = bytes "aud" ∷ bytes "api" ∷ []; authorization_url = bytes "u" }

abbrev with_issuer : MethodInfo
with_issuer = record plain_method { issuer_provider_map = (bytes "iss", provider) ∷ [] }

issuer_added :
    add_auth_provider (bytes "https://iss/") (bytes "api,https://aud") (bytes "u") plain_method
    ≡ some with_issuer
unfolding add_auth_provider add_provider add_audiences map_find map_update get_url_content split
issuer_added = refl

default_keys :
    (process_system_query_parameter_names
      (process_system_parameters plain_method)).system_query_parameter_names
    ≡ bytes "api_key" ∷ bytes "key" ∷ []
unfolding process_system_query_parameter_names process_system_parameters insert_names map_find
default_keys = refl

configured_key :
    (process_system_query_parameter_names (
      process_system_parameters (
        add_url_query_parameter
          (bytes "api_key")
          (bytes "k")
          plain_method))).system_query_parameter_names
    ≡ bytes "k" ∷ []
unfolding process_system_query_parameter_names process_system_parameters add_url_query_parameter
    insert_names insert_all map_find map_update
configured_key = refl

http_lacks : LacksSlash (bytes "h:")
http_lacks = ((λ e. (omega arith)), ((λ e. (omega arith)), tt))

one_lacks : LacksSlash (bytes "x")
one_lacks = ((λ e. (omega arith)), tt)

process_backend_rule_full_test :
    process_backend_rule (bytes "h://x/p") constant_address (bytes "aud") plain_method
    ≡ some (record plain_method {
      backend_address = bytes "h://x";
      backend_path = bytes "/p";
      backend_path_translation = constant_address;
      backend_jwt_audience = bytes "aud";
    })
process_backend_rule_full_test =
    process_backend_rule_full (bytes "h:") [] (bytes "x") (bytes "p") constant_address (bytes "aud")
      plain_method http_lacks tt one_lacks (λ e. (omega arith))

one_slash_split :
    process_backend_rule (bytes "x/p") constant_address (bytes "aud") plain_method
    ≡ some (record plain_method {
      backend_address = bytes "x";
      backend_path = bytes "/p";
      backend_path_translation = constant_address;
      backend_jwt_audience = bytes "aud";
    })
one_slash_split =
    process_backend_rule_one_slash (bytes "x") (bytes "p") constant_address (bytes "aud")
      plain_method one_lacks ((λ e. (omega arith)), tt) (λ e. (omega arith))

no_path_split :
    process_backend_rule (bytes "h://x/") constant_address (bytes "aud") plain_method
    ≡ some (record plain_method {
      backend_address = bytes "h://x";
      backend_path = bytes "/";
      backend_path_translation = constant_address;
      backend_jwt_audience = bytes "aud";
    })
no_path_split =
    process_backend_rule_no_path (bytes "h:") [] (bytes "x") constant_address (bytes "aud")
      plain_method http_lacks tt one_lacks

issuer_content : get_url_content (bytes "https://iss/") ≡ some (bytes "iss")
unfolding get_url_content
issuer_content = refl

audience_content : get_url_content (bytes "https://aud") ≡ some (bytes "aud")
unfolding get_url_content
audience_content = refl

add_auth_provider_issuer_example :
    (is_issuer_allowed (bytes "iss") with_issuer ≡ true)
    × (authorization_url_by_issuer (bytes "iss") with_issuer ≡ bytes "u")
    × (map_find (bytes "other") with_issuer.issuer_provider_map
        ≡ map_find (bytes "other") plain_method.issuer_provider_map)
add_auth_provider_issuer_example =
    add_auth_provider_issuer (bytes "https://iss/") (bytes "iss") (bytes "api,https://aud")
      (bytes "u") (bytes "other") plain_method with_issuer issuer_content refl issuer_added
      (λ e. cc)

add_auth_provider_audience_test :
    is_audience_allowed (bytes "iss") (bytes "aud" ∷ []) with_issuer ≡ true
unfolding split
add_auth_provider_audience_test =
    add_auth_provider_audience (bytes "https://iss/") (bytes "iss") (bytes "api,https://aud")
      (bytes "u") (bytes "https://aud") (bytes "aud") plain_method with_issuer issuer_content refl
      issuer_added refl audience_content refl

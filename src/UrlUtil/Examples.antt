-- ===== src/UrlUtil/Examples.antt =====
-- Runs of the url helpers of src/api_manager/utils/url_util.cc and a concrete case of their theorem.
use esp.Base.{◌≡◌, refl, none, some, [], ◌∷◌, ◌++◌, Str, bytes, arith}
use esp.UrlUtil.{http_prefix, https_prefix, get_url_content, is_http_request}
use esp.UrlUtil.Laws.{get_url_content_same}

abbrev host : Str
host = bytes "a.b"

content : get_url_content (bytes "https://a.b/") ≡ some host
unfolding get_url_content
content = refl

no_content : get_url_content (bytes "https://") ≡ none
unfolding get_url_content
no_content = refl

get_url_content_same_test :
    (get_url_content host ≡ some host)
    × (get_url_content (host ++ (b'/' ∷ [])) ≡ some host)
    × (get_url_content (http_prefix ++ host) ≡ some host)
    × (get_url_content (http_prefix ++ (host ++ (b'/' ∷ []))) ≡ some host)
    × (get_url_content (https_prefix ++ host) ≡ some host)
    × (get_url_content (https_prefix ++ (host ++ (b'/' ∷ []))) ≡ some host)
unfolding is_http_request
get_url_content_same_test = get_url_content_same host refl refl (λ e. (omega arith))

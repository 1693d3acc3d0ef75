-- ===== src/UrlUtil.antt =====
-- The url helpers of src/api_manager/utils/url_util.cc.
pub mod Laws
pub mod Examples
use mathlib.Core.Option
use esp.Base.{
  ℕ, suc, Bool, ◌||◌, Option, none, some, List, [], ◌∷◌, Str, bytes, starts_with, drop, ◌==◌,
  if◌then◌else◌,
}

abbrev pub http_prefix : Str
http_prefix = bytes "http://"

abbrev pub https_prefix : Str
https_prefix = bytes "https://"

-- `if (result.back() == c) result.pop_back()`. The last byte of an empty string is not defined:
-- `none`.
unfoldable pub pop_back_if : ℕ → Str → Option Str
pop_back_if c [] = none
pop_back_if c (x ∷ []) = some (if x == c then [] else x ∷ [])
pop_back_if c (x ∷ y ∷ s) = Option.map (λ t. x ∷ t) (pop_back_if c (y ∷ s))

-- The url without its scheme.
unfoldable pub strip_scheme : Str → Str
strip_scheme url =
    if starts_with https_prefix url
    then drop 8 url
    else if starts_with http_prefix url
    then drop 7 url
    else url

-- `GetUrlContent`.
unfoldable pub get_url_content : Str → Option Str
unfolding strip_scheme pop_back_if
get_url_content url = pop_back_if b'/' (strip_scheme url)

-- `IsHttpRequest`.
unfoldable pub is_http_request : Str → Bool
is_http_request url = starts_with http_prefix url || starts_with https_prefix url

-- ===== src/PathMatcher/Unescape/Examples.antt =====
-- Runs of `UrlUnescapeString` of src/api_manager/path_matcher.h and concrete cases of its theorems.
use esp.Base.{◌≡◌, refl, true, false, Str, bytes, arith}
use esp.PathMatcher.Unescape.{url_unescape_string, unescape_loop}
use esp.PathMatcher.Unescape.Laws.{
  percent_encode, encode_reserved, url_unescape_string_loop, unescape-percent_encode,
}

abbrev escaped : Str
escaped = bytes "a%2Fb%20c%zz"

reserved_kept : url_unescape_string escaped false ≡ bytes "a%2Fb c%zz"
unfolding url_unescape_string
reserved_kept = refl

all_unescaped : url_unescape_string escaped true ≡ bytes "a/b c%zz"
unfolding url_unescape_string
all_unescaped = refl

url_unescape_string_loop_example : url_unescape_string escaped false ≡ unescape_loop false escaped
url_unescape_string_loop_example = url_unescape_string_loop escaped false

abbrev plain : Str
plain = bytes "a/b c"

unescape-percent_encode_example :
    url_unescape_string (percent_encode plain) false ≡ encode_reserved false plain
unescape-percent_encode_example =
    unescape-percent_encode false plain
      (omega arith, (omega arith, (omega arith, (omega arith, (omega arith, tt)))))

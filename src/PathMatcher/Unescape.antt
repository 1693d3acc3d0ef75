-- ===== src/PathMatcher/Unescape.antt =====
-- `UrlUnescapeString` and its helpers, on bytes. An index into the string is the string from there.
pub mod Laws
pub mod Examples
use esp.Base.{
  ℕ, ◌+◌, ◌*◌, ◌%◌, Bool, true, false, not, ◌&&◌, ◌||◌, Option, none, some, List, [], ◌∷◌, Str, ltb,
  leb, ◌==◌, if◌then◌else◌,
}

-- Reserved characters according to RFC 6570.
unfoldable pub is_reserved_char : ℕ → Bool
is_reserved_char c =
    c == b'!'
    || c == b'#'
    || c == b'$'
    || c == b'&'
    || c == b'\''
    || c == b'('
    || c == b')'
    || c == b'*'
    || c == b'+'
    || c == b','
    || c == b'/'
    || c == b':'
    || c == b';'
    || c == b'='
    || c == b'?'
    || c == b'@'
    || c == b'['
    || c == b']'

unfoldable pub ascii_isxdigit : ℕ → Bool
ascii_isxdigit c =
    (leb b'a' c && leb c b'f') || (leb b'A' c && leb c b'F') || (leb b'0' c && leb c b'9')

unfoldable pub hex_digit_to_int : ℕ → ℕ
hex_digit_to_int c = (if ltb b'9' c then c + 9 else c) % 16

-- The byte of two digits: the upper four bits and the lower four are disjoint.
abbrev pub byte_of : ℕ → ℕ → ℕ
byte_of a b = hex_digit_to_int a * 16 + hex_digit_to_int b

-- `GetEscapedChar`; `none` where it answers `false`.
pub get_escaped_char : Bool → Str → Option ℕ
get_escaped_char unescape_reserved_chars (c ∷ a ∷ b ∷ s) =
    if c == b'%' && (ascii_isxdigit a && ascii_isxdigit b)
    then (if not unescape_reserved_chars && is_reserved_char (byte_of a b)
        then none
        else some (byte_of a b))
    else none
get_escaped_char unescape_reserved_chars _ = none

-- The first loop: is there anything to unescape?
pub needs_unescaping : Bool → Str → Bool
needs_unescaping flag [] = false
needs_unescaping flag (c ∷ s) = elim (get_escaped_char flag (c ∷ s)) [
  | some ch ↦ true
  | none ↦ needs_unescaping flag s
]

-- The second loop.
pub unescape_loop : Bool → Str → Str
unescape_loop flag [] = []
unescape_loop flag (c ∷ []) = c ∷ []
unescape_loop flag (c ∷ d ∷ []) = c ∷ d ∷ []
unescape_loop flag (c ∷ a ∷ b ∷ s) = elim (get_escaped_char flag (c ∷ a ∷ b ∷ s)) [
  | some ch ↦ ch ∷ unescape_loop flag s
  | none ↦ c ∷ unescape_loop flag (a ∷ b ∷ s)
]

unfoldable pub url_unescape_string : Str → Bool → Str
unfolding is_reserved_char ascii_isxdigit hex_digit_to_int get_escaped_char needs_unescaping
    unescape_loop
url_unescape_string part flag = if needs_unescaping flag part then unescape_loop flag part else part

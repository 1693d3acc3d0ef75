-- ===== src/PathMatcher/Unescape/Laws.antt =====
-- Unescaping against percent-encoding, and with its early exit.
use esp.Base.{
  ℕ, ◌+◌, ◌-◌, ◌*◌, ◌/◌, ◌%◌, ◌<◌, ◌≡◌, refl, ◌∙◌, ap, Bool, true, false, not, ◌&&◌, Option, none,
  some, [], ◌∷◌, Str, ltb, ◌==◌, if◌then◌else◌, All, inl, inr, Bool-cases, arith,
}
use esp.PathMatcher.Unescape.{
  is_reserved_char, ascii_isxdigit, hex_digit_to_int, get_escaped_char, needs_unescaping,
  unescape_loop, url_unescape_string,
}

unescape_loop-none :
    (flag : Bool) (c a b : ℕ) (s : Str)
    → get_escaped_char flag (c ∷ a ∷ b ∷ s) ≡ none
    → unescape_loop flag (c ∷ a ∷ b ∷ s) ≡ c ∷ unescape_loop flag (a ∷ b ∷ s)
unfolding unescape_loop
unescape_loop-none flag c a b s e = rw (e, unescape_loop)

unescape_loop-some :
    (flag : Bool) (c a b d : ℕ) (s : Str)
    → get_escaped_char flag (c ∷ a ∷ b ∷ s) ≡ some d
    → unescape_loop flag (c ∷ a ∷ b ∷ s) ≡ d ∷ unescape_loop flag s
unfolding unescape_loop
unescape_loop-some flag c a b d s e = rw (e, unescape_loop)

needs_unescaping-false :
    (flag : Bool) (c : ℕ) (s : Str)
    → needs_unescaping flag (c ∷ s) ≡ false
    → (get_escaped_char flag (c ∷ s) ≡ none) × (needs_unescaping flag s ≡ false)
unfolding needs_unescaping
needs_unescaping-false flag c s h = go (get_escaped_char flag (c ∷ s)) refl h
  where
    go :
        (o : Option ℕ)
        → get_escaped_char flag (c ∷ s) ≡ o
        → (elim o [ some ch ↦ true | none ↦ needs_unescaping flag s ]) ≡ false
        → (get_escaped_char flag (c ∷ s) ≡ none) × (needs_unescaping flag s ≡ false)
    go none q h = (q, h)
    go (some d) q h = cc

unescape_loop_plain :
    (flag : Bool) (s : Str) → needs_unescaping flag s ≡ false → unescape_loop flag s ≡ s
unfolding unescape_loop
unescape_loop_plain flag [] h = refl
unescape_loop_plain flag (c ∷ []) h = refl
unescape_loop_plain flag (c ∷ d ∷ []) h = refl
unescape_loop_plain flag (c ∷ a ∷ b ∷ s) h =
    let (e, k) = needs_unescaping-false flag c (a ∷ b ∷ s) h in
    unescape_loop-none flag c a b s e ∙ ap (λ t. c ∷ t) (unescape_loop_plain flag (a ∷ b ∷ s) k)

-- The first pass over the string is an optimisation: the result is that of the loop.
pub url_unescape_string_loop :
    (part : Str) (flag : Bool) → url_unescape_string part flag ≡ unescape_loop flag part
url_unescape_string_loop part flag = elim (Bool-cases (needs_unescaping flag part)) [
  | inl found ↦ early found
  | inr plain ↦ late plain (unescape_loop_plain flag part plain)
]
  where
    early :
        needs_unescaping flag part ≡ true → url_unescape_string part flag ≡ unescape_loop flag part
    early e = unfold url_unescape_string in rw e

    late :
        needs_unescaping flag part ≡ false
        → unescape_loop flag part ≡ part
        → url_unescape_string part flag ≡ unescape_loop flag part
    late e k = unfold url_unescape_string in rw (e, k)

-- An upper-case hexadecimal digit.
pub hex_digit : ℕ → ℕ
hex_digit n = if ltb n 10 then b'0' + n else b'A' + (n - 10)

-- `%XX`.
abbrev pub escape : ℕ → Str → Str
escape c s = b'%' ∷ hex_digit (c / 16) ∷ hex_digit (c % 16) ∷ s

hex_digit_lem :
    (n : ℕ)
    → n < 16
    → (ascii_isxdigit (hex_digit n) ≡ true)
      × (hex_digit_to_int (hex_digit n) ≡ n)
      × ((hex_digit n == b'%') ≡ false)
unfolding ascii_isxdigit hex_digit_to_int hex_digit
hex_digit_lem n h = (ground arith, ground arith, ground arith)

get_escaped_char-escape :
    (flag : Bool) (c : ℕ) (s : Str)
    → c < 256
    → get_escaped_char flag (escape c s) ≡ (if not flag && is_reserved_char c then none else some c)
unfolding get_escaped_char
get_escaped_char-escape flag c s h =
    let (hi, hi_value, _) = hex_digit_lem (c / 16) (omega arith) in
    let (lo, lo_value, _) = hex_digit_lem (c % 16) (omega arith) in
    let whole : c / 16 * 16 + c % 16 ≡ c = omega arith in
    rw (hi, lo, hi_value, lo_value)
      (ap (λ (v : ℕ). if not flag && is_reserved_char v then none else some v) whole)

get_escaped_char_plain :
    (flag : Bool) (c a b : ℕ) (s : Str)
    → (c == b'%') ≡ false
    → get_escaped_char flag (c ∷ a ∷ b ∷ s) ≡ none
unfolding get_escaped_char
get_escaped_char_plain flag c a b s h = rw h

-- A byte other than `%` is kept.
unescape_loop_keep :
    (flag : Bool) (c : ℕ) (s : Str)
    → (c == b'%') ≡ false
    → unescape_loop flag (c ∷ s) ≡ c ∷ unescape_loop flag s
unescape_loop_keep flag c [] h = unfold unescape_loop in refl
unescape_loop_keep flag c (a ∷ []) h = unfold unescape_loop in refl
unescape_loop_keep flag c (a ∷ b ∷ s) h =
    unescape_loop-none flag c a b s (get_escaped_char_plain flag c a b s h)

unescape_loop-escape :
    (flag : Bool) (c : ℕ) (s : Str)
    → c < 256
    → unescape_loop flag (escape c s) ≡ (
        if not flag && is_reserved_char c
        then escape c (unescape_loop flag s)
        else c ∷ unescape_loop flag s)
unescape_loop-escape flag c s h = elim (Bool-cases (not flag && is_reserved_char c)) [
  | inl kept ↦
      let e = get_escaped_char-escape flag c s h in
      let (_, _, hi) = hex_digit_lem (c / 16) (omega arith) in
      let (_, _, lo) = hex_digit_lem (c % 16) (omega arith) in
      rw kept (
        unescape_loop-none flag b'%' (hex_digit (c / 16)) (hex_digit (c % 16)) s (e ∙ rw kept)
        ∙ ap (λ (t : Str). b'%' ∷ t)
            (unescape_loop_keep flag (hex_digit (c / 16)) (hex_digit (c % 16) ∷ s) hi
              ∙ ap (λ (t : Str). hex_digit (c / 16) ∷ t)
                  (unescape_loop_keep flag (hex_digit (c % 16)) s lo)))
  | inr decoded ↦ rw decoded (
      unescape_loop-some flag b'%' (hex_digit (c / 16)) (hex_digit (c % 16)) c s
        (get_escaped_char-escape flag c s h ∙ rw decoded))
]

-- Every byte as `%XX`.
pub percent_encode : Str → Str
percent_encode [] = []
percent_encode (c ∷ s) = escape c (percent_encode s)

-- The reserved bytes as `%XX`, the others as they are; with the flag set, all as they are.
pub encode_reserved : Bool → Str → Str
encode_reserved flag [] = []
encode_reserved flag (c ∷ s) =
    if not flag && is_reserved_char c
    then escape c (encode_reserved flag s)
    else c ∷ encode_reserved flag s

unescape_loop-percent_encode :
    (flag : Bool) (s : Str)
    → All (λ c. c < 256) s
    → unescape_loop flag (percent_encode s) ≡ encode_reserved flag s
unfolding percent_encode encode_reserved
unescape_loop-percent_encode flag [] h = unfold unescape_loop in refl
unescape_loop-percent_encode flag (c ∷ s) (b, h) =
    let ih = unescape_loop-percent_encode flag s h in
    unescape_loop-escape flag c (percent_encode s) b
    ∙ ap (λ (t : Str). if not flag && is_reserved_char c then escape c t else c ∷ t) ih

-- Unescaping a byte string of which every byte is percent-encoded gives the string back, but for
-- the reserved characters where these are to stay escaped: they keep their encoding.
pub unescape-percent_encode :
    (flag : Bool) (s : Str)
    → All (λ c. c < 256) s
    → url_unescape_string (percent_encode s) flag ≡ encode_reserved flag s
unescape-percent_encode flag s h =
    url_unescape_string_loop (percent_encode s) flag ∙ unescape_loop-percent_encode flag s h

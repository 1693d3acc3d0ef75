-- ===== src/RewriteRule.antt =====
-- The rewrite rules of src/api_manager/rewrite_rule.{h,cc}: the check of a rule's text, the split of
-- its replacement into parts, and the rewriting of a uri. The regular expressions of pcre are a
-- parameter; logging is left out.
pub mod Parts
pub mod Examples
use esp.Base.{
  ℕ, zero, suc, ◌+◌, ◌-◌, ◌*◌, ◌^◌, Bool, true, false, not, ◌&&◌, ◌||◌, Option, none, some, List,
  [], ◌∷◌, ◌++◌, Str, bytes, starts_with, is_empty, length, ltb, leb, ◌==◌, if◌then◌else◌,
}

-- `ReplacementSegment`: a text, or the index of a match.
pub data ReplacementSegment : Type 0 where
  text : Str → ReplacementSegment
  replacement : ℕ → ReplacementSegment

pub data ReplacementPartType : Type 0 where
  text_type replacement_type : ReplacementPartType

unfoldable pub isdigit : ℕ → Bool
isdigit c = leb b'0' c && leb c b'9'

unfoldable pub digits_value : ℕ → Str → ℕ
digits_value n [] = n
digits_value n (c ∷ s) = digits_value (n * 10 + (c - b'0')) s

-- `std::stoi` on digits; `none` where it throws, since the value is no int.
pub stoi : Str → Option ℕ
stoi s = let n = digits_value 0 s in if ltb n (2 ^ 31) then some n else none

-- The variables of the loop over the replacement.
pub record Loop : Type 0 where
  pub status : ReplacementPartType
  pub segment : Str
  pub parts : List ReplacementSegment

abbrev pub add_index : List ReplacementSegment → Option ℕ → Option (List ReplacementSegment)
add_index parts none = none
add_index parts (some n) = some (parts ++ (replacement n ∷ []))

-- What a replacement that ends adds: its index, or the dollar that no digit follows.
pub close_replacement : List ReplacementSegment → Str → Option (List ReplacementSegment)
close_replacement parts [] = some (parts ++ (text (b'$' ∷ []) ∷ []))
close_replacement parts (c ∷ s) = add_index parts (stoi (c ∷ s))

-- What a text that ends adds.
pub close_text : List ReplacementSegment → Str → List ReplacementSegment
close_text parts [] = parts
close_text parts (c ∷ s) = parts ++ (text (c ∷ s) ∷ [])

-- The loop goes on in a dollar or in a text.
abbrev pub reopen : ℕ → Option (List ReplacementSegment) → Option Loop
reopen c none = none
reopen c (some parts) = some (
    if c == b'$'
    then record { status = replacement_type; segment = []; parts = parts }
    else record { status = text_type; segment = c ∷ []; parts = parts })

-- One character, `switch (status)`.
pub step : ℕ → ReplacementPartType → Str → List ReplacementSegment → Option Loop
step c text_type segment parts = some (
    if c == b'$'
    then record { status = replacement_type; segment = []; parts = close_text parts segment }
    else record { status = text_type; segment = segment ++ (c ∷ []); parts = parts })
step c replacement_type segment parts =
    if isdigit c
    then some (record { status = replacement_type; segment = segment ++ (c ∷ []); parts = parts })
    else reopen c (close_replacement parts segment)

-- Behind the loop: a dollar with no digit is dropped here.
pub finish : ReplacementPartType → Str → List ReplacementSegment → Option (List ReplacementSegment)
finish status [] parts = some parts
finish text_type (c ∷ s) parts = some (close_text parts (c ∷ s))
finish replacement_type (c ∷ s) parts = close_replacement parts (c ∷ s)

infixl 5 ◌>>=◌
abbrev pub ◌>>=◌ : {A B : Type 0} → Option A → (A → Option B) → Option B
none >>= f = none
some a >>= f = f a

pub run : Str → Loop → Option (List ReplacementSegment)
run [] l = finish l.status l.segment l.parts
run (c ∷ s) l = step c l.status l.segment l.parts >>= λ l'. run s l'

abbrev pub start : Loop
start = record { status = text_type; segment = []; parts = [] }

-- The replacement parts that the constructor of `RewriteRule` computes.
unfoldable pub replacement_parts : Str → Option (List ReplacementSegment)
unfolding digits_value stoi isdigit close_replacement close_text step finish run
replacement_parts s = run s start

-- What `pcre_exec` answers on a uri: a number, negative where it fails, and the substrings.
pub data Exec : Type 0 where
  error : Exec
  matched : ℕ → (ℕ → Str) → Exec

abbrev pub k_max_regex_match_count : ℕ
k_max_regex_match_count = 100

-- A return value of 0 says that there are too many substrings.
abbrev pub match_count : ℕ → ℕ
match_count ret = if ret == 0 then 33 else ret

-- The loop over the parts.
pub expand : ℕ → (ℕ → Str) → List ReplacementSegment → Str
expand count substring [] = []
expand count substring (text t ∷ parts) = t ++ expand count substring parts
expand count substring (replacement n ∷ parts) =
    (if ltb n count then substring n else []) ++ expand count substring parts

-- `Check`: the destination, or `none` where it answers `false`.
pub check : Exec → List ReplacementSegment → Option Str
check error parts = none
check (matched ret substring) parts = some (expand (match_count ret) substring parts)

-- The words of a text, as `std::istream_iterator<std::string>` reads them.
abbrev pub isspace : ℕ → Bool
isspace c = c == b' ' || (leb 9 c && leb c 13)

pub words_from : Str → Str → List Str
words_from word [] = if is_empty word then [] else word ∷ []
words_from word (c ∷ s) =
    let rest = words_from [] s in
    let longer = words_from (word ++ (c ∷ [])) s in
    if isspace c then (if is_empty word then rest else word ∷ rest) else longer

-- What `ValidateRewriteRule` answers: `valid`, or which message it assigns.
pub data Validation : Type 0 where
  valid invalid_format absolute_url invalid_regex : Validation

-- The checks on the words; the flag says whether pcre compiles and studies the pattern.
pub validate_words : (Str → Bool) → List Str → Validation
validate_words compiles (pattern_word ∷ target ∷ []) =
    if starts_with (bytes "http://") target || starts_with (bytes "https://") target
    then absolute_url
    else if compiles pattern_word
    then valid
    else invalid_regex
validate_words compiles _ = invalid_format

unfoldable pub validate_rewrite_rule : (Str → Bool) → Str → Validation
unfolding words_from validate_words
validate_rewrite_rule compiles rule = validate_words compiles (words_from [] rule)

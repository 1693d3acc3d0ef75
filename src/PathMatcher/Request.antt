-- ===== src/PathMatcher/Request.antt =====
-- `split` and `ExtractRequestParts`: from a request's path to the parts that the trie is walked by.
pub mod Laws
pub mod Examples
use esp.Base.{
  ℕ, suc, Bool, true, false, ◌&&◌, Option, none, some, List, [], ◌∷◌, ◌++◌, Str, contains,
  find_first, find_last, is_empty, take, drop, set, ltb, ◌==◌, if◌then◌else◌,
}

-- The loop `while (std::getline(ss, item, delim)) elems.push_back(item)`, with the item read so far.
-- At the end of the text `getline` fails where it has read nothing.
pub split_from : ℕ → Str → Str → List Str
split_from delim item [] = if is_empty item then [] else item ∷ []
split_from delim item (c ∷ s) =
    let closed = item ∷ split_from delim [] s in
    let longer = split_from delim (item ++ (c ∷ [])) s in if c == delim then closed else longer

unfoldable pub split : Str → ℕ → List Str
unfolding split_from
split s delim = split_from delim [] s

-- `path.substr(0, path.find_first_of('?'))`.
pub strip_query : Str → Str
strip_query [] = []
strip_query (c ∷ s) = if c == b'?' then [] else c ∷ strip_query s

-- `a != npos && a > b` of two positions, where `npos` is the largest number.
abbrev pub is_behind : Option ℕ → Option ℕ → Bool
is_behind none b = false
is_behind (some i) none = false
is_behind (some i) (some j) = ltb j i

abbrev pub position : Option ℕ → ℕ
position none = 0
position (some i) = i

-- The last colon of the last segment becomes a slash, if a configured verb stands behind it.
pub replace_verb_colon : List Str → Str → Str
replace_verb_colon custom_verbs path =
    let last_colon_pos = find_last b':' path in
    let colon = position last_colon_pos in
    if is_behind last_colon_pos (find_last b'/' path)
      && contains custom_verbs (drop (suc colon) path)
    then set path colon b'/'
    else path

-- The loop that pops empty parts off the back.
pub pop_empty_back : List Str → List Str
pop_empty_back [] = []
pop_empty_back (part ∷ parts) =
    let rest = pop_empty_back parts in if is_empty rest && is_empty part then [] else part ∷ rest

-- The split of what follows the first character.
pub split_tail : Str → List Str
split_tail [] = []
split_tail (c ∷ s) = split s b'/'

unfoldable pub extract_request_parts : Str → List Str → List Str
unfolding split strip_query replace_verb_colon pop_empty_back split_tail
extract_request_parts path custom_verbs =
    pop_empty_back (split_tail (replace_verb_colon custom_verbs (strip_query path)))

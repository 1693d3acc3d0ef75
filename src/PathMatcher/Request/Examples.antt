-- ===== src/PathMatcher/Request/Examples.antt =====
-- Runs of `ExtractRequestParts` of src/api_manager/path_matcher.h and concrete cases of its theorems.
use esp.Base.{◌≡◌, refl, List, [], ◌∷◌, ◌++◌, Str, bytes, All, arith}
use esp.PathMatcher.Request.{extract_request_parts}
use esp.PathMatcher.Request.Laws.{
  Lacks, EndsFull, ArePlain, join, extract_request_parts-EndsFull, extract_request_parts-join,
  extract_request_parts_verb,
}

abbrev verbs : List Str
verbs = bytes "go" ∷ []

abbrev messy : Str
messy = bytes "/a//b:go//?x=1"

abbrev two_parts : List Str
two_parts = bytes "a" ∷ bytes "b" ∷ []

slashes_dropped :
    extract_request_parts (bytes "/a//b//?x=1") verbs ≡ bytes "a" ∷ [] ∷ bytes "b" ∷ []
unfolding extract_request_parts
slashes_dropped = refl

unknown_verb : extract_request_parts (bytes "/a:stop") verbs ≡ bytes "a:stop" ∷ []
unfolding extract_request_parts
unknown_verb = refl

two_parts-ArePlain : ArePlain two_parts
two_parts-ArePlain = (
  (((λ e. (omega arith)), tt), (((λ e. (omega arith)), tt), tt)),
  (((λ e. (omega arith)), tt), (((λ e. (omega arith)), tt), tt)),
  (((λ e. (omega arith)), tt), (((λ e. (omega arith)), tt), tt)),
  λ e. cc,
)

verb-ArePlain : ArePlain (bytes "go" ∷ [])
verb-ArePlain = (
  (((λ e. (omega arith)), ((λ e. (omega arith)), tt)), tt),
  (((λ e. (omega arith)), ((λ e. (omega arith)), tt)), tt),
  (((λ e. (omega arith)), ((λ e. (omega arith)), tt)), tt),
  λ e. cc,
)

extract_request_parts-EndsFull_example :
    All (Lacks b'/') (extract_request_parts messy verbs)
    × EndsFull (extract_request_parts messy verbs)
extract_request_parts-EndsFull_example = extract_request_parts-EndsFull messy verbs

extract_request_parts-join_example :
    extract_request_parts (join two_parts ++ (b'?' ∷ bytes "k=v")) verbs ≡ two_parts
extract_request_parts-join_example =
    extract_request_parts-join two_parts verbs (bytes "k=v") two_parts-ArePlain

extract_request_parts_verb_test :
    extract_request_parts (join two_parts ++ (b':' ∷ bytes "go")) verbs
    ≡ bytes "a" ∷ bytes "b" ∷ bytes "go" ∷ []
extract_request_parts_verb_test =
    extract_request_parts_verb (bytes "a") (bytes "go") (bytes "b" ∷ []) verbs two_parts-ArePlain
      verb-ArePlain refl

-- ===== src/PathMatcher/Request/Laws.antt =====
-- The parts of a request, against paths that are joined from parts.
use esp.Base.{
  ℕ, suc, ◌<◌, ◌≡◌, ◌≢◌, refl, sym, ap, ◌∙◌, true, false, ◌&&◌, Option, none, some, List, [], ◌∷◌,
  ◌++◌, append-nil, append_assoc, Str, contains, find_last, is_empty, drop, set, length, ◌==◌,
  if◌then◌else◌, All, All-append, inl, inr, Bool-cases, arith,
}
use esp.PathMatcher.Request.{
  split_from, split, strip_query, is_behind, replace_verb_colon, pop_empty_back, split_tail,
  extract_request_parts,
}

-- No byte of a text is `c`.
abbrev pub Lacks : ℕ → Str → Type 0
Lacks c s = All (λ x. x ≢ c) s

split_from-Lacks :
    (delim : ℕ) (item s : Str) → Lacks delim item → All (Lacks delim) (split_from delim item s)
unfolding split_from
split_from-Lacks delim item [] h = elim (Bool-cases (is_empty item)) [
  | inl gone ↦ rw gone tt
  | inr kept ↦ rw kept (h, tt)
]
split_from-Lacks delim item (c ∷ s) h = elim (Bool-cases (c == delim)) [
  | inl same ↦ rw same (h, split_from-Lacks delim [] s tt)
  | inr other ↦ rw other (
      split_from-Lacks delim (item ++ (c ∷ [])) s
        (All-append (λ x. x ≢ delim) item (c ∷ []) h (ground arith, tt)))
]

pop_empty_back-All :
    (P : Str → Type 0) (parts : List Str) → All P parts → All P (pop_empty_back parts)
unfolding pop_empty_back
pop_empty_back-All P [] h = tt
pop_empty_back-All P (part ∷ parts) (p, h) =
    elim (Bool-cases (is_empty (pop_empty_back parts) && is_empty part)) [
      | inl gone ↦ rw gone tt
      | inr kept ↦ rw kept (p, pop_empty_back-All P parts h)
    ]

-- The last part of a list that has one is not empty.
abbrev pub EndsFull : List Str → Type 0
EndsFull [] = Unit
EndsFull (part ∷ []) = part ≢ []
EndsFull (part ∷ next ∷ parts) = EndsFull (next ∷ parts)

EndsFull-cons :
    (part : Str) (parts : List Str)
    → (is_empty parts && is_empty part) ≡ false
    → EndsFull parts
    → EndsFull (part ∷ parts)
EndsFull-cons part [] e h = ground arith
EndsFull-cons part (next ∷ parts) e h = h

pop_empty_back-EndsFull : (parts : List Str) → EndsFull (pop_empty_back parts)
unfolding pop_empty_back
pop_empty_back-EndsFull [] = tt
pop_empty_back-EndsFull (part ∷ parts) =
    elim (Bool-cases (is_empty (pop_empty_back parts) && is_empty part)) [
      | inl gone ↦ rw gone tt
      | inr kept ↦ rw kept (EndsFull-cons part _ kept (pop_empty_back-EndsFull parts))
    ]

split_tail-Lacks : (s : Str) → All (Lacks b'/') (split_tail s)
unfolding split_tail split
split_tail-Lacks [] = tt
split_tail-Lacks (c ∷ s) = split_from-Lacks b'/' [] s tt

-- Whatever the path, no part holds a slash and the last part is not empty.
pub extract_request_parts-EndsFull :
    (path : Str) (custom_verbs : List Str)
    → All (Lacks b'/') (extract_request_parts path custom_verbs)
      × EndsFull (extract_request_parts path custom_verbs)
unfolding extract_request_parts
extract_request_parts-EndsFull path custom_verbs =
    let tail = replace_verb_colon custom_verbs (strip_query path) in
    (
      pop_empty_back-All (Lacks b'/') (split_tail tail) (split_tail-Lacks tail),
      pop_empty_back-EndsFull (split_tail tail),
    )

strip_query-append :
    (path query : Str) → Lacks b'?' path → strip_query (path ++ (b'?' ∷ query)) ≡ path
unfolding strip_query
strip_query-append [] query h = refl
strip_query-append (c ∷ path) query (n, h) = ground (arith, strip_query-append path query h)

strip_query_self : (path : Str) → Lacks b'?' path → strip_query path ≡ path
unfolding strip_query
strip_query_self [] h = refl
strip_query_self (c ∷ path) (n, h) = ground (arith, strip_query_self path h)

-- The parts of `/a/b/c`.
pub join : List Str → Str
join [] = []
join (part ∷ parts) = b'/' ∷ (part ++ join parts)

split_from-item :
    (item part s : Str)
    → Lacks b'/' part
    → split_from b'/' item (part ++ s) ≡ split_from b'/' (item ++ part) s
unfolding split_from
split_from-item item [] s h = rw append-nil
split_from-item item (c ∷ part) s (n, h) =
    ground (arith, split_from-item (item ++ (c ∷ [])) part s h, append_assoc item (c ∷ []) part)

split_from-join :
    (item : Str) (parts : List Str)
    → All (Lacks b'/') parts
    → EndsFull (item ∷ parts)
    → split_from b'/' item (join parts) ≡ item ∷ parts
unfolding join split_from
split_from-join item [] h e = ground arith
split_from-join item (part ∷ parts) (n, h) e =
    ap (λ t. item ∷ t) (split_from-item [] part (join parts) n ∙ split_from-join part parts h e)

EndsFull-tail : (part : Str) (parts : List Str) → EndsFull (part ∷ parts) → EndsFull parts
EndsFull-tail part [] e = tt
EndsFull-tail part (next ∷ parts) e = e

pop_empty_back_self : (parts : List Str) → EndsFull parts → pop_empty_back parts ≡ parts
unfolding pop_empty_back
pop_empty_back_self [] e = refl
pop_empty_back_self (part ∷ []) e = ground arith
pop_empty_back_self (part ∷ next ∷ parts) e =
    let ih = pop_empty_back_self (next ∷ parts) e in ground (arith, ih)

-- The path of parts is split into them.
split_tail-join :
    (parts : List Str) → All (Lacks b'/') parts → EndsFull parts → split_tail (join parts) ≡ parts
unfolding split_tail split join
split_tail-join [] h e = refl
split_tail-join (part ∷ parts) (n, h) e =
    split_from-item [] part (join parts) n ∙ split_from-join part parts h e

Lacks-join : (c : ℕ) (parts : List Str) → c ≢ b'/' → All (Lacks c) parts → Lacks c (join parts)
unfolding join
Lacks-join c [] n h = tt
Lacks-join c (part ∷ parts) n (l, h) =
    (λ e. n (sym e), All-append (λ x. x ≢ c) part (join parts) l (Lacks-join c parts n h))

find_last-Lacks : (c : ℕ) (s : Str) → Lacks c s → find_last c s ≡ none
find_last-Lacks c [] h = refl
find_last-Lacks c (x ∷ s) (n, h) = let ih = find_last-Lacks c s h in ground arith

-- What stands behind does not change the last position of a byte that it lacks.
find_last-append : (c : ℕ) (s t : Str) → Lacks c t → find_last c (s ++ t) ≡ find_last c s
find_last-append c [] t h = find_last-Lacks c t h
find_last-append c (x ∷ s) t h = let ih = find_last-append c s t h in ground arith

find_last_here : (c : ℕ) (s t : Str) → Lacks c t → find_last c (s ++ (c ∷ t)) ≡ some (length s)
find_last_here c [] t h = let none_behind = find_last-Lacks c t h in ground arith
find_last_here c (x ∷ s) t h = let ih = find_last_here c s t h in ground arith

-- A position that is found lies in the text.
abbrev IsBelow : ℕ → Option ℕ → Type 0
IsBelow n none = Unit
IsBelow n (some i) = i < n

find_last-IsBelow : (c : ℕ) (s : Str) → IsBelow (length s) (find_last c s)
find_last-IsBelow c [] = tt
find_last-IsBelow c (x ∷ s) = go (find_last c s) (find_last-IsBelow c s)
  where
    go :
        (o : Option ℕ)
        → IsBelow (length s) o
        → IsBelow
            (suc (length s))
            (elim o [ some i ↦ some (suc i) | none ↦ if x == c then some 0 else none ])
    go none h = ground arith
    go (some i) h = omega arith

is_behind_head : (c : ℕ) (s : Str) → is_behind (some (suc (length s))) (find_last c (c ∷ s)) ≡ true
is_behind_head c s = go (find_last c s) (find_last-IsBelow c s)
  where
    go :
        (o : Option ℕ)
        → IsBelow (length s) o
        → is_behind
            (some (suc (length s)))
            (elim o [ some i ↦ some (suc i) | none ↦ if c == c then some 0 else none ])
          ≡ true
    go none h = ground arith
    go (some i) h = ground arith

drop-append_here : (s t : Str) (c : ℕ) → drop (suc (length s)) (s ++ (c ∷ t)) ≡ t
drop-append_here [] t c = refl
drop-append_here (x ∷ s) t c = drop-append_here s t c

set-append_here : (s t : Str) (c d : ℕ) → set (s ++ (c ∷ t)) (length s) d ≡ s ++ (d ∷ t)
set-append_here [] t c d = refl
set-append_here (x ∷ s) t c d = ap (λ u. x ∷ u) (set-append_here s t c d)

join-append : (parts rest : List Str) → join (parts ++ rest) ≡ join parts ++ join rest
unfolding join
join-append [] rest = refl
join-append (part ∷ parts) rest =
    ap (λ t. b'/' ∷ t)
      (ap (λ t. part ++ t) (join-append parts rest)
        ∙ sym (append_assoc part (join parts) (join rest)))

join-concat :
    (parts : List Str) (verb : Str) → join (parts ++ (verb ∷ [])) ≡ join parts ++ (b'/' ∷ verb)
join-concat parts verb =
    join-append parts (verb ∷ [])
    ∙ ap (λ t. join parts ++ t) (unfold join in ap (λ t. b'/' ∷ t) (append-nil verb))

-- With no colon nothing is replaced.
replace_verb_colon_none :
    (custom_verbs : List Str) (path : Str)
    → Lacks b':' path
    → replace_verb_colon custom_verbs path ≡ path
unfolding replace_verb_colon
replace_verb_colon_none custom_verbs path h = rw (find_last-Lacks b':' path h)

replace_verb_colon_at :
    (custom_verbs : List Str) (path : Str) (i : ℕ)
    → find_last b':' path ≡ some i
    → is_behind (some i) (find_last b'/' path) ≡ true
    → contains custom_verbs (drop (suc i) path) ≡ true
    → replace_verb_colon custom_verbs path ≡ set path i b'/'
unfolding replace_verb_colon
replace_verb_colon_at custom_verbs path i e h k = rw e (rw (h, k))

-- A configured verb behind the parts becomes a part.
replace_verb_colon_verb :
    (custom_verbs parts : List Str) (part verb : Str)
    → contains custom_verbs verb ≡ true
    → Lacks b':' verb
    → Lacks b'/' verb
    → replace_verb_colon custom_verbs (join (part ∷ parts) ++ (b':' ∷ verb))
      ≡ join (part ∷ parts) ++ (b'/' ∷ verb)
unfolding join
replace_verb_colon_verb custom_verbs parts part verb known n m =
    let p = part ++ join parts in
    let path = b'/' ∷ p in
    let slash : find_last b'/' (path ++ (b':' ∷ verb)) ≡ find_last b'/' path =
      find_last-append b'/' path (b':' ∷ verb) ((λ (e : b':' ≡ b'/'). absurd (omega arith)), m) in
    replace_verb_colon_at custom_verbs (path ++ (b':' ∷ verb)) (length path)
      (find_last_here b':' path verb n)
      (ap (is_behind (some (length path))) slash ∙ is_behind_head b'/' p)
      (ap (contains custom_verbs) (drop-append_here path verb b':') ∙ known)
    ∙ set-append_here path verb b':' b'/'

-- Parts that are fit to stand in a path.
abbrev pub ArePlain : List Str → Type 0
ArePlain parts =
    All (Lacks b'/') parts × All (Lacks b'?') parts × All (Lacks b':') parts × EndsFull parts

-- Where no part holds a slash, a question mark or a colon, and the last part is not empty, the
-- path of these parts, with any query behind it, is split into the parts. An empty part that is not
-- the last one, between two slashes, is kept.
pub extract_request_parts-join :
    (parts custom_verbs : List Str) (query : Str)
    → ArePlain parts
    → extract_request_parts (join parts ++ (b'?' ∷ query)) custom_verbs ≡ parts
unfolding extract_request_parts
extract_request_parts-join parts custom_verbs query (slash, mark, colon, full) =
    ap (λ p. pop_empty_back (split_tail (replace_verb_colon custom_verbs p)))
      (strip_query-append (join parts) query (Lacks-join b'?' parts (λ e. (omega arith)) mark))
    ∙ ap (λ p. pop_empty_back (split_tail p))
        (replace_verb_colon_none custom_verbs (join parts)
          (Lacks-join b':' parts (λ e. (omega arith)) colon))
    ∙ ap pop_empty_back (split_tail-join parts slash full)
    ∙ pop_empty_back_self parts full

EndsFull-concat : (parts : List Str) (verb : Str) → verb ≢ [] → EndsFull (parts ++ (verb ∷ []))
EndsFull-concat [] verb h = h
EndsFull-concat (part ∷ []) verb h = h
EndsFull-concat (part ∷ next ∷ parts) verb h = EndsFull-concat (next ∷ parts) verb h

-- A configured custom verb behind a path of at least one part is split off as the last part,
-- where neither it nor the parts hold a slash, a question mark or a colon, and it and the last
-- part are not empty.
pub extract_request_parts_verb :
    (part verb : Str) (parts custom_verbs : List Str)
    → ArePlain (part ∷ parts)
    → ArePlain (verb ∷ [])
    → contains custom_verbs verb ≡ true
    → extract_request_parts (join (part ∷ parts) ++ (b':' ∷ verb)) custom_verbs
      ≡ part ∷ parts ++ (verb ∷ [])
unfolding extract_request_parts
extract_request_parts_verb part verb parts custom_verbs (slash, mark, colon, full)
      ((vslash, _), (vmark, _), (vcolon, _), vfull) known =
    let all = part ∷ parts in
    ap (λ p. pop_empty_back (split_tail (replace_verb_colon custom_verbs p)))
      (strip_query_self (join all ++ (b':' ∷ verb)) (
        All-append (λ x. x ≢ b'?') (join all) (b':' ∷ verb)
          (Lacks-join b'?' all (λ e. (omega arith)) mark) ((λ e. (omega arith)), vmark)))
    ∙ ap (λ p. pop_empty_back (split_tail p))
        (replace_verb_colon_verb custom_verbs parts part verb known vcolon vslash
          ∙ sym (join-concat all verb))
    ∙ ap pop_empty_back (
        split_tail-join (all ++ (verb ∷ []))
          (All-append (Lacks b'/') all (verb ∷ []) slash (vslash, tt))
          (EndsFull-concat all verb vfull))
    ∙ pop_empty_back_self (all ++ (verb ∷ [])) (EndsFull-concat all verb vfull)

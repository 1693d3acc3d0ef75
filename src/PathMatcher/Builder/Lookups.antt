-- ===== src/PathMatcher/Builder/Lookups.antt =====
-- `Lookup` after any sequence of registrations.
use mathlib.Core.List.{Memᴰ}
use esp.Base.{
  ◌≡◌, ◌≢◌, ◌⊎◌, refl, sym, ap, subst, ◌∙◌, Bool, true, false, not, Option, none, some, is_some,
  List, [], ◌∷◌, ◌++◌, Str, is_empty, if◌then◌else◌, inl, inr, Bool-cases, Option-cases, All,
  append-nil, append_assoc, str_eq, str_eq_iff, arith,
}
use esp.HttpTemplate.{HttpTemplate, parse_http_template, k_wild_card_path_key, is_special}
use esp.HttpTemplate.Parsed.{HasFixedTail, parse_http_template-IsWellFormed}
use esp.PathMatcherNode.{LookupResult, Node, http_method_wild_card}
use esp.PathMatcherNode.Stored.{stored}
use esp.PathMatcherNode.Matching.{Matches, IsFixedBehind}
use esp.PathMatcherNode.Lookup.{Holds, Explains, lookup_path_sound, lookup_path_complete}
use esp.PathMatcher.Request.{extract_request_parts}
use esp.PathMatcher.Builder.{
  Method, MethodData, PathMatcher, transform_http_template, find_method, lookup_method,
}
use esp.PathMatcher.Builder.Registered.{
  Registration, IsBuilt, IsBuilt-AreFlagged, Stems, stored-Stems, stored-registered,
}

-- A registration that a request is served by.
pub record Serves (gs : List Registration) (http_method : Str) (parts : List Str) (x : Method)
    : Type 0 where
  pub source : Registration
  pub listed : Memᴰ source gs
  pub template : HttpTemplate
  pub valid : parse_http_template source.http_template ≡ some template
  pub matched : Matches false (transform_http_template template) parts
  pub for_method : (source.http_method ≡ http_method) ⊎ (source.http_method ≡ http_method_wild_card)
  pub method : source.method ≡ x

Stems-Serves :
    {gs : List Registration} {path parts : List Str} {k m : Str} {d : MethodData}
    → Stems gs path k d
    → Matches false path parts
    → (k ≡ m) ⊎ (k ≡ http_method_wild_card)
    → Serves gs m parts d.method
Stems-Serves {parts} {k} {m} s matched which = record {
  source = s.source;
  listed = s.listed;
  template = s.template;
  valid = s.valid;
  matched = subst (λ (p : List Str). Matches false p parts) (sym s.at_path) matched;
  for_method = ground (arith, s.for_method);
  method = ap (λ (d : MethodData). d.method) s.holds;
}

module _ {gs : List Registration} {b : PathMatcher} (built : IsBuilt gs b) where
  Explains-Serves :
      (parts : List Str) (m : Str) (r : LookupResult MethodData)
      → Explains false parts m b.root r
      → Serves gs m parts r.data_ptr.method
  Explains-Serves parts m r x = elim x.held [
    | inl own ↦ Stems-Serves (stored-Stems x.path m r built own) x.matched (inl refl)
    | inr any ↦
        Stems-Serves (stored-Stems x.path http_method_wild_card r built any) x.matched (inr refl)
  ]

  find_method-Serves :
      (http_method : Str) (parts : List Str) (r : LookupResult MethodData)
      → find_method b http_method parts ≡ some r
      → Serves gs http_method parts r.data_ptr.method
  find_method-Serves http_method parts r e =
      Explains-Serves parts http_method r
        (lookup_path_sound parts http_method b.root r (IsBuilt-AreFlagged built) e)

-- Whatever was registered, a method that `Lookup` answers was registered, for the request's HTTP
-- method or for all, under a valid template that matches the parts of the request's path.
pub lookup_method-Serves :
    (gs : List Registration) (b : PathMatcher) (http_method path : Str) (x : Method)
    → IsBuilt gs b
    → lookup_method http_method path b ≡ some x
    → Serves gs http_method (extract_request_parts path b.custom_verbs) x
unfolding lookup_method
lookup_method-Serves gs b http_method path x built e =
    elim (Option-cases (find_method b http_method parts)) [
      | inl missing ↦ absurd (ground arith)
      | inr (r, found) ↦
          subst (Serves gs http_method parts) (ground (arith, found))
            (find_method-Serves built http_method parts r found)
    ]
  where
    parts : List Str
    parts = extract_request_parts path b.custom_verbs

-- The names of a verb, if there is one.
abbrev verb_names : Str → List Str
verb_names verb = if not (is_empty verb) then verb ∷ [] else []

transform-append :
    (ht : HttpTemplate) → transform_http_template ht ≡ ht.segments ++ verb_names ht.verb
transform-append ht = elim (Bool-cases (not (is_empty ht.verb))) [
  | inl verb ↦ rw verb
  | inr without ↦ rw without (sym (append-nil ht.segments))
]

IsFixedBehind-names :
    (pre rest : List Str)
    → All (λ s. s ≢ k_wild_card_path_key) pre
    → IsFixedBehind false rest
    → IsFixedBehind false (pre ++ rest)
IsFixedBehind-names [] rest a h = h
IsFixedBehind-names (s ∷ pre) rest (n, a) h =
    let plain : str_eq s k_wild_card_path_key ≡ false =
      ground (arith, str_eq_iff s k_wild_card_path_key) in
    subst (λ (b : Bool). IsFixedBehind b (pre ++ rest)) (sym plain)
      (IsFixedBehind-names pre rest a h)

IsFixedBehind-fixed :
    (suf rest : List Str)
    → All (λ s. is_special s ≡ false) suf
    → IsFixedBehind true rest
    → IsFixedBehind true (suf ++ rest)
IsFixedBehind-fixed [] rest a h = h
IsFixedBehind-fixed (s ∷ suf) rest (n, a) h = (n, IsFixedBehind-fixed suf rest a h)

verb_names-IsFixedBehind :
    (b : Bool) (verb : Str) → is_special verb ≡ false → IsFixedBehind b (verb_names verb)
verb_names-IsFixedBehind b [] h = tt
verb_names-IsFixedBehind true (c ∷ verb) h = (h, tt)
verb_names-IsFixedBehind false (c ∷ verb) h = tt

-- A valid template is fixed behind its `**`, if its verb is no wildcard.
transform-IsFixedBehind :
    (ht : HttpTemplate)
    → HasFixedTail ht.segments
    → is_special ht.verb ≡ false
    → IsFixedBehind false (transform_http_template ht)
transform-IsFixedBehind ht tail plain = rw (transform-append ht) (go tail)
  where
    go : HasFixedTail ht.segments → IsFixedBehind false (ht.segments ++ verb_names ht.verb)
    go (inl a) =
        IsFixedBehind-names ht.segments (verb_names ht.verb) a
          (verb_names-IsFixedBehind false ht.verb plain)
    go (inr (pre, suf, e, a, fixed)) =
        rw (e, append_assoc pre (k_wild_card_path_key ∷ suf) (verb_names ht.verb))
          (IsFixedBehind-names pre (k_wild_card_path_key ∷ (suf ++ verb_names ht.verb)) a (
            IsFixedBehind-fixed suf (verb_names ht.verb) fixed
              (verb_names-IsFixedBehind true ht.verb plain)))

stored-Holds :
    (path : List Str) (k m : Str) (root : Node MethodData)
    → is_some (stored path k root) ≡ true
    → (k ≡ m) ⊎ (k ≡ http_method_wild_card)
    → (r : LookupResult MethodData) × Holds path m root r
stored-Holds path k m root h which = go (stored path k root) refl h
  where
    go :
        (o : Option (LookupResult MethodData))
        → stored path k root ≡ o
        → is_some o ≡ true
        → (r : LookupResult MethodData) × Holds path m root r
    go none e h = cc
    go (some r) e h = elim which [
      | inl own ↦ (r, inl (ap (λ (x : Str). stored path x root) (sym own) ∙ e))
      | inr any ↦ (r, inr (ap (λ (x : Str). stored path x root) (sym any) ∙ e))
    ]

-- Where a registered template, for the request's HTTP method or for all, is valid, has some path
-- and a verb that is no wildcard, and matches the parts of the request's path, `Lookup` answers
-- some method.
pub lookup_method-finds :
    (gs : List Registration) (b : PathMatcher) (http_method path : Str) (g : Registration)
    (ht : HttpTemplate)
    → IsBuilt gs b
    → Memᴰ g gs
    → parse_http_template g.http_template ≡ some ht
    → is_empty (transform_http_template ht) ≡ false
    → is_special ht.verb ≡ false
    → (g.http_method ≡ http_method) ⊎ (g.http_method ≡ http_method_wild_card)
    → Matches false (transform_http_template ht) (extract_request_parts path b.custom_verbs)
    → is_some (lookup_method http_method path b) ≡ true
unfolding lookup_method
lookup_method-finds gs b http_method path g ht built listed valid nonempty plain which matched =
    let own = transform_http_template ht in
    let parts = extract_request_parts path b.custom_verbs in
    let (r, held) =
      stored-Holds own g.http_method http_method b.root
        (stored-registered g ht built listed valid nonempty) which in
    let tail = (parse_http_template-IsWellFormed g.http_template ht valid).fixed_tail in
    let hit =
      lookup_path_complete own parts http_method b.root r (IsBuilt-AreFlagged built)
        (transform-IsFixedBehind ht tail plain) matched held in
    answers (find_method b http_method parts) hit
  where
    answers :
        (o : Option (LookupResult MethodData))
        → is_some o ≡ true
        → is_some
            (let x : Option Method = elim o [ none ↦ none | some r ↦ some r.data_ptr.method ] in x)
          ≡ true
    answers none h = cc
    answers (some r) h = refl

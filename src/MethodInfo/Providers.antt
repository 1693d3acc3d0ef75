-- ===== src/MethodInfo/Providers.antt =====
-- The issuers and audiences that a method of src/api_manager/method_impl.cc allows once a provider is
-- added.
use mathlib.Core.Option
use esp.Base.{
  ◌≡◌, ◌≢◌, refl, subst, true, false, ◌||◌, some, List, [], ◌∷◌, Str, str_eq, str_eq_iff,
  str_eq_refl, contains, is_empty, if◌then◌else◌, Bool-cases, Option-cases, inl, inr, arith,
}
use esp.PathMatcher.Request.{split}
use esp.UrlUtil.{get_url_content}
use esp.MethodInfo.{
  MethodInfo, map_find, map_update, set_insert, add_audiences, new_provider, audiences_of,
  with_provider, add_provider, add_auth_provider, is_issuer_allowed, is_audience_allowed,
  authorization_url_by_issuer,
}

pub map_find-map_update :
    {A : Type 0} (q key : Str) (new v : A) (es : List (Str × A))
    → map_find q (map_update key new (λ a. v) es) ≡ (if str_eq key q then some v else map_find q es)
unfolding map_find map_update
map_find-map_update q key new v [] = refl
map_find-map_update q key new v ((k, a) ∷ es) =
    let ih = map_find-map_update q key new v es in
    ground (arith, ih, str_eq_iff k key, str_eq_iff k q, str_eq_iff key q)

contains-set_insert :
    (a s : Str) (set : List Str) → contains (set_insert s set) a ≡ (str_eq s a || contains set a)
contains-set_insert a s set = elim (Bool-cases (str_eq s a)) [
  | inl same ↦
      subst (λ x. contains (set_insert s set) x ≡ (str_eq s x || contains set x))
        ((str_eq_iff s a).0 same) own
  | inr other ↦ ground arith
]
  where
    own : contains (set_insert s set) s ≡ (str_eq s s || contains set s)
    own = ground (arith, str_eq_refl s)

-- The audiences after one of the list.
abbrev joined_by : Str → List Str → List Str
joined_by aud audiences = if is_empty aud then audiences else set_insert aud audiences

-- What a step of the loop did.
data Step (audience : Str) (list audiences r : List Str) : Type 0 where
  skipped :
      is_empty audience ≡ true
      → add_audiences list audiences ≡ some r
      → Step audience list audiences r
  added :
      (aud : Str)
      → get_url_content audience ≡ some aud
      → add_audiences list (joined_by aud audiences) ≡ some r
      → Step audience list audiences r

add_audiences-Step :
    (audience : Str) (list audiences r : List Str)
    → add_audiences (audience ∷ list) audiences ≡ some r
    → Step audience list audiences r
unfolding add_audiences
add_audiences-Step audience list audiences r e = elim (Bool-cases (is_empty audience)) [
  | inl gone ↦ skipped gone (ground arith)
  | inr there ↦ elim (Option-cases (get_url_content audience)) [
    | inl missing ↦ absurd (ground arith)
    | inr (aud, found) ↦ added aud found (ground arith)
  ]
]

contains-joined_by :
    (a aud : Str) (audiences : List Str)
    → contains audiences a ≡ true
    → contains (joined_by aud audiences) a ≡ true
contains-joined_by a aud audiences h = ground (arith, contains-set_insert a aud audiences)

add_audiences-keeps :
    (a : Str) (list audiences r : List Str)
    → add_audiences list audiences ≡ some r
    → contains audiences a ≡ true
    → contains r a ≡ true
unfolding add_audiences
add_audiences-keeps a [] audiences r e h = ground arith
add_audiences-keeps a (audience ∷ list) audiences r e h =
    elim (add_audiences-Step audience list audiences r e) [
      | skipped gone rest ↦ add_audiences-keeps a list audiences r rest h
      | added aud found rest ↦
          add_audiences-keeps a list (joined_by aud audiences) r rest
            (contains-joined_by a aud audiences h)
    ]

get_url_content-is_empty : (a aud : Str) → get_url_content a ≡ some aud → is_empty a ≡ false
unfolding get_url_content
get_url_content-is_empty [] aud e = cc
get_url_content-is_empty (c ∷ a) aud e = refl

-- An audience of the list is among the audiences afterwards.
add_audiences-adds :
    (a aud : Str) (list audiences r : List Str)
    → add_audiences list audiences ≡ some r
    → contains list a ≡ true
    → get_url_content a ≡ some aud
    → is_empty aud ≡ false
    → contains r aud ≡ true
add_audiences-adds a aud [] audiences r e h g n = ground arith
add_audiences-adds a aud (audience ∷ list) audiences r e h g n =
    elim (Bool-cases (str_eq audience a)) [
      | inl same ↦ here (
          subst (λ x. Step x list audiences r) ((str_eq_iff audience a).0 same)
            (add_audiences-Step audience list audiences r e))
      | inr other ↦ elim (add_audiences-Step audience list audiences r e) [
        | skipped gone rest ↦ add_audiences-adds a aud list audiences r rest (ground arith) g n
        | added x found rest ↦
            add_audiences-adds a aud list (joined_by x audiences) r rest (ground arith) g n
      ]
    ]
  where
    here : Step a list audiences r → contains r aud ≡ true
    here (skipped gone rest) = let full = get_url_content-is_empty a aud g in absurd (ground arith)
    here (added x found rest) =
        let same : aud ≡ x = cc in
        add_audiences-keeps aud list (joined_by x audiences) r rest (
          subst (λ y. contains (joined_by y audiences) aud ≡ true) same
            (ground (arith, contains-set_insert aud aud audiences, str_eq_refl aud)))

-- What `addAuthProvider` comes to for an issuer that is not empty.
record Added (iss : Str) (list : List Str) (url : Str) (m m' : MethodInfo) : Type 0 where
  audiences : List Str
  joined : add_audiences list (audiences_of (map_find iss m.issuer_provider_map)) ≡ some audiences
  find_after :
      (q : Str)
      → map_find q m'.issuer_provider_map ≡ (
          if str_eq iss q
          then some (record { audiences = audiences; authorization_url = url })
          else map_find q m.issuer_provider_map)

add_provider-Added :
    (iss audiences_list url : Str) (m m' : MethodInfo)
    → add_provider iss audiences_list url m ≡ some m'
    → Added iss (split audiences_list b',') url m m'
unfolding add_provider
add_provider-Added iss audiences_list url m m' e =
    elim (Option-cases (add_audiences (split audiences_list b',') old)) [
      | inl missing ↦ absurd (ground arith)
      | inr (audiences, joined) ↦ record {
        audiences = audiences;
        joined = joined;
        find_after = λ q.
            subst
              (λ (x : MethodInfo). map_find q x.issuer_provider_map ≡ (
                if str_eq iss q
                then some (record { audiences = audiences; authorization_url = url })
                else map_find q m.issuer_provider_map))
              (after audiences joined)
              (map_find-map_update q iss new_provider
                (record { audiences = audiences; authorization_url = url }) m.issuer_provider_map);
      }
    ]
  where
    old : List Str
    old = audiences_of (map_find iss m.issuer_provider_map)

    after :
        (audiences : List Str)
        → add_audiences (split audiences_list b',') old ≡ some audiences
        → with_provider iss url m audiences ≡ m'
    after audiences joined =
        let known : Option.map (with_provider iss url m) (some audiences) ≡ some m' =
          subst (λ o. Option.map (with_provider iss url m) o ≡ some m') joined e in
        cc

add_auth_provider-Added :
    (issuer iss audiences_list url : Str) (m m' : MethodInfo)
    → get_url_content issuer ≡ some iss
    → is_empty iss ≡ false
    → add_auth_provider issuer audiences_list url m ≡ some m'
    → Added iss (split audiences_list b',') url m m'
unfolding add_auth_provider
add_auth_provider-Added issuer iss audiences_list url m m' g n e =
    let full = get_url_content-is_empty issuer iss g in
    add_provider-Added iss audiences_list url m m' (ground arith)

Added-own :
    {iss : Str} {list : List Str} {url : Str} {m m' : MethodInfo} (done : Added iss list url m m')
    → map_find iss m'.issuer_provider_map
      ≡ some (record { audiences = done.audiences; authorization_url = url })
Added-own {iss} done = ground (arith, done.find_after iss, str_eq_refl iss)

-- Where a provider is added for an issuer that names something, the issuer's content is allowed
-- afterwards and has the authorization url, and any other issuer keeps its provider.
pub add_auth_provider_issuer :
    (issuer iss audiences_list url other : Str) (m m' : MethodInfo)
    → get_url_content issuer ≡ some iss
    → is_empty iss ≡ false
    → add_auth_provider issuer audiences_list url m ≡ some m'
    → other ≢ iss
    → (is_issuer_allowed iss m' ≡ true)
      × (authorization_url_by_issuer iss m' ≡ url)
      × (map_find other m'.issuer_provider_map ≡ map_find other m.issuer_provider_map)
unfolding is_issuer_allowed authorization_url_by_issuer
add_auth_provider_issuer issuer iss audiences_list url other m m' g n e h =
    let done = add_auth_provider-Added issuer iss audiences_list url m m' g n e in
    let own = Added-own done in
    (
      rw own (ground arith),
      rw own refl,
      ground (arith, done.find_after other, str_eq_iff iss other),
    )

-- An audience of the list that is added with an issuer is allowed for the issuer, where both name
-- something.
pub add_auth_provider_audience :
    (issuer iss audiences_list url a aud : Str) (m m' : MethodInfo)
    → get_url_content issuer ≡ some iss
    → is_empty iss ≡ false
    → add_auth_provider issuer audiences_list url m ≡ some m'
    → contains (split audiences_list b',') a ≡ true
    → get_url_content a ≡ some aud
    → is_empty aud ≡ false
    → is_audience_allowed iss (aud ∷ []) m' ≡ true
unfolding is_audience_allowed is_issuer_allowed
add_auth_provider_audience issuer iss audiences_list url a aud m m' g n e h k f =
    let done = add_auth_provider-Added issuer iss audiences_list url m m' g n e in
    let own = Added-own done in
    let allowed =
      add_audiences-adds a aud (split audiences_list b',') _ done.audiences done.joined h k f in
    rw own (ground arith)

-- ===== src/Auth/Sound.antt =====
-- What each run of the checker keeps of the shared caches, and what it has established where it
-- accepts or waits.
use esp.Base.{
  ℕ, ◌+◌, ◌≤◌, ◌≡◌, ◌⊎◌, ◌∙◌, refl, sym, subst, inl, inr, Bool, true, false, not, ◌||◌, Option,
  none, some, List, [], Str, str_eq, str_eq_iff, is_empty, if◌then◌else◌, Bool-cases, Option-cases,
  arith,
}
use esp.StatusCode.Names.{Status, is_ok}
use esp.UrlUtil.{get_url_content}
use esp.MethodInfo.{MethodInfo, map_find, is_issuer_allowed}
use esp.MethodInfo.Providers.{map_find-map_update}
use esp.Auth.Keys.{
  get_jwks_uri-none, set_jwks_uri-none, get_cert, update_cert, get_jwks_uri, set_jwks_uri,
}
use esp.Auth.Cache.{LruCache, UserInfo, JwtValue, min, insert_jwt, k_jwt_cache_timeout}
use esp.Auth.State.{
  parsed, Library, Settings, Shared, Checker, Progress, finished, awaiting_jwks_uri,
  awaiting_pub_key, dropped, undefined, Outcome, outcome, unauthenticated,
}
use esp.Auth.Checker.{
  audience_contents, pass_user_info, accept_signature, verify_signature, post_fetch_pub_key,
  with_jwks_uri, post_fetch_jwks_uri, needs_key, fetch_from, init_key, audience_passes,
}

module _ {C : Type 0} (lru : LruCache C JwtValue) (lib : Library)
    (Genuine : Str → Str → Type 0) where
  -- A token that some genuine key of its issuer verifies, and that is parsed as the user.
  pub record IsSigned (token : Str) (user : UserInfo) : Type 0 where
    pub cert : Str
    pub genuine : Genuine user.issuer cert
    pub verified : lib.verify token cert ≡ none
    pub time : ℕ
    pub parses : lib.parse token time ≡ parsed user

  -- The certs are genuine, and what is cached was signed and is not kept longer than it is valid.
  pub record IsTrusted (s : Shared C) : Type 0 where
    pub keys :
        (issuer cert : Str) (exp : ℕ)
        → map_find issuer s.certs ≡ some (cert, exp)
        → Genuine issuer cert
    pub cached :
        (token : Str) (val : JwtValue)
        → lru.find token s.jwt_cache ≡ some val
        → IsSigned token val.user_info × (val.exp ≤ lib.expiration_time token)

  -- The token was parsed as the user at some time.
  pub record IsParsed (token : Str) (user : UserInfo) : Type 0 where
    pub time : ℕ
    pub parses : lib.parse token time ≡ parsed user

  module _ (settings : Settings) (m : MethodInfo) (started : ℕ) where
    -- The method allows the user's issuer, the user has an audience that it allows or the name of the
    -- service, and when the request arrived the token was parsed as the user or had not expired.
    pub record IsAllowed (token : Str) (user : UserInfo) : Type 0 where
      pub current : (lib.parse token started ≡ parsed user) ⊎ (started ≤ lib.expiration_time token)
      pub issuer : Str
      pub issuer_content : get_url_content user.issuer ≡ some issuer
      pub issuer_allowed : is_issuer_allowed issuer m ≡ true
      pub audiences : List Str
      pub audience_content : audience_contents user.audiences ≡ some audiences
      pub audience_allowed : audience_passes lru lib settings m issuer audiences ≡ true

    -- The issuer or an audience has no last byte.
    abbrev pub IsMalformed : UserInfo → Type 0
    IsMalformed user =
        (get_url_content user.issuer ≡ none) ⊎ (audience_contents user.audiences ≡ none)

    abbrev pub ProgressSound : Checker → Progress → Type 0
    ProgressSound k (finished status) =
        is_ok status ≡ true → IsSigned k.auth_token k.user_info × IsAllowed k.auth_token k.user_info
    ProgressSound k (awaiting_jwks_uri url) =
        IsParsed k.auth_token k.user_info × IsAllowed k.auth_token k.user_info
    ProgressSound k (awaiting_pub_key url) =
        IsParsed k.auth_token k.user_info × IsAllowed k.auth_token k.user_info
    ProgressSound k dropped = lib.user_info_to_json k.user_info ≡ none
    ProgressSound k undefined = IsMalformed k.user_info

    pub record IsSound (o : Outcome C) : Type 0 where
      pub trusted : IsTrusted o.shared
      pub progress : ProgressSound o.checker o.progress

    pub unauthenticated-Sound :
        (s : Shared C) (k : Checker) (error : Str)
        → IsTrusted s
        → IsSound (outcome s k (unauthenticated error))
    unauthenticated-Sound s k error t = record { trusted = t; progress = λ e. unfold is_ok in cc }

    pub pass_user_info-Sound :
        (s : Shared C) (k : Checker)
        → IsTrusted s
        → IsSigned k.auth_token k.user_info
        → IsAllowed k.auth_token k.user_info
        → IsSound (pass_user_info lru lib settings s k)
    unfolding pass_user_info
    pass_user_info-Sound s k t signed allowed =
        elim (Option-cases (lib.user_info_to_json k.user_info)) [
          | inl e ↦ rw (e, pass_user_info) (record { trusted = t; progress = e })
          | inr (json, e) ↦
              rw (e, pass_user_info) (record { trusted = t; progress = λ _. (signed, allowed) })
        ]

    insert_jwt-IsTrusted :
        (s : Shared C) (k : Checker) (now : ℕ)
        → IsTrusted s
        → IsSigned k.auth_token k.user_info
        → IsTrusted (record s {
          jwt_cache =
              insert_jwt lru k.auth_token k.user_info
                (lib.expiration_time k.auth_token)
                now
                s.jwt_cache;
        })
    insert_jwt-IsTrusted s k now t signed = record {
      keys = t.keys;
      cached = λ token val e. elim (lru.find-insert token k.auth_token new val s.jwt_cache e) [
        | inl (same, value) ↦ here token val same value
        | inr old ↦ t.cached token val old
      ];
    }
      where
        new : JwtValue
        new = record {
          user_info = k.user_info;
          exp = min (lib.expiration_time k.auth_token) (now + k_jwt_cache_timeout);
        }

        short : new.exp ≤ lib.expiration_time k.auth_token
        short = ground arith

        here :
            (token : Str) (val : JwtValue)
            → k.auth_token ≡ token
            → new ≡ val
            → IsSigned token val.user_info × (val.exp ≤ lib.expiration_time token)
        here token val same value =
            subst (λ (x : Str). IsSigned x val.user_info × (val.exp ≤ lib.expiration_time x)) same
              (subst
                (λ (v : JwtValue).
                  IsSigned k.auth_token v.user_info × (v.exp ≤ lib.expiration_time k.auth_token))
                value (signed, short))

    pub verify_signature-Sound :
        (now : ℕ) (s : Shared C) (k : Checker)
        → IsTrusted s
        → IsParsed k.auth_token k.user_info
        → IsAllowed k.auth_token k.user_info
        → IsSound (verify_signature lru lib settings now s k)
    unfolding verify_signature accept_signature
    verify_signature-Sound now s k t known allowed =
        elim (Option-cases (get_cert k.user_info.issuer s.certs)) [
          | inl e ↦ rw (e, verify_signature) (unauthenticated-Sound s k _ t)
          | inr ((cert, exp), e) ↦ elim (Option-cases (lib.verify k.auth_token cert)) [
            | inl good ↦
                let signed : IsSigned k.auth_token k.user_info = record {
                  cert = cert;
                  genuine = t.keys k.user_info.issuer cert exp e;
                  verified = good;
                  time = known.time;
                  parses = known.parses;
                } in
                rw (e, verify_signature)
                  (rw (good, accept_signature)
                    (pass_user_info-Sound _ k (insert_jwt-IsTrusted s k now t signed) signed
                      allowed))
            | inr (error, bad) ↦
                rw (e, verify_signature)
                  (rw (bad, accept_signature) (unauthenticated-Sound s k error t))
          ]
        ]

    update_cert-IsTrusted :
        (s : Shared C) (issuer body : Str) (exp : ℕ)
        → IsTrusted s
        → Genuine issuer body
        → IsTrusted (record s { certs = update_cert issuer body exp s.certs })
    update_cert-IsTrusted s issuer body exp t genuine = record {
      cached = t.cached;
      keys = λ i cert e found. elim (Bool-cases (str_eq issuer i)) [
        | inl same ↦ here i cert e ((str_eq_iff issuer i).0 same) (stored i cert e found)
        | inr other ↦ t.keys i cert e (ground (arith, stored i cert e found))
      ];
    }
      where
        stored :
            (i cert : Str) (e : ℕ)
            → map_find i (update_cert issuer body exp s.certs) ≡ some (cert, e)
            → (if str_eq issuer i then some (body, exp) else map_find i s.certs) ≡ some (cert, e)
        stored i cert e found =
            sym (map_find-map_update i issuer (body, exp) (body, exp) s.certs) ∙ found

        here :
            (i cert : Str) (e : ℕ)
            → issuer ≡ i
            → (if str_eq issuer i then some (body, exp) else map_find i s.certs) ≡ some (cert, e)
            → Genuine i cert
        here i cert e same found =
            let is_body : body ≡ cert = ground (arith, found, same, str_eq_iff issuer i) in
            subst (λ (c : Str). Genuine i c) is_body
              (subst (λ (j : Str). Genuine j body) same genuine)

    pub post_fetch_pub_key-Sound :
        (now : ℕ) (status : Status) (body : Str) (s : Shared C) (k : Checker)
        → (is_ok status ≡ true → Genuine k.user_info.issuer body)
        → IsTrusted s
        → IsParsed k.auth_token k.user_info × IsAllowed k.auth_token k.user_info
        → IsSound (post_fetch_pub_key lru lib settings now status body s k)
    unfolding post_fetch_pub_key
    post_fetch_pub_key-Sound now status body s k honest t (known, allowed) =
        elim (Bool-cases (not (is_ok status) || is_empty body)) [
          | inl failed ↦
              rw (failed, post_fetch_pub_key)
                (record { trusted = t; progress = λ e. unfold is_ok in cc })
          | inr fetched ↦
              let fine : is_ok status ≡ true = ground arith in
              rw (fetched, post_fetch_pub_key)
                (verify_signature-Sound now _ k
                  (update_cert-IsTrusted s k.user_info.issuer body
                    (now + settings.jwks_cache_duration_in_s) t (honest fine))
                  known allowed)
        ]

    with_jwks_uri-Sound :
        (jwks_uri : Str) (s : Shared C) (k : Checker) (progress : Progress)
        → IsTrusted s
        → ProgressSound k progress
        → IsSound (with_jwks_uri lru lib settings jwks_uri s k progress)
    with_jwks_uri-Sound jwks_uri s k progress t p =
        elim (Option-cases (set_jwks_uri k.user_info.issuer jwks_uri false s.jwks_uris)) [
          | inl e ↦
              rw (e, with_jwks_uri)
                (record {
                  trusted = t;
                  progress = inl (set_jwks_uri-none k.user_info.issuer jwks_uri s.jwks_uris e);
                })
          | inr (uris, e) ↦
              rw (e, with_jwks_uri)
                (record { trusted = record { keys = t.keys; cached = t.cached }; progress = p })
        ]

    pub post_fetch_jwks_uri-Sound :
        (status : Status) (body : Str) (s : Shared C) (k : Checker)
        → IsTrusted s
        → IsParsed k.auth_token k.user_info × IsAllowed k.auth_token k.user_info
        → IsSound (post_fetch_jwks_uri lru lib settings status body s k)
    unfolding post_fetch_jwks_uri
    post_fetch_jwks_uri-Sound status body s k t known = elim (Bool-cases (not (is_ok status))) [
      | inl failed ↦
          rw (failed, post_fetch_jwks_uri)
            (with_jwks_uri-Sound [] s k _ t (λ e. unfold is_ok in cc))
      | inr fine ↦ elim (Option-cases (lib.jwks_uri_of_json body)) [
        | inl e ↦
            rw (fine, post_fetch_jwks_uri)
              (rw e (with_jwks_uri-Sound [] s k _ t (λ e. unfold is_ok in cc)))
        | inr (uri, e) ↦
            rw (fine, post_fetch_jwks_uri) (rw e (with_jwks_uri-Sound uri s k _ t known))
      ]
    ]

    fetch_from-Sound :
        (s : Shared C) (k : Checker) (found : Option (Str × Bool))
        → get_jwks_uri k.user_info.issuer s.jwks_uris ≡ found
        → IsTrusted s
        → IsParsed k.auth_token k.user_info × IsAllowed k.auth_token k.user_info
        → IsSound (fetch_from lru lib settings s k found)
    fetch_from-Sound s k none e t known = record {
      trusted = t;
      progress = inl (get_jwks_uri-none k.user_info.issuer s.jwks_uris e);
    }
    fetch_from-Sound s k (some (url, try_open_id)) e t known = elim (Bool-cases (is_empty url)) [
      | inl gone ↦ rw gone (unauthenticated-Sound s k _ t)
      | inr there ↦ elim (Bool-cases try_open_id) [
        | inl tried ↦ rw there (rw tried (record { trusted = t; progress = known }))
        | inr shut ↦ rw there (rw shut (record { trusted = t; progress = known }))
      ]
    ]

    pub init_key-Sound :
        (now : ℕ) (s : Shared C) (k : Checker)
        → IsTrusted s
        → IsParsed k.auth_token k.user_info × IsAllowed k.auth_token k.user_info
        → IsSound (init_key lru lib settings now s k)
    unfolding init_key
    init_key-Sound now s k t (known, allowed) =
        elim (Bool-cases (needs_key lru lib settings now (get_cert k.user_info.issuer s.certs))) [
          | inl e ↦
              rw (e, init_key)
                (fetch_from-Sound s k (get_jwks_uri k.user_info.issuer s.jwks_uris) refl t
                  (known, allowed))
          | inr e ↦ rw (e, init_key) (verify_signature-Sound now s k t known allowed)
        ]

-- ===== src/Auth/Entry.antt =====
-- What a request establishes on its way from `CheckAuth` to the check of its audience.
use esp.Base.{
  ap, ◌∙◌, bytes, List, ℕ, ◌≡◌, ◌≤◌, ◌⊎◌, inl, inr, Bool, true, false, not, Option, none, some, Str,
  is_empty, leb, if◌then◌else◌, Bool-cases, Option-cases, refl, arith,
}
use esp.StatusCode.Names.{is_ok}
use esp.Request.{Request}
use esp.UrlUtil.{get_url_content}
use esp.MethodInfo.{MethodInfo, is_issuer_allowed}
use esp.Auth.Cache.{LruCache, UserInfo, JwtValue}
use esp.Auth.State.{
  unauthenticated, unauthorized, Parsed, parsed, invalid, Library, Settings, Shared, Checker,
  outcome, new_checker,
}
use esp.Auth.Checker.{
  pass_user_info, init_key, audience_contents, audience_passes, check_contents, with_context,
  check_audience, with_parsed, parse_jwt, with_cached, lookup_jwt_cache, get_auth_token,
  check_method, check_auth,
}
use esp.Auth.Sound.{
  IsSigned, IsTrusted, IsAllowed, IsSound, unauthenticated-Sound, pass_user_info-Sound,
  init_key-Sound,
}

module _ {C : Type 0} (lru : LruCache C JwtValue) (lib : Library) (Genuine : Str → Str → Type 0)
    (settings : Settings) (m : MethodInfo) (now : ℕ) where
  -- What is known of a token when its audience is checked.
  abbrev pub Known : Bool → Str → UserInfo → Type 0
  Known cache_hit token user =
      if cache_hit
      then IsSigned lru lib Genuine token user × (now ≤ lib.expiration_time token)
      else lib.parse token now ≡ parsed user

  listed-Sound :
      (cache_hit : Bool) (s : Shared C) (k : Checker) (issuer : Str) (auds : List Str)
      → IsTrusted lru lib Genuine s
      → Known cache_hit k.auth_token k.user_info
      → get_url_content k.user_info.issuer ≡ some issuer
      → not (is_issuer_allowed issuer m) ≡ false
      → audience_contents k.user_info.audiences ≡ some auds
      → IsSound lru lib Genuine settings m now (
          if not (audience_passes lru lib settings m issuer auds)
          then outcome s k (unauthorized (bytes "Audience not allowed"))
          else if cache_hit
          then pass_user_info lru lib settings s k
          else init_key lru lib settings now s k)
  listed-Sound cache_hit s k issuer auds t known e listed a =
      elim (Bool-cases (not (audience_passes lru lib settings m issuer auds))) [
        | inl other ↦ rw other (record { trusted = t; progress = λ e. unfold is_ok in cc })
        | inr passes ↦
            let allowed : IsAllowed lru lib Genuine settings m now k.auth_token k.user_info =
              record {
                current = current_of cache_hit known;
                issuer = issuer;
                issuer_content = e;
                issuer_allowed = ground arith;
                audiences = auds;
                audience_content = a;
                audience_allowed = ground arith;
              } in
            rw passes (pass_on cache_hit known allowed)
      ]
    where
      current_of :
          (hit : Bool)
          → Known hit k.auth_token k.user_info
          → (lib.parse k.auth_token now ≡ parsed k.user_info)
            ⊎ (now ≤ lib.expiration_time k.auth_token)
      current_of true (signed, fresh) = inr fresh
      current_of false parses = inl parses

      pass_on :
          (hit : Bool)
          → Known hit k.auth_token k.user_info
          → IsAllowed lru lib Genuine settings m now k.auth_token k.user_info
          → IsSound lru lib Genuine settings m now (
              if hit
              then pass_user_info lru lib settings s k
              else init_key lru lib settings now s k)
      pass_on true (signed, fresh) allowed =
          pass_user_info-Sound lru lib Genuine settings m now s k t signed allowed
      pass_on false parses allowed =
          init_key-Sound lru lib Genuine settings m now now s k t
            (record { time = now; parses = parses }, allowed)

  check_contents-Sound :
      (cache_hit : Bool) (s : Shared C) (k : Checker)
      → IsTrusted lru lib Genuine s
      → Known cache_hit k.auth_token k.user_info
      → IsSound lru lib Genuine settings m now (
          check_contents lru lib settings cache_hit now m s k
            (get_url_content k.user_info.issuer)
            (audience_contents k.user_info.audiences))
  check_contents-Sound cache_hit s k t known =
      elim (Option-cases (get_url_content k.user_info.issuer)) [
        | inl e ↦ rw e (record { trusted = t; progress = inl e })
        | inr (issuer, e) ↦ elim (Bool-cases (not (is_issuer_allowed issuer m))) [
          | inl other ↦
              rw e (rw other (unauthenticated-Sound lru lib Genuine settings m now s k _ t))
          | inr listed ↦ elim (Option-cases (audience_contents k.user_info.audiences)) [
            | inl a ↦
                rw (e, check_contents) (rw (listed, a) (record { trusted = t; progress = inr a }))
            | inr (auds, a) ↦
                rw (e, check_contents)
                  (rw (listed, a) (listed-Sound cache_hit s k issuer auds t known e listed a))
          ]
        ]
      ]

  check_audience-Sound :
      (cache_hit : Bool) (s : Shared C) (k : Checker)
      → IsTrusted lru lib Genuine s
      → Known cache_hit k.auth_token k.user_info
      → IsSound lru lib Genuine settings m now (check_audience lru lib settings cache_hit now m s k)
  unfolding check_audience
  check_audience-Sound cache_hit s k t known =
      check_contents-Sound cache_hit s (with_context lru lib settings k) t known

  parse_jwt-Sound :
      (s : Shared C) (k : Checker)
      → IsTrusted lru lib Genuine s
      → IsSound lru lib Genuine settings m now (parse_jwt lru lib settings now m s k)
  unfolding parse_jwt
  parse_jwt-Sound s k t = elim (Bool-cases (lib.creates k.auth_token)) [
    | inl created ↦ rw (created, parse_jwt) (go (lib.parse k.auth_token now) refl)
    | inr none_made ↦
        rw (none_made, parse_jwt) (unauthenticated-Sound lru lib Genuine settings m now s k _ t)
  ]
    where
      go :
          (p : Parsed)
          → lib.parse k.auth_token now ≡ p
          → IsSound lru lib Genuine settings m now (with_parsed lru lib settings now m s k p)
      go (parsed user) e = check_audience-Sound false s (record k { user_info = user }) t e
      go (invalid error) e = unauthenticated-Sound lru lib Genuine settings m now s k error t

  lookup_jwt_cache-Sound :
      (s : Shared C) (k : Checker)
      → IsTrusted lru lib Genuine s
      → IsSound lru lib Genuine settings m now (lookup_jwt_cache lru lib settings now m s k)
  unfolding lookup_jwt_cache
  lookup_jwt_cache-Sound s k t = go (lru.find k.auth_token s.jwt_cache) refl
    where
      looked_up : Shared C
      looked_up = record s { jwt_cache = lru.lookup k.auth_token s.jwt_cache }

      kept : IsTrusted lru lib Genuine looked_up
      kept = record {
        keys = t.keys;
        cached = λ token val e.
            t.cached token val (lru.find-lookup token k.auth_token s.jwt_cache val e);
      }

      removed :
          IsTrusted lru lib Genuine
            (record looked_up { jwt_cache = lru.remove k.auth_token looked_up.jwt_cache })
      removed = record {
        keys = t.keys;
        cached = λ token val e.
            kept.cached token val (lru.find-remove token k.auth_token looked_up.jwt_cache val e);
      }

      current :
          (val : JwtValue)
          → lru.find k.auth_token s.jwt_cache ≡ some val
          → leb now val.exp ≡ true
          → now ≤ lib.expiration_time k.auth_token
      current val e fresh =
          let (signed, kept_short) = t.cached k.auth_token val e in
          ground (arith, kept_short, fresh)

      go :
          (found : Option JwtValue)
          → lru.find k.auth_token s.jwt_cache ≡ found
          → IsSound lru lib Genuine settings m now
              (with_cached lru lib settings now m looked_up k found)
      go none e = parse_jwt-Sound looked_up k kept
      go (some val) e = elim (Bool-cases (leb now val.exp)) [
        | inl fresh ↦ rw fresh (
            check_audience-Sound true looked_up (record k { user_info = val.user_info }) kept
              ((t.cached k.auth_token val e).0, current val e fresh))
        | inr old ↦ rw old (parse_jwt-Sound _ k removed)
      ]

  -- A request for a method that needs authentication.
  authenticated :
      (r : Request) (s : Shared C)
      → settings.method ≡ some m
      → settings.require_auth ≡ true
      → m.auth ≡ true
      → check_auth lru lib settings now r s ≡ (
          if is_empty (get_auth_token r)
          then outcome s new_checker (unauthenticated (bytes "Missing or invalid credentials"))
          else lookup_jwt_cache lru lib settings now m s
              (record new_checker { auth_token = get_auth_token r }))
  unfolding check_auth
  authenticated r s method required wanted =
      ap (check_method lru lib settings now r s) method ∙ simp (required, wanted)

  pub check_auth-Sound :
      (r : Request) (s : Shared C)
      → settings.method ≡ some m
      → settings.require_auth ≡ true
      → m.auth ≡ true
      → IsTrusted lru lib Genuine s
      → IsSound lru lib Genuine settings m now (check_auth lru lib settings now r s)
  check_auth-Sound r s method required wanted t =
      rw (authenticated r s method required wanted)
        (elim (Bool-cases (is_empty (get_auth_token r))) [
          | inl blank ↦ rw blank (unauthenticated-Sound lru lib Genuine settings m now s _ _ t)
          | inr given ↦ rw given (lookup_jwt_cache-Sound s _ t)
        ])

-- ===== src/Token/Jwt/Audience.antt =====
-- The audience and the time of the tokens that are given out, over any order of calls.
use esp.Base.{
  All-set, All-get, some_same, ℕ, ◌≡◌, ◌⊎◌, inl, inr, refl, subst, ◌∙◌, true, false, Option, none,
  some, List, [], ◌∷◌, Str, str_eq, str_eq_iff, is_empty, get_elem?, All, Bool-cases, Option-cases,
}
use esp.Token.{is_valid}
use esp.Token.Jwt.{
  JwtTokenInfo, JwtTokens, with_token, generate_jwt_token, generate_all, set_client_auth_secret,
  with_audience, put_token, set_audience, put_generated, valid_token, get_jwt_token, get_auth_token,
  new_jwt_tokens,
}

same_state :
    {t u : JwtTokens} {x y : Str}
    → ◌≡◌ {A = Option (JwtTokens × Str)} (some (t, x)) (some (u, y))
    → t ≡ u
same_state e = cc

module _ (make : Str → Str → Option Str) where
  -- The states of the tokens over the calls.
  pub data Reach : JwtTokens → Type 0 where
    created : Reach new_jwt_tokens
    secret_set :
        (now : ℕ) (secret : Str) (t : JwtTokens)
        → Reach t
        → Reach (set_client_auth_secret make now secret t).0
    audience_set :
        (now type : ℕ) (audience : Str) (t t' : JwtTokens)
        → Reach t
        → set_audience now type audience t ≡ some t'
        → Reach t'
    given :
        (now type : ℕ) (audience token : Str) (t t' : JwtTokens)
        → Reach t
        → get_auth_token make now type audience t ≡ some (t', token)
        → Reach t'

  -- A token is empty, or it was made for an audience.
  abbrev pub IsFor : Str → Str → Type 0
  IsFor token audience =
      (is_empty token ≡ true) ⊎ ((secret : Str) × (make secret audience ≡ some token))

  abbrev IsOwn : JwtTokenInfo → Type 0
  IsOwn i = IsFor i.info.token i.audience

  generate_jwt_token-IsOwn :
      (now : ℕ) (secret : Str) (i j : JwtTokenInfo)
      → generate_jwt_token make now secret i ≡ some j
      → IsOwn j × (j.audience ≡ i.audience)
  unfolding generate_jwt_token
  generate_jwt_token-IsOwn now secret i j h = go (make secret i.audience) refl h
    where
      go :
          (o : Option Str)
          → make secret i.audience ≡ o
          → with_token now i o ≡ some j
          → IsOwn j × (j.audience ≡ i.audience)
      go none e q = absurd cc
      go (some token) e q =
          subst (λ x. IsOwn x × (x.audience ≡ i.audience)) (some_same q) (inr (secret, e), refl)

  generate_all-IsOwn :
      (now : ℕ) (secret : Str) (l : List JwtTokenInfo)
      → All IsOwn l
      → All IsOwn (generate_all make now secret l).0
  unfolding generate_all
  generate_all-IsOwn now secret [] h = h
  generate_all-IsOwn now secret (i ∷ rest) (p, h) = elim (Bool-cases (is_empty i.audience)) [
    | inl e ↦ rw e (p, generate_all-IsOwn now secret rest h)
    | inr e ↦ elim (Option-cases (generate_jwt_token make now secret i)) [
      | inl q ↦ rw (e, q) (p, h)
      | inr (j, q) ↦
          rw (e, q)
            ((generate_jwt_token-IsOwn now secret i j q).0, generate_all-IsOwn now secret rest h)
    ]
  ]

  with_audience-IsOwn :
      (now : ℕ) (audience : Str) (i : JwtTokenInfo)
      → IsOwn i
      → IsOwn (with_audience now audience i) × ((with_audience now audience i).audience ≡ audience)
  with_audience-IsOwn now audience i h = elim (Bool-cases (str_eq i.audience audience)) [
    | inl e ↦ rw e (h, (str_eq_iff _ _).0 e)
    | inr e ↦ rw e (inl refl, refl)
  ]

  set_audience-IsOwn :
      (now type : ℕ) (audience : Str) (t t' : JwtTokens)
      → All IsOwn t.jwt_tokens
      → set_audience now type audience t ≡ some t'
      → All IsOwn t'.jwt_tokens
  unfolding set_audience
  set_audience-IsOwn now type audience t t' h e =
      elim (Option-cases (get_elem? t.jwt_tokens type)) [
        | inl q ↦ let e' = rw q at e in absurd cc
        | inr (i, q) ↦
            subst (λ x. All IsOwn x.jwt_tokens) (some_same (rw q at e))
              (All-set IsOwn t.jwt_tokens type _
                (with_audience-IsOwn now audience i (All-get IsOwn t.jwt_tokens type i q h)).0 h)
      ]

  -- What a call gives: the token is for the audience, and the state is as before.
  abbrev IsGiven : ℕ → Str → Option (JwtTokens × Str) → Type 0
  IsGiven now audience none = Unit
  IsGiven now audience (some (t, token)) = All IsOwn t.jwt_tokens × IsFor token audience

  valid_token-IsGiven :
      (now type : ℕ) (audience : Str) (t : JwtTokens) (i : JwtTokenInfo)
      → All IsOwn t.jwt_tokens
      → IsOwn i
      → i.audience ≡ audience
      → IsGiven now audience (valid_token make now type t i)
  valid_token-IsGiven now type audience t i h own same = elim (Bool-cases (is_valid now 0 i.info)) [
    | inl p ↦ rw p (h, subst (IsFor i.info.token) same own)
    | inr p ↦ elim (Bool-cases (is_empty i.audience)) [
      | inl q ↦ rw (p, q) tt
      | inr q ↦ rw (p, q) (made (generate_jwt_token make now t.client_auth_secret i) refl)
    ]
  ]
    where
      made :
          (o : Option JwtTokenInfo)
          → generate_jwt_token make now t.client_auth_secret i ≡ o
          → IsGiven now audience (some (put_generated type t o))
      made none e = (h, inl refl)
      made (some j) e =
          let (own', aud) = generate_jwt_token-IsOwn now t.client_auth_secret i j e in
          (All-set IsOwn t.jwt_tokens type j own' h, subst (IsFor j.info.token) (aud ∙ same) own')

  -- With a client secret.
  get_auth_token-IsGiven :
      (now type : ℕ) (audience : Str) (t : JwtTokens)
      → All IsOwn t.jwt_tokens
      → is_empty t.client_auth_secret ≡ false
      → IsGiven now audience (get_auth_token make now type audience t)
  unfolding get_auth_token
  get_auth_token-IsGiven now type audience t h secret =
      rw secret (go (get_elem? t.jwt_tokens type) refl)
    where
      go :
          (o : Option JwtTokenInfo)
          → get_elem? t.jwt_tokens type ≡ o
          → IsGiven now audience (get_jwt_token make now type audience t o)
      go none e = tt
      go (some i) e =
          let (own, same) =
            with_audience-IsOwn now audience i (All-get IsOwn t.jwt_tokens type i e h) in
          valid_token-IsGiven now type audience (put_token type _ t) _
            (All-set IsOwn t.jwt_tokens type _ own h) own same

  Reach-IsOwn : (t : JwtTokens) → Reach t → All IsOwn t.jwt_tokens
  unfolding set_client_auth_secret get_auth_token
  Reach-IsOwn _ created = (inl refl, (inl refl, (inl refl, (inl refl, (inl refl, (inl refl, tt))))))
  Reach-IsOwn _ (secret_set now secret t r) = elim (Bool-cases (is_empty secret)) [
    | inl p ↦ rw p (Reach-IsOwn t r)
    | inr p ↦ rw p (generate_all-IsOwn now secret t.jwt_tokens (Reach-IsOwn t r))
  ]
  Reach-IsOwn t' (audience_set now type audience t _ r e) =
      set_audience-IsOwn now type audience t t' (Reach-IsOwn t r) e
  Reach-IsOwn t' (given now type audience token t _ r e) =
      elim (Bool-cases (is_empty t.client_auth_secret)) [
        | inl p ↦ subst (λ x. All IsOwn x.jwt_tokens) (same_state (rw p at e)) (Reach-IsOwn t r)
        | inr p ↦
            (subst (IsGiven now audience) e
              (get_auth_token-IsGiven now type audience t (Reach-IsOwn t r) p)).0
      ]

  -- With a client secret, a token that is given out is empty, or was made for the audience that is
  -- asked for, by a client secret, and never for another audience that was set before.
  pub get_auth_token-IsFor :
      (now type : ℕ) (audience token : Str) (t t' : JwtTokens)
      → Reach t
      → is_empty t.client_auth_secret ≡ false
      → get_auth_token make now type audience t ≡ some (t', token)
      → IsFor token audience
  get_auth_token-IsFor now type audience token t t' r secret e =
      (subst (IsGiven now audience) e
        (get_auth_token-IsGiven now type audience t (Reach-IsOwn t r) secret)).1

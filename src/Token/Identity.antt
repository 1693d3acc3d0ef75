-- ===== src/Token/Identity.antt =====
-- The states that a token comes to, by requests and by the responses of the fetches in flight, for an
-- access token and for the identity token of an audience.
use esp.Base.{
  ℕ, suc, ◌+◌, ◌*◌, ◌≤◌, ◌≡◌, ◌≢◌, ◌⊎◌, inl, inr, refl, sym, ap, ◌∙◌, false, ◌||◌, Option, none, [],
  Str, is_empty, ltb, Bool-cases, arith,
}
use esp.Base.Int.{ℤ}
use esp.StatusCode.Names.{Status}
use esp.Token.{
  FetchState, not_fetched, fetching, fetched, failed, ServiceAccountToken, new_token,
  is_access_token_valid, set_access_token, has_client_secret,
}
use esp.Token.Fetch.{ask, ask_state, respond, k_token_refetch_window, k_failure_status_window}
use esp.Token.Refresh.{starts}

module _ (server audience : Str) where
  -- The tokens, each with the number of fetches in flight.
  pub data Reach : ℕ → ServiceAccountToken → Type 0 where
    created : (secret : Str) → Reach 0 (new_token secret)
    asked :
        (n now : ℕ) (t : ServiceAccountToken)
        → Reach n t
        → Reach (starts (ask server now t).1 + n) (ask server now t).0
    responded :
        (n now : ℕ) (status : Status) (body : Str) (parsed : Option (Str × ℤ))
        (t : ServiceAccountToken)
        → Reach (suc n) t
        → Reach n (respond audience now status body parsed t).0

-- What a request does to a token: nothing, or it starts a fetch.
pub ask-state :
    (server : Str) (now : ℕ) (t : ServiceAccountToken)
    → ((ask server now t).0 ≡ t)
      ⊎ (((ask server now t).0.state ≡ fetching) × ((ask server now t).1 ≡ none))
unfolding ask
ask-state server now t = elim (Bool-cases (is_empty server || has_client_secret t)) [
  | inl skipped ↦ inl (rw skipped refl)
  | inr needed ↦ rw needed (go t.state)
]
  where
    go :
        (state : FetchState)
        → ((ask_state now t state).0 ≡ t)
          ⊎ (((ask_state now t state).0.state ≡ fetching) × ((ask_state now t state).1 ≡ none))
    go not_fetched = inr (refl, refl)
    go fetching = elim (Bool-cases (is_access_token_valid now 0 t)) [
      | inl valid ↦ inl (simp valid)
      | inr gone ↦ inr (simp gone, simp gone)
    ]
    go fetched = elim (Bool-cases (is_access_token_valid now k_token_refetch_window t)) [
      | inl valid ↦ inl (simp valid)
      | inr gone ↦ inr (simp gone, simp gone)
    ]
    go failed =
        elim (Bool-cases
          (ltb now (t.last_failed_fetch_time + k_failure_status_window * 1000000000))) [
            | inl soon ↦ inl (simp soon)
            | inr later ↦ inr (simp later, simp later)
          ]

respond-settled :
    (now : ℕ) (status : Status) (body : Str) (parsed : Option (Str × ℤ)) (t : ServiceAccountToken)
    → (respond [] now status body parsed t).0.state ≢ fetching
unfolding respond set_access_token
respond-settled now status body parsed t e = ground (arith, e)

-- An access token is left in the state of a fetch only as long as a fetch is in flight: where none is,
-- it is fetched, has failed or was never asked for.
pub idle-not_fetching :
    (server : Str) (n : ℕ) (t : ServiceAccountToken)
    → Reach server [] n t
    → t.state ≡ fetching
    → 1 ≤ n
idle-not_fetching server n t (created secret) e = absurd cc
idle-not_fetching server n t (asked k now u was) e = elim (ask-state server now u) [
  | inl same ↦
      let before : u.state ≡ fetching = sym (ap (λ (x : ServiceAccountToken). x.state) same) ∙ e in
      omega (arith, idle-not_fetching server k u was before)
  | inr (waits, none_yet) ↦ rw none_yet (omega arith)
]
idle-not_fetching server n t (responded k now status body parsed u was) e =
    absurd (respond-settled now status body parsed u e)

respond-identity :
    (audience : Str) (now : ℕ) (status : Status) (body : Str) (parsed : Option (Str × ℤ))
    (t : ServiceAccountToken)
    → is_empty audience ≡ false
    → t.state ≢ fetched
    → (respond audience now status body parsed t).0.state ≢ fetched
unfolding respond set_access_token
respond-identity audience now status body parsed t named other e = ground (arith, e, named, other)

-- An identity token never comes to the state of a fetched token.
pub identity-not_fetched :
    (server audience : Str) (n : ℕ) (t : ServiceAccountToken)
    → is_empty audience ≡ false
    → Reach server audience n t
    → t.state ≢ fetched
identity-not_fetched server audience n t named (created secret) e = absurd cc
identity-not_fetched server audience n t named (asked k now u was) e =
    elim (ask-state server now u) [
      | inl same ↦
          identity-not_fetched server audience k u named was
            (sym (ap (λ (x : ServiceAccountToken). x.state) same) ∙ e)
      | inr (waits, none_yet) ↦ absurd cc
    ]
identity-not_fetched server audience n t named (responded k now status body parsed u was) e =
    respond-identity audience now status body parsed u named
      (identity-not_fetched server audience (suc k) u named was) e

-- ===== src/Token/Refresh.antt =====
-- How many fetches the requests for one token start.
use esp.Base.{
  ℕ, ◌+◌, ◌≤◌, ◌≡◌, ◌⊎◌, inl, inr, refl, true, false, ◌||◌, Option, none, some, List, [], ◌∷◌, Str,
  is_empty, if◌then◌else◌, Bool-cases, arith, All,
}
use esp.StatusCode.Names.{Status, ok_status}
use esp.Token.{
  FetchState, fetching, fetched, ServiceAccountToken, is_access_token_valid, set_state,
  has_client_secret,
}
use esp.Token.Fetch.{ask, ask_state, start_fetch, k_token_refetch_window}

-- The fetches that requests at some times start, without a response between them.
abbrev pub starts : Option Status → ℕ
starts none = 1
starts (some status) = 0

unfoldable pub fetches : Str → List ℕ → ServiceAccountToken → ℕ
fetches server [] t = 0
fetches server (now ∷ times) t =
    let (u, answer) = ask server now t in starts answer + fetches server times u

-- The token is valid at each of the times.
abbrev pub IsValidAt : ServiceAccountToken → ℕ → Type 0
IsValidAt t now = is_access_token_valid now 0 t ≡ true

ask-fetching :
    (server : Str) (now : ℕ) (t : ServiceAccountToken)
    → t.state ≡ fetching
    → IsValidAt t now
    → ask server now t ≡ (t, some ok_status)
unfolding ask
ask-fetching server now t waits valid = elim (Bool-cases (is_empty server || has_client_secret t)) [
  | inl skipped ↦ simp skipped
  | inr needed ↦ go t.state waits needed
]
  where
    go :
        (state : FetchState)
        → state ≡ fetching
        → is_empty server || has_client_secret t ≡ false
        → (if is_empty server || has_client_secret t
            then (t, some ok_status)
            else ask_state now t state)
          ≡ (t, some ok_status)
    go state e needed = simp (needed, e, valid)

fetching-no_fetch :
    (server : Str) (times : List ℕ) (t : ServiceAccountToken)
    → t.state ≡ fetching
    → All (IsValidAt t) times
    → fetches server times t ≡ 0
unfolding fetches
fetching-no_fetch server [] t waits valid = refl
fetching-no_fetch server (now ∷ times) t waits (valid, rest) =
    rw (ask-fetching server now t waits valid)
      (omega (arith, fetching-no_fetch server times t waits rest))

-- What a request does to a token that was fetched: nothing, or it starts to fetch another.
ask-fetched :
    (server : Str) (now : ℕ) (t : ServiceAccountToken)
    → t.state ≡ fetched
    → (ask server now t ≡ (t, some ok_status)) ⊎ (ask server now t ≡ start_fetch t)
unfolding ask
ask-fetched server now t there = elim (Bool-cases (is_empty server || has_client_secret t)) [
  | inl skipped ↦ inl (simp skipped)
  | inr needed ↦ elim (Bool-cases (is_access_token_valid now k_token_refetch_window t)) [
    | inl valid ↦ inl (simp (needed, there, valid))
    | inr short ↦ inr (simp (needed, there, short))
  ]
]

-- The answers to requests at some times, and the token that they leave.
unfoldable pub asks :
    Str → List ℕ → ServiceAccountToken → List (Option Status) × ServiceAccountToken
asks server [] t = ([], t)
asks server (now ∷ times) t =
    let (u, answer) = ask server now t in
    let (answers, last) = asks server times u in (answer ∷ answers, last)

-- A request that starts no fetch is answered OK.
abbrev pub IsServed : Option Status → Type 0
IsServed answer = (answer ≡ none) ⊎ (answer ≡ some ok_status)

-- All requests are served, and they leave a token with the same access token.
abbrev Serves : ServiceAccountToken → List (Option Status) × ServiceAccountToken → Type 0
Serves t r = All IsServed r.0 × (r.1.access_token ≡ t.access_token)

fetching-Serves :
    (server : Str) (times : List ℕ) (t : ServiceAccountToken)
    → t.state ≡ fetching
    → All (IsValidAt t) times
    → Serves t (asks server times t)
unfolding asks
fetching-Serves server [] t waits valid = (tt, refl)
fetching-Serves server (now ∷ times) t waits (valid, rest) =
    let (answers, kept) = fetching-Serves server times t waits rest in
    rw (ask-fetching server now t waits valid) ((inr refl, answers), kept)

fetched-Serves :
    (server : Str) (times : List ℕ) (t : ServiceAccountToken)
    → t.state ≡ fetched
    → All (IsValidAt t) times
    → Serves t (asks server times t)
unfolding asks
fetched-Serves server [] t there valid = (tt, refl)
fetched-Serves server (now ∷ times) t there (valid, rest) = elim (ask-fetched server now t there) [
  | inl same ↦
      let (answers, kept) = fetched-Serves server times t there rest in
      rw same ((inr refl, answers), kept)
  | inr starts_one ↦
      let (answers, kept) = fetching-Serves server times (set_state fetching t) refl rest in
      rw starts_one ((inl refl, answers), kept)
]

once :
    (server : Str) (times : List ℕ) (t : ServiceAccountToken)
    → t.state ≡ fetched
    → All (IsValidAt t) times
    → fetches server times t ≤ 1
unfolding fetches
once server [] t there valid = omega arith
once server (now ∷ times) t there (valid, rest) = elim (ask-fetched server now t there) [
  | inl same ↦ rw same (omega (arith, once server times t there rest))
  | inr starts_one ↦
      rw starts_one
        (rw (fetching-no_fetch server times (set_state fetching t) refl rest) (omega arith))
]

-- Over requests for a fetched token at times where it is valid, without a response between them, at
-- most one starts a fetch, whatever their number and however close the token is to its expiration;
-- every other request is answered OK, and the access token stays the same.
pub refresh-once :
    (server : Str) (times : List ℕ) (t : ServiceAccountToken)
    → t.state ≡ fetched
    → All (IsValidAt t) times
    → (fetches server times t ≤ 1)
      × All IsServed (asks server times t).0
      × ((asks server times t).1.access_token ≡ t.access_token)
refresh-once server times t there valid =
    let (answers, kept) = fetched-Serves server times t there valid in
    (once server times t there valid, answers, kept)

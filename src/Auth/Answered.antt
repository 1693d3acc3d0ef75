-- ===== src/Auth/Answered.antt =====
-- The responses that a request waits for, `HttpFetch` of src/api_manager/check_auth.cc, and how many of
-- them it takes until `on_done_` is called.
use esp.Base.{
  ℕ, ◌≢◌, inl, inr, false, not, ◌||◌, is_empty, [], none, List, ◌∷◌, ◌++◌, Str, Bool-cases,
  Option-cases, All-at,
}
use esp.StatusCode.Names.{Status, is_ok}
use esp.UrlUtil.{get_url_content}
use esp.MethodInfo.{MethodInfo}
use esp.Auth.Keys.{get_cert, set_jwks_uri, set_jwks_uri-none}
use esp.Auth.Cache.{LruCache, UserInfo, JwtValue}
use esp.Auth.State.{
  Library, Settings, Shared, Checker, Progress, finished, awaiting_jwks_uri, awaiting_pub_key,
  dropped, undefined, Outcome, outcome,
}
use esp.Auth.Checker.{
  accept_signature, verify_signature, pass_user_info, with_jwks_uri, audience_contents,
  post_fetch_pub_key, post_fetch_jwks_uri,
}
use esp.Auth.Sound.{ProgressSound, IsMalformed}
use esp.Auth.Flight.{Job, Reach, JobSound, free, guarded, Reach-Sound}

-- `on_done_` was called.
abbrev pub IsFinished : Progress → Type 0
IsFinished (finished status) = Unit
IsFinished (awaiting_jwks_uri url) = ⊥
IsFinished (awaiting_pub_key url) = ⊥
IsFinished dropped = ⊥
IsFinished undefined = ⊥

-- A response to `HttpFetch`: its status, its body and the time at which it is there.
pub record Response : Type 0 where
  pub status : Status
  pub body : Str
  pub now : ℕ

module _ {C : Type 0} (lru : LruCache C JwtValue) (lib : Library) where
  -- The continuation that a checker has handed to `HttpFetch`; one that waits for nothing has none.
  unfoldable pub respond : Settings → Response → Shared C → Checker → Progress → Outcome C
  respond settings a s k (awaiting_jwks_uri url) =
      post_fetch_jwks_uri lru lib settings a.status a.body s k
  respond settings a s k (awaiting_pub_key url) =
      post_fetch_pub_key lru lib settings a.now a.status a.body s k
  respond settings a s k (finished status) = outcome s k (finished status)
  respond settings a s k dropped = outcome s k dropped
  respond settings a s k undefined = outcome s k undefined

  module _ (settings : Settings)
      (written : (user : UserInfo) → lib.user_info_to_json user ≢ none) where
    pass_user_info-Finished :
        (s : Shared C) (k : Checker) → IsFinished (pass_user_info lru lib settings s k).progress
    unfolding pass_user_info
    pass_user_info-Finished s k = elim (Option-cases (lib.user_info_to_json k.user_info)) [
      | inl e ↦ absurd (written k.user_info e)
      | inr (json, e) ↦ rw (e, pass_user_info) tt
    ]

    verify_signature-Finished :
        (now : ℕ) (s : Shared C) (k : Checker)
        → IsFinished (verify_signature lru lib settings now s k).progress
    unfolding verify_signature accept_signature
    verify_signature-Finished now s k = elim (Option-cases (get_cert k.user_info.issuer s.certs)) [
      | inl e ↦ rw (e, verify_signature) tt
      | inr ((cert, exp), e) ↦ elim (Option-cases (lib.verify k.auth_token cert)) [
        | inl good ↦
            rw (e, verify_signature) (rw (good, accept_signature) (pass_user_info-Finished _ k))
        | inr (error, bad) ↦ rw (e, verify_signature) (rw (bad, accept_signature) tt)
      ]
    ]

    post_fetch_pub_key-Finished :
        (a : Response) (s : Shared C) (k : Checker)
        → IsFinished (post_fetch_pub_key lru lib settings a.now a.status a.body s k).progress
    unfolding post_fetch_pub_key
    post_fetch_pub_key-Finished a s k =
        elim (Bool-cases (not (is_ok a.status) || is_empty a.body)) [
          | inl failed ↦ rw (failed, post_fetch_pub_key) tt
          | inr fetched ↦ rw (fetched, post_fetch_pub_key) (verify_signature-Finished a.now _ k)
        ]

    -- The next response is the last.
    abbrev pub IsAnswered : Outcome C → Type 0
    IsAnswered o =
        (b : Response) (s : Shared C)
        → IsFinished (respond settings b s o.checker o.progress).progress

    finished-Answered :
        (s : Shared C) (k : Checker) (status : Status) → IsAnswered (outcome s k (finished status))
    unfolding respond
    finished-Answered s k status b t = tt

    awaiting-Answered :
        (s : Shared C) (k : Checker) (url : Str) → IsAnswered (outcome s k (awaiting_pub_key url))
    unfolding respond
    awaiting-Answered s k url b t = post_fetch_pub_key-Finished b t k

    with_jwks_uri-Answered :
        (jwks_uri : Str) (s : Shared C) (k : Checker) (progress : Progress)
        → get_url_content k.user_info.issuer ≢ none
        → ((t : Shared C) → IsAnswered (outcome t k progress))
        → IsAnswered (with_jwks_uri lru lib settings jwks_uri s k progress)
    with_jwks_uri-Answered jwks_uri s k progress well next =
        elim (Option-cases (set_jwks_uri k.user_info.issuer jwks_uri false s.jwks_uris)) [
          | inl e ↦ absurd (well (set_jwks_uri-none k.user_info.issuer jwks_uri s.jwks_uris e))
          | inr (uris, e) ↦ rw (e, with_jwks_uri) (next (record s { jwks_uris = uris }))
        ]

    post_fetch_jwks_uri-Answered :
        (a : Response) (s : Shared C) (k : Checker)
        → get_url_content k.user_info.issuer ≢ none
        → IsAnswered (post_fetch_jwks_uri lru lib settings a.status a.body s k)
    unfolding post_fetch_jwks_uri
    post_fetch_jwks_uri-Answered a s k well = elim (Bool-cases (not (is_ok a.status))) [
      | inl failed ↦
          rw (failed, post_fetch_jwks_uri)
            (with_jwks_uri-Answered [] s k _ well (λ t. finished-Answered t k _))
      | inr fine ↦ elim (Option-cases (lib.jwks_uri_of_json a.body)) [
        | inl e ↦
            rw (fine, post_fetch_jwks_uri)
              (rw e (with_jwks_uri-Answered [] s k _ well (λ t. finished-Answered t k _)))
        | inr (uri, e) ↦
            rw (fine, post_fetch_jwks_uri)
              (rw e (with_jwks_uri-Answered uri s k _ well (λ t. awaiting-Answered t k uri)))
      ]
    ]

    settled :
        (b : Response) (t : Shared C) (k : Checker) (progress : Progress)
        → IsFinished progress
        → IsFinished (respond settings b t k progress).progress
    unfolding respond
    settled b t k (finished status) done = tt
    settled b t k (awaiting_jwks_uri url) done = absurd done
    settled b t k (awaiting_pub_key url) done = absurd done
    settled b t k dropped done = absurd done
    settled b t k undefined done = absurd done

    -- The next response but one is the last, at what is established for a request.
    sound-Answered :
        (Genuine : Str → Str → Type 0) (m : MethodInfo) (started : ℕ) (a : Response) (s : Shared C)
        (k : Checker) (progress : Progress)
        → ¬ IsMalformed lru lib Genuine settings m started k.user_info
        → ProgressSound lru lib Genuine settings m started k progress
        → IsAnswered (respond settings a s k progress)
    unfolding respond
    sound-Answered Genuine m started a s k (finished status) well sound b t = tt
    sound-Answered Genuine m started a s k (awaiting_jwks_uri url) well sound b t =
        post_fetch_jwks_uri-Answered a s k (λ e. well (inl e)) b t
    sound-Answered Genuine m started a s k (awaiting_pub_key url) well sound b t =
        settled b t _ _ (post_fetch_pub_key-Finished a s k)
    sound-Answered Genuine m started a s k dropped well sound b t =
        absurd (written k.user_info sound)
    sound-Answered Genuine m started a s k undefined well sound b t = absurd (well sound)

  -- In every reachable state, where the user information is always written as JSON, a request whose
  -- issuer and audiences have a last byte is answered after at most two more responses, whatever the
  -- responses are and whatever other requests do to the shared caches before each of them.
  pub answered-in_two :
      (Genuine : Str → Str → Type 0) (s : Shared C) (before after : List Job) (job : Job)
      (a b : Response) (at_a at_b : Shared C)
      → ((user : UserInfo) → lib.user_info_to_json user ≢ none)
      → Reach lru lib Genuine s (before ++ (job ∷ after))
      → get_url_content job.checker.user_info.issuer ≢ none
      → audience_contents job.checker.user_info.audiences ≢ none
      → let first = respond job.settings a at_a job.checker job.progress in
        IsFinished (respond job.settings b at_b first.checker first.progress).progress
  unfolding respond
  answered-in_two Genuine s before after job a b at_a at_b written reached issuer audiences = go (
      All-at (JobSound lru lib Genuine) before after job
        (Reach-Sound lru lib Genuine s (before ++ (job ∷ after)) reached).1)
    where
      go :
          JobSound lru lib Genuine job
          → IsFinished
              (respond job.settings b at_b
                (respond job.settings a at_a job.checker job.progress).checker
                (respond job.settings a at_a job.checker job.progress).progress).progress
      go (free none_required done) = rw (done, respond) tt
      go (guarded m required sound) =
          sound-Answered job.settings written Genuine m job.started a at_a job.checker job.progress
            (λ bad. elim bad [ inl e ↦ issuer e | inr e ↦ audiences e ]) sound b at_b

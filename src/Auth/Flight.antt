-- ===== src/Auth/Flight.antt =====
-- The requests that one server process has in hand, and the order in which their runs come: a request
-- arrives, or the response that one of them awaits is there.
use esp.Base.{
  ℕ, ◌≡◌, ◌≢◌, ap, subst, refl, inl, inr, sym, ◌∙◌, true, Option, none, some, List, [], ◌∷◌, ◌++◌,
  Str, Bool-cases, All, All-at, All-put,
}
use esp.StatusCode.Names.{Status, is_ok, ok_status}
use esp.Request.{Request}
use esp.MethodInfo.{MethodInfo, map_find}
use esp.Auth.Cache.{LruCache, JwtValue}
use esp.Auth.State.{
  Library, Settings, Shared, Checker, Progress, finished, awaiting_jwks_uri, awaiting_pub_key,
  Outcome,
}
use esp.Auth.Checker.{post_fetch_pub_key, post_fetch_jwks_uri, check_auth}
use esp.Auth.Sound.{
  IsSigned, IsTrusted, IsAllowed, ProgressSound, IsSound, post_fetch_pub_key-Sound,
  post_fetch_jwks_uri-Sound,
}
use esp.Auth.Entry.{check_auth-Sound}

-- A request in hand: when it arrived, the settings for it, its checker and how far it came.
pub record Job : Type 0 where
  pub started : ℕ
  pub settings : Settings
  pub checker : Checker
  pub progress : Progress

abbrev pub job_of : {C : Type 0} → ℕ → Settings → Outcome C → Job
job_of started settings o = record {
  started = started;
  settings = settings;
  checker = o.checker;
  progress = o.progress;
}

-- The service demands authentication for the method of a request.
pub record IsRequired (settings : Settings) (m : MethodInfo) : Type 0 where
  pub method : settings.method ≡ some m
  pub required : settings.require_auth ≡ true
  pub wanted : m.auth ≡ true

module _ {C : Type 0} (lru : LruCache C JwtValue) (lib : Library)
    (Genuine : Str → Str → Type 0) where
  -- The states of the shared caches and of the requests, over all orders of the runs. A response that
  -- is a success with keys has genuine keys of the issuer that the request asks for.
  pub data Reach : Shared C → List Job → Type 0 where
    begun :
        (s : Shared C)
        → s.certs ≡ []
        → ((token : Str) → lru.find token s.jwt_cache ≡ none)
        → Reach s []
    arrived :
        (s : Shared C) (jobs : List Job) (now : ℕ) (settings : Settings) (r : Request)
        → Reach s jobs
        → Reach
            (check_auth lru lib settings now r s).shared
            (job_of now settings (check_auth lru lib settings now r s) ∷ jobs)
    uri_fetched :
        (s : Shared C) (before after : List Job) (job : Job) (url : Str) (status : Status)
        (body : Str)
        → job.progress ≡ awaiting_jwks_uri url
        → Reach s (before ++ (job ∷ after))
        → Reach (post_fetch_jwks_uri lru lib job.settings status body s job.checker).shared (
            before
            ++ (job_of job.started job.settings
                  (post_fetch_jwks_uri lru lib job.settings status body s job.checker)
                ∷ after))
    key_fetched :
        (s : Shared C) (before after : List Job) (job : Job) (url : Str) (now : ℕ) (status : Status)
        (body : Str)
        → job.progress ≡ awaiting_pub_key url
        → (is_ok status ≡ true → Genuine job.checker.user_info.issuer body)
        → Reach s (before ++ (job ∷ after))
        → Reach (post_fetch_pub_key lru lib job.settings now status body s job.checker).shared (
            before
            ++ (job_of job.started job.settings
                  (post_fetch_pub_key lru lib job.settings now status body s job.checker)
                ∷ after))

  -- What is established for a request: by its progress where the service demands authentication, and
  -- else it was let through at once.
  pub data JobSound (job : Job) : Type 0 where
    guarded :
        (m : MethodInfo)
        → IsRequired job.settings m
        → ProgressSound lru lib Genuine job.settings m job.started job.checker job.progress
        → JobSound job
    free :
        ((m : MethodInfo) → ¬ IsRequired job.settings m)
        → job.progress ≡ finished ok_status
        → JobSound job

  begun-IsTrusted :
      (s : Shared C)
      → s.certs ≡ []
      → ((token : Str) → lru.find token s.jwt_cache ≡ none)
      → IsTrusted lru lib Genuine s
  unfolding map_find
  begun-IsTrusted s no_certs empty = record {
    keys = λ issuer cert exp found.
        absurd (some_of_none (cert, exp) (sym (ap (map_find issuer) no_certs) ∙ found));
    cached = λ token val found. absurd (some_of_none val (sym (empty token) ∙ found));
  }
    where
      some_of_none : {A : Type 0} (a : A) → none ≢ some a
      some_of_none a e = cc

  guarded-Sound :
      (s : Shared C) (started : ℕ) (settings : Settings) (m : MethodInfo) (o : Outcome C)
      → IsRequired settings m
      → IsSound lru lib Genuine settings m started o
      → IsTrusted lru lib Genuine o.shared × JobSound (job_of started settings o)
  guarded-Sound s started settings m o required sound =
      (sound.trusted, guarded m required sound.progress)

  arrived-Sound :
      (s : Shared C) (now : ℕ) (settings : Settings) (r : Request)
      → IsTrusted lru lib Genuine s
      → IsTrusted lru lib Genuine (check_auth lru lib settings now r s).shared
        × JobSound (job_of now settings (check_auth lru lib settings now r s))
  unfolding check_auth
  arrived-Sound s now settings r t = go settings.method refl
    where
      go :
          (found : Option MethodInfo)
          → settings.method ≡ found
          → IsTrusted lru lib Genuine (check_auth lru lib settings now r s).shared
            × JobSound (job_of now settings (check_auth lru lib settings now r s))
      go none e = rw (e, check_auth) (t, free (λ m h. cc) refl)
      go (some m) e = elim (Bool-cases settings.require_auth) [
        | inr off ↦ rw (check_auth, e, off) (t, free (λ n h. cc) refl)
        | inl required ↦ elim (Bool-cases m.auth) [
          | inr off ↦ rw (check_auth, e, required, off) (t, free (λ n h. cc) refl)
          | inl wanted ↦
              let rule : IsRequired settings m = record {
                method = e;
                required = required;
                wanted = wanted;
              } in
              guarded-Sound s now settings m _ rule
                (check_auth-Sound lru lib Genuine settings m now r s e required wanted t)
        ]
      ]

  uri_fetched-Sound :
      (s : Shared C) (job : Job) (url : Str) (status : Status) (body : Str)
      → job.progress ≡ awaiting_jwks_uri url
      → IsTrusted lru lib Genuine s
      → JobSound job
      → IsTrusted lru lib Genuine
          (post_fetch_jwks_uri lru lib job.settings status body s job.checker).shared
        × JobSound (
            job_of job.started job.settings
              (post_fetch_jwks_uri lru lib job.settings status body s job.checker))
  uri_fetched-Sound s job url status body waits t (guarded m required sound) =
      guarded-Sound s job.started job.settings m _ required (
        post_fetch_jwks_uri-Sound lru lib Genuine job.settings m job.started status body s
          job.checker t
          (subst (ProgressSound lru lib Genuine job.settings m job.started job.checker) waits
            sound))
  uri_fetched-Sound s job url status body waits t (free none_required done) = absurd cc

  key_fetched-Sound :
      (s : Shared C) (job : Job) (url : Str) (now : ℕ) (status : Status) (body : Str)
      → job.progress ≡ awaiting_pub_key url
      → (is_ok status ≡ true → Genuine job.checker.user_info.issuer body)
      → IsTrusted lru lib Genuine s
      → JobSound job
      → IsTrusted lru lib Genuine
          (post_fetch_pub_key lru lib job.settings now status body s job.checker).shared
        × JobSound (
            job_of job.started job.settings
              (post_fetch_pub_key lru lib job.settings now status body s job.checker))
  key_fetched-Sound s job url now status body waits honest t (guarded m required sound) =
      guarded-Sound s job.started job.settings m _ required (
        post_fetch_pub_key-Sound lru lib Genuine job.settings m job.started now status body s
          job.checker honest t
          (subst (ProgressSound lru lib Genuine job.settings m job.started job.checker) waits
            sound))
  key_fetched-Sound s job url now status body waits honest t (free none_required done) = absurd cc

  pub Reach-Sound :
      (s : Shared C) (jobs : List Job)
      → Reach s jobs
      → IsTrusted lru lib Genuine s × All JobSound jobs
  Reach-Sound s jobs (begun _ no_certs empty) = (begun-IsTrusted s no_certs empty, tt)
  Reach-Sound s jobs (arrived old rest now settings r before) =
      let (t, all) = Reach-Sound old rest before in
      let (kept, sound) = arrived-Sound old now settings r t in (kept, (sound, all))
  Reach-Sound s jobs (uri_fetched old before after job url status body waits was) =
      let (t, all) = Reach-Sound old (before ++ (job ∷ after)) was in
      let (kept, sound) =
        uri_fetched-Sound old job url status body waits t (All-at JobSound before after job all) in
      (kept, All-put JobSound before after job _ all sound)
  Reach-Sound s jobs (key_fetched old before after job url now status body waits honest was) =
      let (t, all) = Reach-Sound old (before ++ (job ∷ after)) was in
      let (kept, sound) =
        key_fetched-Sound old job url now status body waits honest t
          (All-at JobSound before after job all) in
      (kept, All-put JobSound before after job _ all sound)

  -- Where every successful response to a request for keys has genuine keys of the issuer, in
  -- every reachable state a request for a method that demands authentication has passed the
  -- checker only if its token is verified by a genuine key of its issuer and parses as the user
  -- that is handed on, the method allows that issuer, an audience is one that it allows or the
  -- name of the service, and the token parsed or had not expired when the request arrived.
  pub accepted-IsSigned :
      (s : Shared C) (before after : List Job) (job : Job) (m : MethodInfo) (status : Status)
      → Reach s (before ++ (job ∷ after))
      → IsRequired job.settings m
      → job.progress ≡ finished status
      → is_ok status ≡ true
      → IsSigned lru lib Genuine job.checker.auth_token job.checker.user_info
        × IsAllowed lru lib Genuine job.settings m job.started job.checker.auth_token
            job.checker.user_info
  accepted-IsSigned s before after job m status reached required done fine =
      go (All-at JobSound before after job (Reach-Sound s (before ++ (job ∷ after)) reached).1)
    where
      go :
          JobSound job
          → IsSigned lru lib Genuine job.checker.auth_token job.checker.user_info
            × IsAllowed lru lib Genuine job.settings m job.started job.checker.auth_token
                job.checker.user_info
      go (free none_required _) = absurd (none_required m required)
      go (guarded n wanted sound) =
          let same : n ≡ m = cc in
          subst
            (λ (x : MethodInfo).
              IsSigned lru lib Genuine job.checker.auth_token job.checker.user_info
              × IsAllowed lru lib Genuine job.settings x job.started job.checker.auth_token
                  job.checker.user_info)
            same
            (subst (ProgressSound lru lib Genuine job.settings n job.started job.checker) done sound
              fine)

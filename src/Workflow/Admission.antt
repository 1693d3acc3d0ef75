-- ===== src/Workflow/Admission.antt =====
-- The workflow with the handlers that `RegisterAll` of src/api_manager/check_workflow.cc registers, and
-- what a request that it lets through has shown to service control.
use esp.Base.{
  ◌≡◌, ◌≢◌, ◌∙◌, inl, inr, sym, ap, subst, refl, Bool, true, false, not, ◌||◌, Option, none, some,
  List, [], ◌∷◌, ◌++◌, map, is_empty, if◌then◌else◌, Bool-cases, arith,
}
use esp.StatusCode.Names.{Status, is_ok, ok_status}
use esp.MethodInfo.{MethodInfo}
use esp.RequestContext.{Service, RequestContext, method}
use esp.RequestContext.Operation.{fill_check_request_info, fill_quota_request_info}
use esp.Workflow.{Handler, run, run_one_handler}
use esp.Workflow.Control.{
  ServiceControl, Ending, completed, null_pointer, check_method_call, check_service_control,
  with_check_response, failed_open, quota_method_call, quota_control, not_configured,
}
use esp.Workflow.Order.{Check, calls, first_failure, run-past}

-- The answers of the handlers before those of service control.
pub record Earlier : Type 0 where
  pub fetch_service_account_token : Check RequestContext
  pub fetch_instance_identity_token : Check RequestContext
  pub check_auth : Check RequestContext
  pub check_security_rules : Check RequestContext

abbrev pub earlier_checks : Earlier → List (Check RequestContext)
earlier_checks e =
    e.fetch_service_account_token ∷ e.fetch_instance_identity_token ∷ e.check_auth
    ∷ e.check_security_rules ∷ []

module _ (service : Service) (client : ServiceControl) where
  -- `RegisterAll`.
  abbrev pub registered : Earlier → List (Handler RequestContext Ending)
  registered e =
      map calls (earlier_checks e)
      ++ (check_service_control service client ∷ quota_control service client ∷ [])

  -- The checks of a request by `RequestHandler::Check`.
  unfoldable pub run_checks : Earlier → RequestContext → Ending
  run_checks e c = run completed (registered e) c

  -- Why `CheckServiceControl` lets a request for a method through: service control is not asked, the
  -- method allows unregistered calls and there is no key, or `Check` has accepted the key.
  pub data IsChecked (c : RequestContext) (m : MethodInfo) : Type 0 where
    not_needed : not service.has_service_control || m.skip_service_control ≡ true → IsChecked c m
    unregistered : is_empty c.api_key ≡ true → m.allow_unregistered_calls ≡ true → IsChecked c m
    accepted :
        is_empty c.api_key ≡ false
        → is_ok (client.check (fill_check_request_info service c)).0 ≡ true
        → IsChecked c m

  -- What `CheckServiceControl` hands to its continuation: a failure, or the method as it was.
  data CheckCase (c : RequestContext) (continuation : Status → RequestContext → Ending) (r : Ending)
      : Type 0 where
    fails :
        (status : Status) (d : RequestContext)
        → is_ok status ≡ false
        → r ≡ continuation status d
        → CheckCase c continuation r
    passes :
        (status : Status) (d : RequestContext) (m : MethodInfo)
        → is_ok status ≡ true
        → method c ≡ some m
        → method d ≡ some m
        → IsChecked c m
        → r ≡ continuation status d
        → CheckCase c continuation r

  not_configured-fails : (c : RequestContext) → is_ok (not_configured c) ≡ false
  unfolding is_ok
  not_configured-fails c = ground arith

  with_check_response-method :
      (c : RequestContext)
      → method (with_check_response (client.check (fill_check_request_info service c)).1 c)
        ≡ method c
  unfolding with_check_response
  with_check_response-method c = ground arith

  check-cases :
      (c : RequestContext) (continuation : Status → RequestContext → Ending)
      → CheckCase c continuation (check_service_control service client c continuation)
  unfolding check_service_control is_ok
  check-cases c continuation = go (method c) refl
    where
      go :
          (found : Option MethodInfo)
          → method c ≡ found
          → CheckCase c continuation (check_method_call service client c found continuation)
      go none e = fails (not_configured c) c (not_configured-fails c) refl
      go (some m) e =
          elim (Bool-cases (not service.has_service_control || m.skip_service_control)) [
            | inl skipped ↦ rw skipped (passes ok_status c m refl e e (not_needed skipped) refl)
            | inr needed ↦ elim (Bool-cases (is_empty c.api_key)) [
              | inl no_key ↦ elim (Bool-cases m.allow_unregistered_calls) [
                | inl allowed ↦
                    rw (needed, no_key)
                      (rw allowed
                        (passes ok_status c m refl e e (unregistered no_key allowed) refl))
                | inr refused ↦ rw (needed, no_key) (rw refused (fails _ _ refl refl))
              ]
              | inr key ↦
                  elim (Bool-cases (is_ok (client.check (fill_check_request_info service c)).0)) [
                    | inl fine ↦
                        rw (needed, key)
                          (passes _ _ m fine e (with_check_response-method c ∙ e)
                            (accepted key fine) refl)
                    | inr bad ↦ rw (needed, key) (fails _ _ bad refl)
                  ]
            ]
          ]

  -- Why `QuotaControl` lets a request for a method through.
  pub data IsPaid (c : RequestContext) (m : MethodInfo) : Type 0 where
    no_cost : is_empty m.metric_cost_vector || m.skip_service_control ≡ true → IsPaid c m
    granted :
        is_ok (failed_open service client (client.quota (fill_quota_request_info service c m)))
          ≡ true
        → IsPaid c m

  data QuotaCase (c : RequestContext) (m : MethodInfo) (r : Ending) : Type 0 where
    refuses : (status : Status) → is_ok status ≡ false → r ≡ completed status c → QuotaCase c m r
    grants :
        (status : Status)
        → is_ok status ≡ true
        → IsPaid c m
        → r ≡ completed status c
        → QuotaCase c m r
    crashes : service.has_service_control ≡ false → r ≡ null_pointer → QuotaCase c m r

  quota-cases :
      (c : RequestContext) (m : MethodInfo)
      → method c ≡ some m
      → QuotaCase c m (quota_control service client c completed)
  unfolding quota_control is_ok
  quota-cases c m e =
      subst
        (λ (x : Option MethodInfo). QuotaCase c m (quota_method_call service client c x completed))
        (sym e)
        (elim (Bool-cases (is_empty m.metric_cost_vector || m.skip_service_control)) [
          | inl free ↦ rw free (grants ok_status refl (no_cost free) refl)
          | inr paid ↦ rw paid (pay service.has_service_control refl)
        ])
    where
      status : Status
      status = failed_open service client (client.quota (fill_quota_request_info service c m))

      pay :
          (present : Bool)
          → service.has_service_control ≡ present
          → QuotaCase c m (if present then completed status c else null_pointer)
      pay false absent = crashes absent refl
      pay true present = elim (Bool-cases (is_ok status)) [
        | inl fine ↦ grants status fine (granted fine) refl
        | inr bad ↦ refuses status bad refl
      ]

  -- What a request has shown that every check lets through, in the context that it ends with.
  pub record IsAdmitted (e : Earlier) (c d : RequestContext) : Type 0 where
    pub passed : is_ok (first_failure (earlier_checks e) c).0 ≡ true
    pub rule : MethodInfo
    pub configured : method d ≡ some rule
    pub checked : IsChecked (first_failure (earlier_checks e) c).1 rule
    pub paid : IsPaid d rule

  -- The runs of the workflow: a check fails; or all let the request through; or there is no service
  -- control for the quota.
  data RunCase (e : Earlier) (c : RequestContext) (r : Ending) : Type 0 where
    failed :
        (status : Status) (d : RequestContext)
        → is_ok status ≡ false
        → r ≡ completed status d
        → RunCase e c r
    admitted :
        (status : Status) (d : RequestContext)
        → IsAdmitted e c d
        → r ≡ completed status d
        → RunCase e c r
    crashed : service.has_service_control ≡ false → r ≡ null_pointer → RunCase e c r

  run-cases : (e : Earlier) (c : RequestContext) → RunCase e c (run_checks e c)
  unfolding run_checks run_one_handler
  run-cases e c =
      elim (run-past completed (earlier_checks e) (check_service_control service client)
        (quota_control service client ∷ []) c) [
          | inr (bad, same) ↦ failed _ _ bad same
          | inl (fine, same) ↦
              behind fine same (check-cases (first_failure (earlier_checks e) c).1 _)
        ]
    where
      t : RequestContext
      t = (first_failure (earlier_checks e) c).1

      next : Status → RequestContext → Ending
      next status d =
          if is_ok status
          then run_one_handler completed (quota_control service client) [] d
          else completed status d

      paid_for :
          (d : RequestContext) (m : MethodInfo)
          → is_ok (first_failure (earlier_checks e) c).0 ≡ true
          → method d ≡ some m
          → IsChecked t m
          → (r : Ending) → r ≡ quota_control service client d completed
          → QuotaCase d m (quota_control service client d completed)
          → RunCase e c r
      paid_for d m fine kept checked r same (refuses status bad q) = failed status d bad (same ∙ q)
      paid_for d m fine kept checked r same (grants status good paid q) =
          admitted status d
            (record { passed = fine; rule = m; configured = kept; checked = checked; paid = paid })
            (same ∙ q)
      paid_for d m fine kept checked r same (crashes absent q) = crashed absent (same ∙ q)

      behind :
          is_ok (first_failure (earlier_checks e) c).0 ≡ true
          → run_checks e c ≡ check_service_control service client t next
          → CheckCase t next (check_service_control service client t next)
          → RunCase e c (run_checks e c)
      behind fine same (fails status d bad q) = failed status d bad (
          same
          ∙ q
          ∙ ap (λ b. if b then quota_control service client d completed else completed status d)
              bad)
      behind fine same (passes status d m good was kept checked q) =
          paid_for d m fine kept checked (run_checks e c)
            (same
              ∙ q
              ∙ ap (λ b. if b then quota_control service client d completed else completed status d)
                  good)
            (quota-cases d m kept)

  -- A request that the workflow completes with OK has passed the four earlier checks, its method is
  -- configured, service control is not to be asked or has accepted its API key unless the method allows
  -- calls without one, and its quota is granted, or the quota server is not available, unless it has no
  -- cost.
  pub completed-IsAdmitted :
      (e : Earlier) (c d : RequestContext) (status : Status)
      → run_checks e c ≡ completed status d
      → is_ok status ≡ true
      → IsAdmitted e c d
  completed-IsAdmitted e c d status done fine = go (run-cases e c)
    where
      go : RunCase e c (run_checks e c) → IsAdmitted e c d
      go (failed other t bad same) = absurd (ground (arith, done, same, fine, bad))
      go (admitted other t shown same) =
          let final : t ≡ d = cc in subst (λ (x : RequestContext). IsAdmitted e c x) final shown
      go (crashed absent same) = absurd cc

  -- Where the service has a service control, no run of the workflow uses a null pointer.
  pub run_checks-safe :
      (e : Earlier) (c : RequestContext)
      → service.has_service_control ≡ true
      → run_checks e c ≢ null_pointer
  run_checks-safe e c present crash = go (run-cases e c)
    where
      go : RunCase e c (run_checks e c) → ⊥
      go (failed other t bad same) = cc
      go (admitted other t shown same) = cc
      go (crashed absent same) = cc

-- ===== src/ServiceControl/FailOpen.antt =====
-- When a check that cannot be made lets a request through.
use esp.Base.{ℕ, ◌≡◌, refl, ap, ◌∙◌, Bool, true, false, ◌&&◌, some, Str, leb, ltb, ◌==◌, arith}
use esp.Base.Int.{ℤ, pos, negsuc}
use esp.StatusCode.{canonical_code, canonical_of_http, canonical_of_class}
use esp.StatusCode.Code
use esp.StatusCode.Names.{Status, is_ok}
use esp.RequestContext.Operation.{CheckRequestInfo}
use esp.ServiceControl.Convert.{CheckResponse}
use esp.ServiceControl.Labels.{Encoding}
use esp.ServiceControl.Fill.{Proto, CheckRequest, filled, fill_check_request}
use esp.ServiceControl.Aggregated.{
  ProtoStatus, to_proto, proto_ok, status_code_is_5xx, call_failure, call, Client,
  no_check_response, check_call, check_on_done, check_filled, check,
}

-- A response that is neither a success nor informational, and a failure of the server or to reach it.
abbrev pub is_failure : ℤ → Bool
is_failure (pos c) = leb 300 c
is_failure (negsuc k) = true

abbrev pub is_server_error : ℤ → Bool
is_server_error (pos c) = leb 500 c && ltb c 600
is_server_error (negsuc k) = true

canonical-failure :
    (c : ℕ)
    → leb 300 c ≡ true
    → ((canonical_code (pos c) == Code.ok) ≡ false)
      × (status_code_is_5xx (canonical_code (pos c)) ≡ leb 500 c && ltb c 600)
unfolding status_code_is_5xx canonical_code canonical_of_http canonical_of_class
canonical-failure c h = (ground (arith, h), ground (arith, h))

call_failure-code :
    (code : ℤ) (body : Str)
    → is_failure code ≡ true
    → (proto_ok (to_proto (call_failure code body)) ≡ false)
      × (status_code_is_5xx (to_proto (call_failure code body)).error_code ≡ is_server_error code)
unfolding status_code_is_5xx canonical_code
call_failure-code (pos c) body h = canonical-failure c h
call_failure-code (negsuc k) body h = (refl, refl)

is_ok-failure : (s : Status) → is_failure s.code ≡ true → is_ok s ≡ false
unfolding is_ok
is_ok-failure s h = ground (arith, h)

module _ (proto : Proto) (e : Encoding) (network_fail_open : Bool) where
  check_on_done-failure :
      (status : ProtoStatus) (response : CheckResponse)
      → proto_ok status ≡ false
      → is_ok (check_on_done proto e network_fail_open (status, response)).0
        ≡ network_fail_open && status_code_is_5xx status.error_code
  unfolding check_on_done is_ok status_code_is_5xx
  check_on_done-failure status response bad = ground (arith, bad)

  -- A check that is not answered from the cache, and to which the server of service control answers
  -- with an HTTP code from 300 on, or is not reached, is OK exactly where the network is configured to
  -- fail open and the code is a 5xx code or the server is not reached.
  pub check-fails_open :
      (client : Client) (now : ℕ) (info : CheckRequestInfo) (request : CheckRequest)
      (status : Status) (body : Str)
      → fill_check_request proto e now info ≡ filled request
      → client.check (check_call proto e network_fail_open client) request
        ≡ check_call proto e network_fail_open client request
      → client.http_check request ≡ (status, body)
      → is_failure status.code ≡ true
      → is_ok (check proto e network_fail_open (some client) now info).0
        ≡ network_fail_open && is_server_error status.code
  unfolding check call
  check-fails_open client now info request status body fills missed answers fails =
      let (bad, class) = call_failure-code status.code body fails in
      ap (λ r. is_ok r.0) (checked ∙ ap (check_on_done proto e network_fail_open) (missed ∙ called))
      ∙ check_on_done-failure (to_proto (call_failure status.code body)) no_check_response bad
      ∙ ap (λ b. network_fail_open && b) class
    where
      checked :
          check proto e network_fail_open (some client) now info
          ≡ check_on_done proto e network_fail_open
              (client.check (check_call proto e network_fail_open client) request)
      checked = ap (check_filled proto e network_fail_open client) fills

      called :
          check_call proto e network_fail_open client request
          ≡ (to_proto (call_failure status.code body), no_check_response)
      called =
          ap (λ r. call no_check_response client.parse_check r.0 r.1) answers
          ∙ simp (is_ok-failure status fails)

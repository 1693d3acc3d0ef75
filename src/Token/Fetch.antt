-- ===== src/Token/Fetch.antt =====
-- `GlobalFetchServiceAccountToken` of src/api_manager/fetch_metadata.cc: a request for the token, and
-- the response of the metadata server to it.
use esp.Base.{
  ℕ, ◌+◌, ◌*◌, Bool, true, false, not, ◌||◌, Option, none, some, Str, bytes, is_empty, ltb,
  if◌then◌else◌,
}
use esp.Base.Int.{ℤ, pos}
use esp.StatusCode.Code
use esp.StatusCode.Names.{Status, is_ok, ok_status, internal}
use esp.Token.{
  FetchState, not_fetched, fetching, fetched, failed, ServiceAccountToken, second,
  is_access_token_valid, set_state, set_access_token, has_client_secret, set_token_json_response,
}

abbrev pub k_instance_identity_token_expiration : ℕ
k_instance_identity_token_expiration = 3500

abbrev pub k_failure_status_window : ℕ
k_failure_status_window = 5

abbrev pub k_token_refetch_window : ℕ
k_token_refetch_window = 60

abbrev pub fetch_error : Str → Status
fetch_error message = record { code = pos Code.internal; message = message; error_cause = internal }

abbrev pub k_failed_token_fetch : Str
k_failed_token_fetch = bytes "Failed to fetch service account token"

abbrev pub k_failed_token_parse : Str
k_failed_token_parse = bytes "Failed to parse access token response"

-- What a request does to the token, and the status of its continuation; `none` is a fetch.
abbrev pub Asked : Type 0
Asked = ServiceAccountToken × Option Status

abbrev pub start_fetch : ServiceAccountToken → Asked
start_fetch t = (set_state fetching t, none)

-- The states of the token.
abbrev pub ask_state : ℕ → ServiceAccountToken → FetchState → Asked
ask_state now t fetched =
    if is_access_token_valid now k_token_refetch_window t
    then (t, some ok_status)
    else start_fetch (set_state not_fetched t)
ask_state now t fetching =
    if is_access_token_valid now 0 t then (t, some ok_status) else start_fetch t
ask_state now t failed =
    if ltb now (t.last_failed_fetch_time + k_failure_status_window * second)
    then (t, some (fetch_error k_failed_token_fetch))
    else start_fetch t
ask_state now t not_fetched = start_fetch t

-- A request for the token, with the address of the metadata server.
unfoldable pub ask : Str → ℕ → ServiceAccountToken → Asked
ask metadata_server now t =
    if is_empty metadata_server || has_client_secret t
    then (t, some ok_status)
    else ask_state now t t.state

-- A response, at what `esp_get_service_account_auth_token` parses of its body.
abbrev pub set_parsed : ServiceAccountToken × Bool → ServiceAccountToken × Status
set_parsed (t, true) = (t, ok_status)
set_parsed (t, false) = (t, fetch_error k_failed_token_parse)

unfoldable pub respond :
    Str → ℕ → Status → Str → Option (Str × ℤ) → ServiceAccountToken → ServiceAccountToken × Status
respond audience now status body parsed t =
    if not (is_ok status)
    then (
      record t { last_failed_fetch_time = now; state = failed },
      fetch_error k_failed_token_fetch,
    )
    else if is_empty audience
    then set_parsed (set_token_json_response now parsed t)
    else (set_access_token now body (pos k_instance_identity_token_expiration) t, ok_status)

-- ===== src/StatusCode/Names.antt =====
-- The texts of src/api_manager/utils/status.{h,cc}: the status, its equality, the name of a code, and
-- `ToString`.
use esp.Base.{
  ℕ, zero, suc, ◌+◌, ◌/◌, ◌%◌, Bool, true, false, ltb, leb, ◌==◌, ◌&&◌, ◌||◌, if◌then◌else◌, [],
  ◌∷◌, ◌++◌, Str, bytes, str_eq, is_empty,
}
use esp.Base.Int.{ℤ, pos, negsuc}
use esp.StatusCode.Code
use esp.StatusCode.{stored_code}

-- `Status::ErrorCause`.
pub data ErrorCause : Type 0 where
  internal application auth service_control : ErrorCause

pub record Status : Type 0 where
  pub code : ℤ
  pub message : Str
  pub error_cause : ErrorCause

-- The constructor of a status.
abbrev pub new_status : ℤ → Str → ErrorCause → Status
new_status code message error_cause = record {
  code = stored_code code;
  message = message;
  error_cause = error_cause;
}

-- Equality of codes and of causes.
abbrev pub code_eq : ℤ → ℤ → Bool
code_eq (pos a) (pos b) = a == b
code_eq (pos a) (negsuc b) = false
code_eq (negsuc a) (pos b) = false
code_eq (negsuc a) (negsuc b) = a == b

abbrev pub cause_eq : ErrorCause → ErrorCause → Bool
cause_eq internal internal = true
cause_eq application application = true
cause_eq auth auth = true
cause_eq service_control service_control = true
cause_eq _ _ = false

-- `operator==`.
pub status_eq : Status → Status → Bool
status_eq s t =
    code_eq s.code t.code && str_eq s.message t.message && cause_eq s.error_cause t.error_cause

-- `ErrorCauseToString`.
pub error_cause_to_string : ErrorCause → Str
error_cause_to_string internal = bytes "internal"
error_cause_to_string application = bytes "application"
error_cause_to_string auth = bytes "auth"
error_cause_to_string service_control = bytes "service_control"

-- A number in decimal, as an output stream writes it: a number has no more digits than its value
-- and one.
decimal_loop : ℕ → ℕ → Str → Str
decimal_loop zero n s = s
decimal_loop (suc fuel) n s =
    let digit = b'0' + n % 10 in
    let longer = decimal_loop fuel (n / 10) (digit ∷ s) in if ltb n 10 then digit ∷ s else longer

pub decimal : ℕ → Str
decimal n = decimal_loop (suc n) n []

abbrev pub in_brackets : Str → Str → Str
in_brackets word number = word ++ (b'(' ∷ number ++ (b')' ∷ []))

-- The names of the codes of nginx, -(c + 1).
pub name_of_nginx : ℕ → Str
name_of_nginx c =
    if c == 0
    then bytes "ERROR"
    else if c == 1
    then bytes "AGAIN"
    else if c == 2
    then bytes "BUSY"
    else if c == 3
    then bytes "DONE"
    else if c == 4
    then bytes "DECLINED"
    else if c == 5
    then bytes "ABORT"
    else in_brackets (bytes "UNKNOWN") (b'-' ∷ decimal (suc c))

-- The names of the codes below 100.
pub name_of_canonical : ℕ → Str
name_of_canonical c =
    if c == Code.ok
    then bytes "OK"
    else if c == Code.cancelled
    then bytes "CANCELLED"
    else if c == Code.unknown
    then bytes "UNKNOWN"
    else if c == Code.invalid_argument
    then bytes "INVALID_ARGUMENT"
    else if c == Code.deadline_exceeded
    then bytes "DEADLINE_EXCEEDED"
    else if c == Code.not_found
    then bytes "NOT_FOUND"
    else if c == Code.already_exists
    then bytes "ALREADY_EXISTS"
    else if c == Code.permission_denied
    then bytes "PERMISSION_DENIED"
    else if c == Code.unauthenticated
    then bytes "UNAUTHENTICATED"
    else if c == Code.resource_exhausted
    then bytes "RESOURCE_EXHAUSTED"
    else if c == Code.failed_precondition
    then bytes "FAILED_PRECONDITION"
    else if c == Code.aborted
    then bytes "ABORTED"
    else if c == Code.out_of_range
    then bytes "OUT_OF_RANGE"
    else if c == Code.unimplemented
    then bytes "UNIMPLEMENTED"
    else if c == Code.internal
    then bytes "INTERNAL"
    else if c == Code.unavailable
    then bytes "UNAVAILABLE"
    else if c == Code.data_loss
    then bytes "DATA_LOSS"
    else in_brackets (bytes "UNKNOWN") (decimal c)

-- The word for an HTTP code that has no name of its own.
abbrev pub word_of_class : ℕ → Str
word_of_class c =
    if leb 200 c && ltb c 300
    then bytes "OK"
    else if leb 400 c && ltb c 500
    then bytes "INVALID_REQUEST"
    else if leb 500 c && ltb c 600
    then bytes "SERVER_ERROR"
    else bytes "UNKNOWN"

-- The names of the HTTP codes.
pub name_of_http : ℕ → Str
name_of_http c =
    if c == 100
    then bytes "CONTINUE"
    else if c == 200
    then bytes "OK"
    else if c == 201
    then bytes "CREATED"
    else if c == 202
    then bytes "ACCEPTED"
    else if c == 204
    then bytes "NO_CONTENT"
    else if c == 301
    then bytes "MOVED_PERMANENTLY"
    else if c == 302
    then bytes "FOUND"
    else if c == 303
    then bytes "SEE_OTHER"
    else if c == 304
    then bytes "NOT_MODIFIED"
    else if c == 305
    then bytes "USE_PROXY"
    else if c == 307
    then bytes "TEMPORARY_REDIRECT"
    else if c == 308
    then bytes "PERMANENT_REDIRECT"
    else if c == 400
    then bytes "BAD_REQUEST"
    else if c == 401
    then bytes "UNAUTHORIZED"
    else if c == 402
    then bytes "PAYMENT_REQUIRED"
    else if c == 403
    then bytes "FORBIDDEN"
    else if c == 404
    then bytes "NOT_FOUND"
    else if c == 405
    then bytes "METHOD_NOT_ALLOWED"
    else if c == 406
    then bytes "NOT_ACCEPTABLE"
    else if c == 408
    then bytes "REQUEST_TIMEOUT"
    else if c == 409
    then bytes "CONFLICT"
    else if c == 410
    then bytes "GONE"
    else if c == 411
    then bytes "LENGTH_REQUIRED"
    else if c == 412
    then bytes "PRECONDITION_FAILED"
    else if c == 413
    then bytes "PAYLOAD_TOO_LARGE"
    else if c == 414
    then bytes "REQUEST_URI_TOO_LONG"
    else if c == 415
    then bytes "UNSUPPORTED_MEDIA_TYPE"
    else if c == 416
    then bytes "RANGE_NOT_SATISFIABLE"
    else if c == 417
    then bytes "EXPECTATION_FAILED"
    else if c == 418
    then bytes "IM_A_TEAPOT"
    else if c == 419
    then bytes "AUTHENTICATION_TIMEOUT"
    else if c == 428
    then bytes "PRECONDITION_REQUIRED"
    else if c == 429
    then bytes "TOO_MANY_REQUESTS"
    else if c == 431
    then bytes "REQUEST_HEADERS_TOO_LARGE"
    else if c == 444
    then bytes "NO_RESPONSE"
    else if c == 499
    then bytes "CLIENT_CLOSED_REQUEST"
    else if c == 500
    then bytes "INTERNAL_SERVER_ERROR"
    else if c == 501
    then bytes "NOT_IMPLEMENTED"
    else if c == 502
    then bytes "BAD_GATEWAY"
    else if c == 503
    then bytes "SERVICE_UNAVAILABLE"
    else if c == 504
    then bytes "GATEWAY_TIMEOUT"
    else in_brackets (word_of_class c) (decimal c)

-- `CodeToString`.
pub code_to_string : ℤ → Str
code_to_string (negsuc k) = name_of_nginx k
code_to_string (pos c) = if ltb c 100 then name_of_canonical c else name_of_http c

-- `ToString`.
pub to_string : Status → Str
to_string s =
    if code_eq s.code (pos Code.ok)
    then bytes "OK"
    else if is_empty s.message
    then code_to_string s.code
    else code_to_string s.code ++ (bytes ": " ++ s.message)

-- `ok()`, and `Status::OK`.
unfoldable pub is_ok : Status → Bool
is_ok s = code_eq s.code (pos Code.ok) || code_eq s.code (pos 200)

abbrev pub ok_status : Status
ok_status = record { code = pos Code.ok; message = []; error_cause = internal }

-- ===== src/StatusCode.antt =====
-- The code mappings of src/api_manager/utils/status.cc. A status code is an int: negative for the
-- control codes of nginx, below 100 in the canonical space of protobuf, and else an HTTP code.
pub mod Code
pub mod Names
pub mod Laws
pub mod Examples
use esp.Base.{ℕ, Bool, ltb, leb, ◌&&◌, ◌==◌, if◌then◌else◌}
use esp.Base.Int.{ℤ, pos, negsuc}

-- `Status(code, message)`: the HTTP code 200 is stored as the canonical `OK`.
pub stored_code : ℤ → ℤ
stored_code (pos c) = if c == 200 then pos Code.ok else pos c
stored_code (negsuc k) = negsuc k

-- The code of nginx -(k + 1) as an HTTP code: `-1` is `negsuc 0`.
pub http_of_nginx : ℕ → ℕ
http_of_nginx k =
    if k == 0
    then 500
    else if k == 1
    then 100
    else if k == 2
    then 429
    else if k == 3
    then 202
    else if k == 4
    then 404
    else if k == 5
    then 400
    else 500

-- A canonical code as an HTTP code.
pub http_of_canonical : ℕ → ℕ
http_of_canonical c =
    if c == Code.ok
    then 200
    else if c == Code.cancelled
    then 499
    else if c == Code.unknown
    then 500
    else if c == Code.invalid_argument
    then 400
    else if c == Code.deadline_exceeded
    then 504
    else if c == Code.not_found
    then 404
    else if c == Code.already_exists
    then 409
    else if c == Code.permission_denied
    then 403
    else if c == Code.resource_exhausted
    then 429
    else if c == Code.failed_precondition
    then 400
    else if c == Code.aborted
    then 409
    else if c == Code.out_of_range
    then 400
    else if c == Code.unimplemented
    then 501
    else if c == Code.internal
    then 500
    else if c == Code.unavailable
    then 503
    else if c == Code.data_loss
    then 500
    else if c == Code.unauthenticated
    then 401
    else 500

-- `HttpCode`.
pub http_code : ℤ → ℕ
http_code (pos c) = if leb 100 c then c else http_of_canonical c
http_code (negsuc k) = http_of_nginx k

unfoldable pub canonical_of_nginx : ℕ → ℕ
canonical_of_nginx k =
    if k == 0
    then Code.internal
    else if k == 1
    then Code.cancelled
    else if k == 2
    then Code.permission_denied
    else if k == 3
    then Code.already_exists
    else if k == 4
    then Code.not_found
    else if k == 5
    then Code.aborted
    else Code.unknown

-- The HTTP codes that have no case of their own go by their class.
unfoldable pub canonical_of_class : ℕ → ℕ
canonical_of_class c =
    if leb 200 c && ltb c 300
    then Code.ok
    else if leb 400 c && ltb c 500
    then Code.failed_precondition
    else if leb 500 c && ltb c 600
    then Code.internal
    else Code.unknown

unfoldable pub canonical_of_http : ℕ → ℕ
canonical_of_http c =
    if c == 400
    then Code.invalid_argument
    else if c == 403
    then Code.permission_denied
    else if c == 404
    then Code.not_found
    else if c == 409
    then Code.aborted
    else if c == 416
    then Code.out_of_range
    else if c == 429
    then Code.resource_exhausted
    else if c == 499
    then Code.cancelled
    else if c == 504
    then Code.deadline_exceeded
    else if c == 501
    then Code.unimplemented
    else if c == 503
    then Code.unavailable
    else if c == 401
    then Code.unauthenticated
    else canonical_of_class c

-- `CanonicalCode`.
unfoldable pub canonical_code : ℤ → ℕ
canonical_code (pos c) = if ltb c 100 then c else canonical_of_http c
canonical_code (negsuc k) = canonical_of_nginx k

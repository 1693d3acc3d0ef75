-- ===== src/StatusCode/Examples.antt =====
-- Concrete cases of the theorems on the code mappings of src/api_manager/utils/status.cc.
use esp.Base.{◌≤◌, ◌<◌, ◌≡◌, ◌↔◌, arith}
use esp.Base.Int.{pos}
use esp.StatusCode.Code
use esp.StatusCode.{stored_code, http_code, canonical_code}
use esp.StatusCode.Laws.{
  back_from_http, canonical_code-http_code, codes_idempotent, success_iff, stored_code-views,
}

canonical_code-http_code_example :
    canonical_code (pos (http_code (pos Code.failed_precondition)))
    ≡ back_from_http Code.failed_precondition
canonical_code-http_code_example = canonical_code-http_code Code.failed_precondition (omega arith)

codes_idempotent_test :
    (canonical_code (pos 404) < 100)
    × (canonical_code (pos (canonical_code (pos 404))) ≡ canonical_code (pos 404))
    × (100 ≤ http_code (pos 404))
    × (http_code (pos (http_code (pos 404))) ≡ http_code (pos 404))
codes_idempotent_test = codes_idempotent (pos 404)

success_iff_example :
    (canonical_code (pos 204) ≡ Code.ok)
    ↔ ((200 ≤ http_code (pos 204)) × (http_code (pos 204) < 300))
success_iff_example = success_iff (pos 204) (λ e. cc)

stored_code_views_test :
    (http_code (stored_code (pos 200)) ≡ http_code (pos 200))
    × (canonical_code (stored_code (pos 200)) ≡ canonical_code (pos 200))
stored_code_views_test = stored_code-views (pos 200)

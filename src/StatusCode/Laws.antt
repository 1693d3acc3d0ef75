-- ===== src/StatusCode/Laws.antt =====
-- The two mappings of status codes against each other.
use esp.Base.{
  ℕ, ◌≤◌, ◌<◌, ◌≡◌, ◌≢◌, ◌⊎◌, ◌↔◌, refl, sym, ap, subst, ==_iff, inl, inr, Bool-cases, false, ◌||◌,
  ltb, leb, ◌==◌, if◌then◌else◌, arith,
}
use esp.Base.Int.{ℤ, pos, negsuc}
use esp.StatusCode.Code
use esp.StatusCode.{
  stored_code, http_of_nginx, http_of_canonical, http_code, canonical_of_nginx, canonical_of_class,
  canonical_of_http, canonical_code,
}

http_of_nginx_ge : (k : ℕ) → 100 ≤ http_of_nginx k
unfolding http_of_nginx
http_of_nginx_ge k = ground arith

http_of_canonical_ge : (c : ℕ) → 200 ≤ http_of_canonical c
unfolding http_of_canonical
http_of_canonical_ge c = ground arith

-- Every status has an HTTP code in the space of HTTP codes.
pub http_code_ge : (code : ℤ) → 100 ≤ http_code code
unfolding http_code
http_code_ge (pos c) = ground (arith, http_of_canonical_ge c)
http_code_ge (negsuc k) = http_of_nginx_ge k

canonical_of_http_lt : (c : ℕ) → canonical_of_http c < 17
unfolding canonical_of_http canonical_of_class
canonical_of_http_lt c = ground arith

canonical_of_http-ok : (c : ℕ) → (canonical_of_http c ≡ Code.ok) ↔ ((200 ≤ c) × (c < 300))
unfolding canonical_of_http canonical_of_class
canonical_of_http-ok c = ground arith

-- The canonical code that an HTTP code made from a canonical code stands for: that code, but for
-- the codes that share an HTTP code with another one.
pub back_from_http : ℕ → ℕ
back_from_http c =
    if c == Code.unknown || c == Code.data_loss
    then Code.internal
    else if c == Code.already_exists
    then Code.aborted
    else if c == Code.failed_precondition || c == Code.out_of_range
    then Code.invalid_argument
    else c

canonical-http_of_canonical :
    (c : ℕ) → c < 17 → canonical_of_http (http_of_canonical c) ≡ back_from_http c
unfolding canonical_of_http canonical_of_class http_of_canonical back_from_http
canonical-http_of_canonical c h = ground arith

-- A canonical code, of the 17 there are, that goes out as an HTTP code and is read back is
-- itself, but for the codes that share an HTTP code with another one, which `back_from_http`
-- lists.
pub canonical_code-http_code :
    (c : ℕ) → c < 17 → canonical_code (pos (http_code (pos c))) ≡ back_from_http c
unfolding canonical_code http_code
canonical_code-http_code c h =
    let space : leb 100 c ≡ false = ground arith in
    let sent : ltb (http_of_canonical c) 100 ≡ false = ground (arith, http_of_canonical_ge c) in
    rw space (rw sent (canonical-http_of_canonical c h))

canonical_of_nginx_bounds : (k : ℕ) → (0 < canonical_of_nginx k) × (canonical_of_nginx k < 17)
unfolding canonical_of_nginx
canonical_of_nginx_bounds k = (ground arith, ground arith)

canonical_code_lt : (code : ℤ) → canonical_code code < 100
unfolding canonical_code
canonical_code_lt (pos c) = ground (arith, canonical_of_http_lt c)
canonical_code_lt (negsuc k) = omega (arith, canonical_of_nginx_bounds k)

-- Both mappings are idempotent and end in their own space: a canonical code is below 100 and stands
-- for itself, and so does an HTTP code, which is 100 or more.
pub codes_idempotent :
    (code : ℤ)
    → (canonical_code code < 100)
      × (canonical_code (pos (canonical_code code)) ≡ canonical_code code)
      × (100 ≤ http_code code)
      × (http_code (pos (http_code code)) ≡ http_code code)
codes_idempotent code = (
  canonical_code_lt code,
  below (canonical_code code) (canonical_code_lt code),
  http_code_ge code,
  above (http_code code) (http_code_ge code),
)
  where
    below : (c : ℕ) → c < 100 → canonical_code (pos c) ≡ c
    below c h = unfold canonical_code in ground arith

    above : (c : ℕ) → 100 ≤ c → http_code (pos c) ≡ c
    above c h = unfold http_code in ground arith

http_of_canonical_success : (c : ℕ) → (http_of_canonical c < 300) ↔ (c ≡ Code.ok)
unfolding http_of_canonical
http_of_canonical_success c = ground arith

nginx_success : (k : ℕ) → k ≢ 3 → (http_of_nginx k < 200) ⊎ (300 ≤ http_of_nginx k)
unfolding http_of_nginx
nginx_success k h = ground arith

-- The two views of a status agree on success: for every code but -4, `DONE` of nginx, the HTTP code
-- is 2xx exactly where the canonical code is `OK`.
pub success_iff :
    (code : ℤ)
    → code ≢ negsuc 3
    → (canonical_code code ≡ Code.ok) ↔ ((200 ≤ http_code code) × (http_code code < 300))
unfolding canonical_code http_code
success_iff (pos c) h =
    ground (arith, canonical_of_http-ok c, http_of_canonical_success c, http_of_canonical_ge c)
success_iff (negsuc k) h =
    let other : k ≢ 3 = λ e. h (ap negsuc e) in
    ground (arith, canonical_of_nginx_bounds k, nginx_success k other)

-- At -4 they do not: the HTTP code says accepted, the canonical code that something exists already.
done_disagrees : (http_code (negsuc 3) ≡ 202) × (canonical_code (negsuc 3) ≡ Code.already_exists)
unfolding http_code http_of_nginx canonical_code canonical_of_nginx
done_disagrees = (refl, refl)

abbrev SameViews : ℕ → Type 0
SameViews c =
    (http_code (stored_code (pos c)) ≡ http_code (pos c))
    × (canonical_code (stored_code (pos c)) ≡ canonical_code (pos c))

same_at_200 : SameViews 200
unfolding stored_code http_code http_of_canonical canonical_code canonical_of_http
    canonical_of_class
same_at_200 = (refl, refl)

-- The constructor stores the code 200 as `OK`; that leaves both views of every code as they are.
pub stored_code-views :
    (code : ℤ)
    → (http_code (stored_code code) ≡ http_code code)
      × (canonical_code (stored_code code) ≡ canonical_code code)
stored_code-views (negsuc k) = unfold stored_code in (refl, refl)
stored_code-views (pos c) = elim (Bool-cases (c == 200)) [
  | inl same ↦ subst SameViews (sym ((==_iff c 200).0 same)) same_at_200
  | inr other ↦ unfold stored_code in rw other (refl, refl)
]

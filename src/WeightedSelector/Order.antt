-- ===== src/WeightedSelector/Order.antt =====
-- The order of the scores of src/api_manager/weighted_selector.cc as floats, for small counts and weights.
use native.Mathlib.Nat.{mul-le-mul_left, mul-le-mul_right}
use esp.Base.{
  ℕ, ◌*◌, ◌≤◌, ◌<◌, ◌≡◌, inl, inr, refl, sym, ◌∙◌, Bool, true, false, leb, not_false, Bool-cases,
  arith,
}
use esp.Base.Int.{ℤ, pos, negsuc}
use esp.WeightedSelector.Float.{
  least_significand, exact_integers, score_less, has_exact_float, float_less, score_less-true,
  score_less-false,
}
use esp.WeightedSelector.Least.{IsScore, IsSound}

-- Up to a positive limit the count and the weight have exact floats, and the product of the count with
-- another weight is small.
has_floats :
    (limit c w v : ℕ)
    → 0 < limit
    → IsScore limit limit (c, pos w)
    → (0 < v) × (v * limit ≤ least_significand)
    → (w ≤ exact_integers) × (c ≤ exact_integers) × (c * v ≤ least_significand)
has_floats limit c w v some_limit ((pw, sw), below) (pv, sv) =
    let first : w * 1 ≤ w * limit = mul-le-mul_left w some_limit in
    let second : limit * 1 ≤ limit * w = mul-le-mul_left limit pw in
    let third : c * v ≤ limit * v = mul-le-mul_right v below in
    (omega arith, omega arith, omega arith)

exact_floats :
    (c w : ℕ) → 0 < w → w ≤ exact_integers → c ≤ exact_integers → has_exact_float (c, pos w) ≡ true
exact_floats c w h k l = ground arith

float_less_small :
    (other : ℕ × ℤ → ℕ × ℤ → Bool) (c w d v : ℕ)
    → has_exact_float (c, pos w) ≡ true
    → has_exact_float (d, pos v) ≡ true
    → float_less other (c, pos w) (d, pos v) ≡ score_less c w d v
unfolding float_less
float_less_small other c w d v e f = rw (e, f) refl

not_greater :
    (c w d v : ℕ)
    → (0 < w) × (w ≤ exact_integers)
    → (0 < v) × (v ≤ exact_integers)
    → c * v ≤ least_significand
    → score_less c w d v ≡ true
    → c * v ≤ d * w
not_greater c w d v h k small e = elim (Bool-cases (leb (c * v) (d * w))) [
  | inl le ↦ ground (arith, le)
  | inr gt ↦
      let more : d * w < c * v = ground (arith, gt) in
      absurd (not_false (sym e ∙ score_less-false c w d v h k small more))
]

not_less :
    (c w d v : ℕ)
    → (0 < w) × (w ≤ exact_integers)
    → (0 < v) × (v ≤ exact_integers)
    → d * w ≤ least_significand
    → score_less c w d v ≡ false
    → d * w ≤ c * v
not_less c w d v h k small e = elim (Bool-cases (leb (d * w) (c * v))) [
  | inl le ↦ ground (arith, le)
  | inr gt ↦
      let more : c * v < d * w = ground (arith, gt) in
      absurd (not_false (sym (score_less-true c w d v h k small more) ∙ e))
]

-- Up to a positive limit the comparison of floats never takes a greater quotient for a smaller one.
pub float_less-IsSound :
    (other : ℕ × ℤ → ℕ × ℤ → Bool) (limit : ℕ) → 0 < limit → IsSound limit (float_less other)
float_less-IsSound other limit p (c, pos w) (d, pos v) h k =
    let (sw, sc, cv) = has_floats limit c w v p h k.0 in
    let (sv, sd, dw) = has_floats limit d v w p k h.0 in
    rw
      (float_less_small other c w d v (exact_floats c w h.0.0 sw sc) (exact_floats d v k.0.0 sv sd))
      (not_greater c w d v (h.0.0, sw) (k.0.0, sv) cv, not_less c w d v (h.0.0, sw) (k.0.0, sv) dw)
float_less-IsSound other limit p (c, negsuc w) t h k = absurd (omega (arith, h.0.0))
float_less-IsSound other limit p (c, pos w) (d, negsuc v) h k = absurd (omega (arith, k.0.0))

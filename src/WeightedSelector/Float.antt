-- ===== src/WeightedSelector/Float.antt =====
-- The score of `Select` of src/api_manager/weighted_selector.cc as a binary32 float: the quotient of a
-- count and a weight, rounded to 24 bits, half to even, and kept as a significand over a power of two.
use native.Mathlib.Nat.{div-add-mod, mod-lt, mul-le-mul_right, lt_of_mul-lt-mul_right}
use esp.Base.{
  ℕ, zero, suc, ◌+◌, ◌*◌, ◌/◌, ◌%◌, ◌≤◌, ◌<◌, ◌≡◌, inl, inr, refl, Bool, true, false, ltb, leb,
  ◌==◌, ◌||◌, ◌&&◌, if◌then◌else◌, Bool-cases, arith,
}
use esp.Base.Int.{ℤ, pos_part}

-- 2 ^ 23, the least significand, and 2 ^ 24, up to which a whole number has an exact float.
abbrev pub least_significand : ℕ
least_significand = 8388608

abbrev pub exact_integers : ℕ
exact_integers = 16777216

-- The power of two that brings the quotient of `c` and `w` to 24 bits, of which it may lack 47.
unfoldable pub scale : ℕ → ℕ → ℕ → ℕ
scale zero c w = 1
scale (suc fuel) c w =
    let rest = scale fuel (2 * c) w in if leb (least_significand * w) c then 1 else 2 * rest

abbrev pub missing_bits : ℕ
missing_bits = 47

-- The quotient of two numbers, rounded to a whole number, half to even.
unfoldable pub rounded : ℕ → ℕ → ℕ
rounded n w =
    let q = n / w in
    let r = n % w in if ltb (2 * r) w || ((2 * r == w) && (q % 2 == 0)) then q else q + 1

-- The significand of a score.
abbrev pub significand : ℕ → ℕ → ℕ
significand c w = rounded (c * scale missing_bits c w) w

-- `s < min_score`, for counts and positive weights that have an exact float.
abbrev pub score_less : ℕ → ℕ → ℕ → ℕ → Bool
score_less c w d v =
    ltb (significand c w * scale missing_bits d v) (significand d v * scale missing_bits c w)

abbrev pub has_exact_float : ℕ × ℤ → Bool
has_exact_float (c, w) =
    leb 1 (pos_part w) && (leb (pos_part w) exact_integers && leb c exact_integers)

-- `s < min_score` of the scores of two entries; any comparison stands for that of the others.
unfoldable pub float_less : (ℕ × ℤ → ℕ × ℤ → Bool) → ℕ × ℤ → ℕ × ℤ → Bool
float_less other (c, w) (d, v) =
    if has_exact_float (c, w) && has_exact_float (d, v)
    then score_less c (pos_part w) d (pos_part v)
    else other (c, w) (d, v)

twice_sides :
    (n w q r : ℕ) (b : Bool)
    → w * q + r ≡ n
    → r < w
    → ltb (2 * r) w || ((2 * r == w) && b) ≡ true
    → (2 * (q * w) ≤ 2 * n + w) × (2 * n ≤ 2 * (q * w) + w)
twice_sides n w q r b whole below e =
    let half : 2 * r ≤ w = ground arith in (omega arith, omega arith)

twice_sides_up :
    (n w q r : ℕ) (b : Bool)
    → w * q + r ≡ n
    → r < w
    → ltb (2 * r) w || ((2 * r == w) && b) ≡ false
    → (2 * ((q + 1) * w) ≤ 2 * n + w) × (2 * n ≤ 2 * ((q + 1) * w) + w)
twice_sides_up n w q r b whole below e =
    let half : w ≤ 2 * r = ground arith in (omega arith, omega arith)

-- Twice the error of the rounding is at most the divisor.
rounded_near :
    (n w : ℕ) → 0 < w → (2 * (rounded n w * w) ≤ 2 * n + w) × (2 * n ≤ 2 * (rounded n w * w) + w)
unfolding rounded
rounded_near n w h =
    let q = n / w in
    let r = n % w in
    let even = q % 2 == 0 in
    elim (Bool-cases (ltb (2 * r) w || ((2 * r == w) && even))) [
      | inl e ↦ rw e (twice_sides n w q r even (div-add-mod n w) (mod-lt n h) e)
      | inr e ↦ rw e (twice_sides_up n w q r even (div-add-mod n w) (mod-lt n h) e)
    ]

scale-positive : (fuel c w : ℕ) → 0 < scale fuel c w
unfolding scale
scale-positive zero c w = omega arith
scale-positive (suc fuel) c w = elim (Bool-cases (leb (least_significand * w) c)) [
  | inl e ↦ rw e (omega arith)
  | inr e ↦ rw e (omega (arith, scale-positive fuel (2 * c) w))
]

abbrev power : ℕ → ℕ
power zero = 1
power (suc k) = 2 * power k

-- Enough fuel brings a quotient to 24 bits.
scale_reaches :
    (fuel c w : ℕ)
    → least_significand * w ≤ c * power fuel
    → least_significand * w ≤ c * scale fuel c w
unfolding scale
scale_reaches zero c w h = h
scale_reaches (suc fuel) c w h = elim (Bool-cases (leb (least_significand * w) c)) [
  | inl e ↦ rw e (let k : least_significand * w ≤ c = ground arith in omega arith)
  | inr e ↦ rw e (omega (arith, scale_reaches fuel (2 * c) w (omega arith)))
]

-- A score is as near to the quotient as 24 bits allow.
IsNear : ℕ → ℕ → ℕ → ℕ → Type 0
IsNear m c k w =
    (16777216 * (m * w) ≤ 16777217 * (c * k)) × (16777215 * (c * k) ≤ 16777216 * (m * w))

small_zero : (m w : ℕ) → 0 < w → 2 * (m * w) ≤ w → m * w ≡ 0
small_zero zero w h k = omega arith
small_zero (suc m) w h k = absurd (omega arith)

significand-IsNear :
    (c w : ℕ) → 0 < w → w ≤ exact_integers → IsNear (significand c w) c (scale missing_bits c w) w
unfolding IsNear
significand-IsNear zero w h small =
    let k = scale missing_bits 0 w in
    let (up, down) = rounded_near (0 * k) w h in
    let none_left = small_zero (rounded (0 * k) w) w h (omega arith) in (omega arith, omega arith)
significand-IsNear (suc c) w h small =
    let k = scale missing_bits (suc c) w in
    let (up, down) = rounded_near (suc c * k) w h in
    let enough : power missing_bits ≡ 140737488355328 = refl in
    let reach = scale_reaches missing_bits (suc c) w (omega arith) in (omega arith, omega arith)

-- Scores of quotients that differ compare as the quotients, for products up to 2 ^ 23.
score_lt :
    (m p c k w d l v : ℕ)
    → 0 < k
    → 0 < l
    → IsNear m c k w
    → IsNear p d l v
    → c * v < d * w
    → d * w ≤ least_significand
    → m * l < p * k
unfolding IsNear
score_lt m p c k w d l v pk pl (up, _) (_, down) less small =
    let apart : 16777217 * (c * v) + 1 ≤ 16777215 * (d * w) = omega arith in
    let some_scale : 1 * l ≤ k * l = mul-le-mul_right {m = 1} l (omega arith) in
    lt_of_mul-lt-mul_right (w * v) (
      omega (
        arith,
        some_scale,
        mul-le-mul_right (k * l) apart,
        mul-le-mul_right (v * l) up,
        mul-le-mul_right (w * k) down,
      ))

pub score_less-true :
    (c w d v : ℕ)
    → (0 < w) × (w ≤ exact_integers)
    → (0 < v) × (v ≤ exact_integers)
    → d * w ≤ least_significand
    → c * v < d * w
    → score_less c w d v ≡ true
score_less-true c w d v (pw, sw) (pv, sv) small less =
    let below =
      score_lt (significand c w) (significand d v) c (scale missing_bits c w) w d
        (scale missing_bits d v) v (scale-positive missing_bits c w)
        (scale-positive missing_bits d v) (significand-IsNear c w pw sw)
        (significand-IsNear d v pv sv) less small in
    ground (arith, below)

pub score_less-false :
    (c w d v : ℕ)
    → (0 < w) × (w ≤ exact_integers)
    → (0 < v) × (v ≤ exact_integers)
    → c * v ≤ least_significand
    → d * w < c * v
    → score_less c w d v ≡ false
score_less-false c w d v (pw, sw) (pv, sv) small less =
    let below =
      score_lt (significand d v) (significand c w) d (scale missing_bits d v) v c
        (scale missing_bits c w) w (scale-positive missing_bits d v)
        (scale-positive missing_bits c w) (significand-IsNear d v pv sv)
        (significand-IsNear c w pw sw) less small in
    ground (arith, below)

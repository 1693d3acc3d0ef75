-- ===== src/WeightedSelector/Least.antt =====
-- Lemmas on the loop of `Select`: it finds a least score.
use native.Mathlib.Nat.{mul-le-mul_right, le_of_mul-le-mul_right}
use esp.Base.{
  ℕ, suc, ◌+◌, ◌*◌, ◌≤◌, ◌<◌, ◌≡◌, ◌⊎◌, inl, inr, refl, sym, ap, ◌∙◌, Bool, true, false, some, List,
  [], ◌∷◌, get_elem?, All, Bool-cases, arith,
}
use esp.Base.Int.{ℤ, pos_part}
use esp.WeightedSelector.Float.{least_significand}
use esp.WeightedSelector.{min_index, min_of}

abbrev pub weight : ℕ × ℤ → ℕ
weight s = pos_part s.1

-- A score of a count up to a number and of a positive weight, whose product with a limit has an exact
-- float with a bit to spare.
abbrev pub IsScore : ℕ → ℕ → ℕ × ℤ → Type 0
IsScore limit n s = ((0 < weight s) × (weight s * limit ≤ least_significand)) × (s.0 ≤ n)

abbrev pub AtMost : ℕ × ℤ → ℕ × ℤ → Type 0
AtMost s t = s.0 * weight t ≤ t.0 * weight s

-- The comparison never takes a greater quotient for a smaller one, for counts up to a limit.
abbrev pub IsSound : ℕ → (ℕ × ℤ → ℕ × ℤ → Bool) → Type 0
IsSound limit is_less =
    (s t : ℕ × ℤ)
    → IsScore limit limit s
    → IsScore limit limit t
    → (is_less s t ≡ true → AtMost s t) × (is_less s t ≡ false → AtMost t s)

AtMost-trans : (s t u : ℕ × ℤ) → 0 < weight t → AtMost s t → AtMost t u → AtMost s u
AtMost-trans s t u h p q =
    le_of_mul-le-mul_right {k = weight t}
      (omega (arith, mul-le-mul_right (weight u) p, mul-le-mul_right (weight s) q)) h

pub add_one : (j : ℕ) → j + 1 ≡ suc j
add_one j = omega arith

-- What the loop finds.
pub record IsLeast (r i min_idx : ℕ) (min_score : ℕ × ℤ) (rest : List (ℕ × ℤ)) : Type 0 where
  pub score : ℕ × ℤ
  below_first : AtMost score min_score
  below : All (AtMost score) rest
  place :
      ((r ≡ min_idx) × (score ≡ min_score))
      ⊎ ((j : ℕ) × (r ≡ j + i) × (get_elem? rest j ≡ some score))

module _ (is_less : ℕ × ℤ → ℕ × ℤ → Bool) (limit : ℕ) (sound : IsSound limit is_less) where
  min_index-IsLeast :
      (i min_idx : ℕ) (min_score : ℕ × ℤ) (rest : List (ℕ × ℤ))
      → IsScore limit limit min_score
      → All (IsScore limit limit) rest
      → IsLeast (min_index is_less i min_idx min_score rest) i min_idx min_score rest
  unfolding min_index
  min_index-IsLeast i min_idx min_score [] h k = record {
    score = min_score;
    below_first = omega arith;
    below = tt;
    place = inl (refl, refl);
  }
  min_index-IsLeast i min_idx min_score (s ∷ rest) h (p, k) =
      elim (Bool-cases (is_less s min_score)) [
        | inl e ↦
            let r = min_index-IsLeast (suc i) i s rest p k in
            rw e (record {
              score = r.score;
              below_first =
                  AtMost-trans r.score s min_score p.0.0 r.below_first
                    ((sound s min_score p h).0 e);
              below = (r.below_first, r.below);
              place = elim r.place [
                | inl (q, same) ↦ inr (0, omega arith, ap some (sym same))
                | inr (j, q, at) ↦ inr (suc j, omega arith, at)
              ];
            })
        | inr e ↦
            let r = min_index-IsLeast (suc i) min_idx min_score rest h k in
            rw e (record {
              score = r.score;
              below_first = r.below_first;
              below = (
                AtMost-trans r.score min_score s h.0.0 r.below_first ((sound s min_score p h).1 e),
                r.below,
              );
              place = elim r.place [
                | inl q ↦ inl q
                | inr (j, q, at) ↦ inr (suc j, omega arith, at)
              ];
            })
      ]

  -- The index that the loop gives, over all scores.
  pub min_of_least :
      (s : ℕ × ℤ) (rest : List (ℕ × ℤ))
      → All (IsScore limit limit) (s ∷ rest)
      → (t : ℕ × ℤ) × (get_elem? (s ∷ rest) (min_of is_less (s ∷ rest)) ≡ some t)
        × All (AtMost t) (s ∷ rest)
  min_of_least s rest (h, k) =
      let r = min_index-IsLeast 1 0 s rest h k in
      (
        r.score,
        elim r.place [
          | inl (q, same) ↦ rw q (ap some (sym same))
          | inr (j, q, at) ↦ rw (q ∙ add_one j) at
        ],
        (r.below_first, r.below),
      )

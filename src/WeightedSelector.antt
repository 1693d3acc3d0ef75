-- ===== src/WeightedSelector.antt =====
-- `WeightedSelector` of src/api_manager/weighted_selector.cc. The comparison of two scores, each the
-- quotient of a count and a weight as numbers of the type float, is a parameter, for which Float has
-- the comparison of binary32 floats.
pub mod Float
pub mod Least
pub mod Order
pub mod Range
pub mod Fairness
mod Examples
use esp.Base.{
  ℕ, zero, suc, ◌+◌, Bool, true, false, List, [], ◌∷◌, map, Str, get_or, set, if◌then◌else◌,
}
use esp.Base.Int.{ℤ, pos}

pub record WeightedSelector : Type 0 where
  pub list : List (Str × ℤ)
  pub counts : List ℕ

-- The constructor.
abbrev pub new_selector : List (Str × ℤ) → WeightedSelector
new_selector list = record { list = list; counts = map (λ item. 0) list }

-- The count and the weight of each entry, which make its score.
abbrev pub scores : List (Str × ℤ) → List ℕ → List (ℕ × ℤ)
scores [] counts = []
scores ((name, weight) ∷ list) [] = []
scores ((name, weight) ∷ list) (c ∷ counts) = (c, weight) ∷ scores list counts

module _ (is_less : ℕ × ℤ → ℕ × ℤ → Bool) where
  -- The loop from index `i` on, at the least score so far and its index.
  unfoldable pub min_index : ℕ → ℕ → ℕ × ℤ → List (ℕ × ℤ) → ℕ
  min_index i min_idx min_score [] = min_idx
  min_index i min_idx min_score (s ∷ rest) =
      if is_less s min_score
      then min_index (suc i) i s rest
      else min_index (suc i) min_idx min_score rest

  abbrev pub min_of : List (ℕ × ℤ) → ℕ
  min_of [] = 0
  min_of (s ∷ rest) = min_index 1 0 s rest

  abbrev pub name_at : List (Str × ℤ) → ℕ → Str
  name_at list i = (get_or list i ([], pos 0)).0

  abbrev pub select_from : WeightedSelector → List (Str × ℤ) → Str × WeightedSelector
  select_from s [] = ([], s)
  select_from s ((name, weight) ∷ []) = (name, s)
  select_from s (first ∷ second ∷ list) =
      let i = min_of (scores s.list s.counts) in
      (name_at s.list i, record s { counts = set s.counts i (get_or s.counts i 0 + 1) })

  -- `Select`.
  unfoldable pub select : WeightedSelector → Str × WeightedSelector
  select s = select_from s s.list

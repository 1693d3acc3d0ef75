-- ===== src/WeightedSelector/Fairness.antt =====
-- How often each entry is selected, compared with its weight.
use esp.Base.{ℕ, zero, suc, ◌+◌, ◌*◌, ◌≤◌, ◌<◌, Bool, List, Str, All}
use esp.Base.Int.{ℤ, pos_part}
use esp.WeightedSelector.{WeightedSelector, scores, select}
use esp.WeightedSelector.Float.{least_significand}
use esp.WeightedSelector.Least.{weight, IsScore}

-- A count is at most one selection ahead of another in proportion to their weights.
abbrev Near : ℕ × ℤ → ℕ × ℤ → Type 0
Near s t = s.0 * weight t ≤ t.0 * weight s + weight t

-- The scores over all pairs.
abbrev pub AreNear : List (ℕ × ℤ) → Type 0
AreNear l = All (λ s. All (Near s) l) l

-- What holds after a number of selections.
record IsFair (limit n : ℕ) (s : WeightedSelector) : Type 0 where
  bounded : All (IsScore limit n) (scores s.list s.counts)
  near : AreNear (scores s.list s.counts)

-- A positive weight whose product with a limit is small.
abbrev pub IsWeight : ℕ → Str × ℤ → Type 0
IsWeight limit item = (0 < pos_part item.1) × (pos_part item.1 * limit ≤ least_significand)

-- The counts of a selector, each with its weight.
abbrev pub scores_of : WeightedSelector → List (ℕ × ℤ)
scores_of s = scores s.list s.counts

-- A selector after a number of calls of `Select`.
abbrev pub select_times : (ℕ × ℤ → ℕ × ℤ → Bool) → ℕ → WeightedSelector → WeightedSelector
select_times is_less zero s = s
select_times is_less (suc n) s = (select is_less (select_times is_less n s)).1

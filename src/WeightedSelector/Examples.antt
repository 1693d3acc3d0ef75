-- ===== src/WeightedSelector/Examples.antt =====
-- Runs of a selector of two configs, whose scores are floats.
use esp.Base.{ℕ, ◌≡◌, refl, Bool, false, List, [], ◌∷◌, Str, bytes}
use esp.Base.Int.{ℤ, pos}
use esp.WeightedSelector.{new_selector, min_index, select}
use esp.WeightedSelector.Float.{scale, rounded, significand, score_less, float_less}
use esp.WeightedSelector.Fairness.{select_times}

-- No score of the runs is out of range.
abbrev never : ℕ × ℤ → ℕ × ℤ → Bool
never s t = false

abbrev two_configs : List (Str × ℤ)
two_configs = (bytes "a", pos 80) ∷ (bytes "b", pos 20) ∷ []

-- The float 0.1 is 13421773 / 2 ^ 27.
tenth : significand 1 10 ≡ 13421773
unfolding scale rounded
tenth = refl

-- Two quotients that differ by less than the floats do.
rounded_together : score_less 1 16777213 1 16777212 ≡ false
unfolding scale rounded
rounded_together = refl

five_selections : (select_times (float_less never) 5 (new_selector two_configs)).counts ≡ 4 ∷ 1 ∷ []
unfolding select min_index float_less scale rounded
five_selections = refl

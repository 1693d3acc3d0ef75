-- ===== src/WeightedSelector/Range.antt =====
-- Lemmas on `Select`, for any comparison of scores: it gives the name of an entry, and keeps the list.
use esp.Base.{
  ℕ, zero, suc, ◌+◌, ◌≤◌, ◌<◌, ◌≡◌, ◌⊎◌, inl, inr, refl, Bool, false, List, [], ◌∷◌, Str, length,
  is_empty, All, Bool-cases, arith,
}
use esp.Base.Int.{ℤ}
use esp.WeightedSelector.{WeightedSelector, scores, min_index, min_of, name_at, select_from, select}

module _ (is_less : ℕ × ℤ → ℕ × ℤ → Bool) where
  min_index_range :
      (i min_idx : ℕ) (min_score : ℕ × ℤ) (rest : List (ℕ × ℤ))
      → (min_index is_less i min_idx min_score rest ≡ min_idx)
        ⊎ (min_index is_less i min_idx min_score rest < i + length rest)
  unfolding min_index
  min_index_range i min_idx min_score [] = inl refl
  min_index_range i min_idx min_score (s ∷ rest) = elim (Bool-cases (is_less s min_score)) [
    | inl e ↦ rw e (elim (min_index_range (suc i) i s rest) [
      | inl q ↦ inr (omega arith)
      | inr p ↦ inr (omega arith)
    ])
    | inr e ↦ rw e (elim (min_index_range (suc i) min_idx min_score rest) [
      | inl q ↦ inl q
      | inr p ↦ inr (omega arith)
    ])
  ]

  length-scores :
      (list : List (Str × ℤ)) (counts : List ℕ) → length (scores list counts) ≤ length list
  length-scores [] counts = omega arith
  length-scores ((name, w) ∷ list) [] = omega arith
  length-scores ((name, w) ∷ list) (c ∷ counts) = omega (arith, length-scores list counts)

  min_of_range : (l : List (ℕ × ℤ)) (n : ℕ) → length l ≤ n → 0 < n → min_of is_less l < n
  min_of_range [] n h k = k
  min_of_range (s ∷ rest) n h k = elim (min_index_range 1 0 s rest) [
    | inl e ↦ rw e k
    | inr p ↦ omega arith
  ]

  All-name_at :
      (Q : Str → Type 0) (list : List (Str × ℤ)) (i : ℕ)
      → i < length list
      → All (λ item. Q item.0) list
      → Q (name_at is_less list i)
  All-name_at Q [] i h k = absurd (omega arith)
  All-name_at Q (item ∷ list) zero h (p, k) = p
  All-name_at Q (item ∷ list) (suc i) h (p, k) = All-name_at Q list i (omega arith) k

  -- The selected name has what all entries of the list have.
  pub All-select :
      (Q : Str → Type 0) (s : WeightedSelector)
      → is_empty s.list ≡ false
      → All (λ item. Q item.0) s.list
      → Q (select is_less s).0
  unfolding select
  All-select Q s h k = go s.list h k refl
    where
      go :
          (l : List (Str × ℤ))
          → is_empty l ≡ false
          → All (λ item. Q item.0) l
          → s.list ≡ l
          → Q (select_from is_less s l).0
      go [] h k e = absurd cc
      go ((name, w) ∷ []) h (p, k) e = p
      go (first ∷ second ∷ l) h k e =
          All-name_at Q s.list (min_of is_less (scores s.list s.counts))
            (min_of_range (scores s.list s.counts) (length s.list) (length-scores s.list s.counts)
              (rw e (omega arith)))
            (rw e k)

  pub select-list : (s : WeightedSelector) → (select is_less s).1.list ≡ s.list
  unfolding select
  select-list s = go s.list
    where
      go : (l : List (Str × ℤ)) → (select_from is_less s l).1.list ≡ s.list
      go [] = refl
      go ((name, w) ∷ []) = refl
      go (first ∷ second ∷ l) = refl

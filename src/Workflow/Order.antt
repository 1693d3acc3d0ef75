-- ===== src/Workflow/Order.antt =====
-- The order in which the workflow runs its handlers.
use esp.Base.{
  ◌≡◌, ◌⊎◌, inl, inr, refl, true, false, List, [], ◌∷◌, ◌++◌, map, if◌then◌else◌, Bool-cases,
}
use esp.StatusCode.Names.{Status, is_ok, ok_status}
use esp.Workflow.{Handler, run, run_one_handler}

-- A handler that answers with a status and a context.
abbrev pub Check : Type 0 → Type 0
Check S = S → Status × S

-- The answer of the first check that fails, or of the last.
unfoldable pub first_failure : {S : Type 0} → List (Check S) → S → Status × S
first_failure [] s = (ok_status, s)
first_failure (f ∷ []) s = f s
first_failure (f ∷ g ∷ fs) s =
    let rest = first_failure (g ∷ fs) (f s).1 in if is_ok (f s).0 then rest else f s

module _ {S R : Type 0} where
  -- The continuation is called with the answer, and this once.
  abbrev pub calls : Check S → Handler S R
  calls f s continuation = continuation (f s).0 (f s).1

  -- The workflow completes once, with the status and the context of the first check that fails, or
  -- else of the last check; no later check is run.
  pub run-first_failure :
      (complete : Status → S → R) (fs : List (Check S)) (s : S)
      → run complete (map calls fs) s ≡ complete (first_failure fs s).0 (first_failure fs s).1
  unfolding run run_one_handler first_failure
  run-first_failure complete [] s = refl
  run-first_failure complete (f ∷ fs) s = one f fs s
    where
      one :
          (f : Check S) (fs : List (Check S)) (s : S)
          → run_one_handler complete (calls f) (map calls fs) s
            ≡ complete (first_failure (f ∷ fs) s).0 (first_failure (f ∷ fs) s).1
      one f [] s = refl
      one f (g ∷ fs) s = elim (Bool-cases (is_ok (f s).0)) [
        | inl fine ↦ rw fine (one g fs (f s).1)
        | inr bad ↦ rw bad refl
      ]

  -- Where every check is OK, a workflow goes on with the handlers that follow them.
  pub run-past :
      (complete : Status → S → R) (fs : List (Check S)) (h : Handler S R) (hs : List (Handler S R))
      (s : S)
      → (is_ok (first_failure fs s).0 ≡ true)
          × (run complete (map calls fs ++ (h ∷ hs)) s
              ≡ run_one_handler complete h hs (first_failure fs s).1)
        ⊎ (is_ok (first_failure fs s).0 ≡ false)
          × (run complete (map calls fs ++ (h ∷ hs)) s
              ≡ complete (first_failure fs s).0 (first_failure fs s).1)
  unfolding run run_one_handler first_failure is_ok
  run-past complete [] h hs s = inl (refl, refl)
  run-past complete (f ∷ fs) h hs s = one f fs s
    where
      one :
          (f : Check S) (fs : List (Check S)) (s : S)
          → (is_ok (first_failure (f ∷ fs) s).0 ≡ true)
              × (run_one_handler complete (calls f) (map calls fs ++ (h ∷ hs)) s
                  ≡ run_one_handler complete h hs (first_failure (f ∷ fs) s).1)
            ⊎ (is_ok (first_failure (f ∷ fs) s).0 ≡ false)
              × (run_one_handler complete (calls f) (map calls fs ++ (h ∷ hs)) s
                  ≡ complete (first_failure (f ∷ fs) s).0 (first_failure (f ∷ fs) s).1)
      one f [] s = elim (Bool-cases (is_ok (f s).0)) [
        | inl fine ↦ inl (fine, rw fine refl)
        | inr bad ↦ inr (bad, rw bad refl)
      ]
      one f (g ∷ fs) s = elim (Bool-cases (is_ok (f s).0)) [
        | inl fine ↦ rw fine (one g fs (f s).1)
        | inr bad ↦ rw bad (inr (bad, refl))
      ]

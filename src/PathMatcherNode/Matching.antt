-- ===== src/PathMatcherNode/Matching.antt =====
-- `LookupPath` against an independent description of which paths a template matches.
use esp.Base.{
  ◌≡◌, refl, ◌∙◌, ap, ap₂, Bool, true, false, Option, none, some, is_some, List, [], ◌∷◌, Str,
  str_eq, if◌then◌else◌, arith,
}
use esp.HttpTemplate.{
  k_single_parameter_key, k_wild_card_path_part_key, k_wild_card_path_key, is_special,
}
use esp.PathMatcherNode.{
  LookupResult, Node, http_method_wild_card, result_map, children, wildcard, find_2_keys_or_null,
  find_child, get_result_for_http_method, lookup_path_from_child, lookup_keys, special_keys,
  lookup_end, lookup_path,
}

-- A template's path matches the parts of a request: a name matches itself, a special name any
-- part, and `**` also the parts behind that one, or no part at the end. The flag tells that the
-- name in front was `**`.
pub data Matches : Bool → List Str → List Str → Type 0 where
  end : {b : Bool} → Matches b [] []
  end_wild : {b : Bool} → Matches b (k_wild_card_path_key ∷ []) []
  name :
      {b : Bool} {k : Str} {ks ps : List Str}
      → Matches (str_eq k k_wild_card_path_key) ks ps
      → Matches b (k ∷ ks) (k ∷ ps)
  any :
      {b : Bool} {k p : Str} {ks ps : List Str}
      → is_special k ≡ true
      → Matches (str_eq k k_wild_card_path_key) ks ps
      → Matches b (k ∷ ks) (p ∷ ps)
  skip :
      {b : Bool} {p : Str} {ks ps : List Str} → b ≡ true → Matches b ks ps → Matches b ks (p ∷ ps)

-- Behind a `**` all names are fixed, as `ValidateParts` has it.
abbrev pub IsFixedBehind : Bool → List Str → Type 0
IsFixedBehind b [] = Unit
IsFixedBehind true (k ∷ ks) = (is_special k ≡ false) × IsFixedBehind true ks
IsFixedBehind false (k ∷ ks) = IsFixedBehind (str_eq k k_wild_card_path_key) ks

module _ {D : Type 0} where
  abbrev pub or_else : Option (LookupResult D) → Option (LookupResult D) → Option (LookupResult D)
  or_else none s = s
  or_else (some r) s = some r

  abbrev pub below_child :
      (Node D → Option (LookupResult D)) → Option (Node D) → Option (LookupResult D)
  below_child f none = none
  below_child f (some c) = f c

  -- The lookup with no out parameter: the first of the candidates in order.
  unfoldable pub search : List Str → Str → Node D → Option (LookupResult D)
  search [] m n = or_else (find_2_keys_or_null (result_map n) m http_method_wild_card) (
      below_child (λ c. find_2_keys_or_null (result_map c) m http_method_wild_card)
        (find_child k_wild_card_path_key (children n)))
  search (p ∷ ps) m n =
      let below = λ (key : Str). below_child (λ c. search ps m c) (find_child key (children n)) in
      or_else (below p) (
        if wildcard n
        then search ps m n
        else or_else (below k_single_parameter_key)
            (or_else (below k_wild_card_path_part_key) (below k_wild_card_path_key)))

  module _ (lookup : Node D → Option (LookupResult D) → Option (LookupResult D))
      (f : Node D → Option (LookupResult D)) (same : (c : Node D) → lookup c none ≡ f c)
      (n : Node D) where
    from_child_none :
        (key : Str)
        → lookup_path_from_child lookup key n none ≡ (
          is_some (below_child f (find_child key (children n))),
          below_child f (find_child key (children n)),
        )
    unfolding lookup_path_from_child
    from_child_none key = go (find_child key (children n))
      where
        go :
            (c : Option (Node D))
            → ◌≡◌ {A = Bool × Option (LookupResult D)}
                (elim c [
                  | some c' ↦ (is_some (lookup c' none), lookup c' none)
                  | none ↦ (false, none)
                ])
                (is_some (below_child f c), below_child f c)
        go none = refl
        go (some c) = ap (λ (r : Option (LookupResult D)). (is_some r, r)) (same c)

    -- One attempt, and the rest of the lookup where it fails.
    attempt :
        (key : Str) (rest : Option (LookupResult D) → Option (LookupResult D))
        → (if (lookup_path_from_child lookup key n none).0
            then (lookup_path_from_child lookup key n none).1
            else rest (lookup_path_from_child lookup key n none).1)
          ≡ or_else (below_child f (find_child key (children n))) (rest none)
    attempt key rest = rw (from_child_none key) (go (below_child f (find_child key (children n))))
      where
        go :
            (r : Option (LookupResult D))
            → (if is_some r then r else rest r) ≡ or_else r (rest none)
        go none = refl
        go (some r) = refl

    keys_none :
        lookup_keys lookup special_keys n none
        ≡ or_else (below_child f (find_child k_single_parameter_key (children n))) (
            or_else
              (below_child f (find_child k_wild_card_path_part_key (children n)))
              (below_child f (find_child k_wild_card_path_key (children n))))
    unfolding lookup_keys
    keys_none =
        attempt k_single_parameter_key
          (λ r. lookup_keys lookup (k_wild_card_path_part_key ∷ k_wild_card_path_key ∷ []) n r)
        ∙ ap (or_else (below_child f (find_child k_single_parameter_key (children n)))) (
            attempt k_wild_card_path_part_key
              (λ r. lookup_keys lookup (k_wild_card_path_key ∷ []) n r)
            ∙ ap (or_else (below_child f (find_child k_wild_card_path_part_key (children n)))) (
                attempt k_wild_card_path_key (λ r. r)
                ∙ or_else_none (below_child f (find_child k_wild_card_path_key (children n)))))
      where
        or_else_none : (r : Option (LookupResult D)) → or_else r none ≡ r
        or_else_none none = refl
        or_else_none (some r) = refl

  -- `LookupPath` into an empty result, with its out parameter and its early returns, answers
  -- what the recursive search finds that tries the child named by the part, and then the node
  -- itself where it is a wildcard, or else the children `/.`, `*` and `**`.
  pub lookup_path-search :
      (ps : List Str) (m : Str) (n : Node D) → lookup_path ps m n none ≡ search ps m n
  unfolding lookup_path search
  lookup_path-search [] m n = unfold lookup_end get_result_for_http_method in ground arith
  lookup_path-search (p ∷ ps) m n =
      let lookup = λ (c : Node D) (r : Option (LookupResult D)). lookup_path ps m c r in
      let same = lookup_path-search ps m in
      attempt lookup (λ c. search ps m c) same n p
        (λ r. if wildcard n then lookup n r else lookup_keys lookup special_keys n r)
      ∙ ap (or_else (below_child (λ c. search ps m c) (find_child p (children n)))) (
          ap₂ (λ (x y : Option (LookupResult D)). if wildcard n then x else y) (same n)
            (keys_none lookup (λ c. search ps m c) same n))

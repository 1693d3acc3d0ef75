-- ===== src/PathMatcherNode/Lookup.antt =====
-- Lookups in the trie against the stored paths that match the request.
use esp.Base.{
  ◌≡◌, ◌⊎◌, refl, sym, ◌∙◌, ap, subst, Bool, true, false, Option, none, some, is_some, List, [],
  ◌∷◌, Str, str_eq, str_eq_iff, if◌then◌else◌, inl, inr, Bool-cases, arith,
}
use esp.HttpTemplate.{
  k_single_parameter_key, k_wild_card_path_part_key, k_wild_card_path_key, is_special,
}
use esp.PathMatcherNode.{
  LookupResult, Node, http_method_wild_card, result_map, children, wildcard, find_2_keys_or_null,
  find_child, lookup_path,
}
use esp.PathMatcherNode.Stored.{stored, stored-cons}
use esp.PathMatcherNode.Flags.{AreFlagged, AreFlagged-wildcard, AreFlagged-find_child}
use esp.PathMatcherNode.Matching.{
  Matches, end, end_wild, name, any, skip, IsFixedBehind, or_else, below_child, search,
  lookup_path-search,
}

is_special-cases :
    (k : Str)
    → is_special k ≡ true
    → (k ≡ k_single_parameter_key) ⊎ ((k ≡ k_wild_card_path_part_key) ⊎ (k ≡ k_wild_card_path_key))
unfolding is_special
is_special-cases k h = ground (
  arith,
  str_eq_iff k k_single_parameter_key,
  str_eq_iff k k_wild_card_path_part_key,
  str_eq_iff k k_wild_card_path_key,
)

module _ {D : Type 0} where
  -- What a path holds for a request's method: an entry of the method, or one of any method.
  abbrev pub Holds : List Str → Str → Node D → LookupResult D → Type 0
  Holds path m n r = (stored path m n ≡ some r) ⊎ (stored path http_method_wild_card n ≡ some r)

  -- A stored path that matches the parts.
  pub record Explains (b : Bool) (parts : List Str) (m : Str) (n : Node D) (r : LookupResult D)
      : Type 0 where
    pub path : List Str
    pub matched : Matches b path parts
    pub held : Holds path m n r

  or_else-eq-some :
      (x y : Option (LookupResult D)) (r : LookupResult D)
      → or_else x y ≡ some r
      → (x ≡ some r) ⊎ (y ≡ some r)
  or_else-eq-some none y r e = inr e
  or_else-eq-some (some x) y r e = inl e

  find_2_keys-Holds :
      (m : Str) (n : Node D) (r : LookupResult D)
      → find_2_keys_or_null (result_map n) m http_method_wild_card ≡ some r
      → Holds [] m n r
  unfolding find_2_keys_or_null stored
  find_2_keys-Holds m n r e = ground arith

  Holds-cons :
      (key : Str) (path : List Str) (m : Str) (n c : Node D) (r : LookupResult D)
      → find_child key (children n) ≡ some c
      → Holds path m c r
      → Holds (key ∷ path) m n r
  Holds-cons key path m n c r e (inl h) = inl (rw (stored-cons, e) h)
  Holds-cons key path m n c r e (inr h) = inr (rw (stored-cons, e) h)

  -- A result below a child is found there.
  below_child-eq-some :
      (f : Node D → Option (LookupResult D)) (key : Str) (n : Node D) (r : LookupResult D)
      → below_child f (find_child key (children n)) ≡ some r
      → (c : Node D) × (find_child key (children n) ≡ some c) × (f c ≡ some r)
  below_child-eq-some f key n r e = go (find_child key (children n)) refl e
    where
      go :
          (o : Option (Node D))
          → find_child key (children n) ≡ o
          → below_child f o ≡ some r
          → (c : Node D) × (find_child key (children n) ≡ some c) × (f c ≡ some r)
      go none q e = cc
      go (some c) q e = (c, q, e)

  -- A result below a child is explained by the child's name in front.
  child-Explains :
      (b : Bool) (key p : Str) (ps : List Str) (m : Str) (n c : Node D) (r : LookupResult D)
      → (key ≡ p) ⊎ (is_special key ≡ true)
      → find_child key (children n) ≡ some c
      → Explains (str_eq key k_wild_card_path_key) ps m c r
      → Explains b (p ∷ ps) m n r
  child-Explains b key p ps m n c r (inl same) q x = record {
    path = key ∷ x.path;
    matched = subst (λ (p : Str). Matches b (key ∷ x.path) (p ∷ ps)) same (name x.matched);
    held = Holds-cons key x.path m n c r q x.held;
  }
  child-Explains b key p ps m n c r (inr special) q x = record {
    path = key ∷ x.path;
    matched = any special x.matched;
    held = Holds-cons key x.path m n c r q x.held;
  }

  skip-Explains :
      (b : Bool) (p : Str) (ps : List Str) (m : Str) (n : Node D) (r : LookupResult D)
      → b ≡ true
      → Explains b ps m n r
      → Explains b (p ∷ ps) m n r
  skip-Explains b p ps m n r e x = record {
    path = x.path;
    matched = skip e x.matched;
    held = x.held;
  }

  attempt-Explains :
      (ps : List Str) (m : Str)
      → ((b : Bool) (n : Node D) (r : LookupResult D)
          → AreFlagged b n
          → search ps m n ≡ some r
          → Explains b ps m n r)
      → (b : Bool) (n : Node D) (p key : Str) (r : LookupResult D) → AreFlagged b n
      → (key ≡ p) ⊎ (is_special key ≡ true)
      → below_child (λ c. search ps m c) (find_child key (children n)) ≡ some r
      → Explains b (p ∷ ps) m n r
  attempt-Explains ps m ih b n p key r flags k found =
      let (c, q, found') = below_child-eq-some (λ c. search ps m c) key n r found in
      child-Explains b key p ps m n c r k q
        (ih _ c r (AreFlagged-find_child b n key c flags q) found')

  search-Explains :
      (parts : List Str) (m : Str) (b : Bool) (n : Node D) (r : LookupResult D)
      → AreFlagged b n
      → search parts m n ≡ some r
      → Explains b parts m n r
  unfolding search is_special
  search-Explains [] m b n r flags e = elim (or_else-eq-some _ _ r e) [
    | inl here ↦ record { path = []; matched = end; held = find_2_keys-Holds m n r here }
    | inr wild ↦
        let (c, q, found) = below_child-eq-some _ k_wild_card_path_key n r wild in
        record {
          path = k_wild_card_path_key ∷ [];
          matched = end_wild;
          held = Holds-cons k_wild_card_path_key [] m n c r q (find_2_keys-Holds m c r found);
        }
  ]
  search-Explains (p ∷ ps) m b n r flags e = elim (or_else-eq-some _ _ r e) [
    | inl named ↦ attempt-Explains ps m (search-Explains ps m) b n p p r flags (inl refl) named
    | inr other ↦ elim (Bool-cases (wildcard n)) [
      | inl wild ↦
          skip-Explains b p ps m n r (sym (AreFlagged-wildcard b n flags) ∙ wild)
            (search-Explains ps m b n r flags (rw wild at other))
      | inr plain ↦ elim (or_else-eq-some _ _ r (rw plain at other)) [
        | inl single ↦
            attempt-Explains ps m (search-Explains ps m) b n p k_single_parameter_key r flags
              (inr refl) single
        | inr more ↦ elim (or_else-eq-some _ _ r more) [
          | inl one ↦
              attempt-Explains ps m (search-Explains ps m) b n p k_wild_card_path_part_key r flags
                (inr refl) one
          | inr path ↦
              attempt-Explains ps m (search-Explains ps m) b n p k_wild_card_path_key r flags
                (inr refl) path
        ]
      ]
    ]
  ]

  Holds-uncons :
      (key : Str) (path : List Str) (m : Str) (n : Node D) (r : LookupResult D)
      → Holds (key ∷ path) m n r
      → (c : Node D) × (find_child key (children n) ≡ some c) × Holds path m c r
  Holds-uncons key path m n r h = go (find_child key (children n)) refl
    where
      go :
          (o : Option (Node D))
          → find_child key (children n) ≡ o
          → (c : Node D) × (find_child key (children n) ≡ some c) × Holds path m c r
      go none q = absurd (
          ground (arith, q, stored-cons key path m n, stored-cons key path http_method_wild_card n))
      go (some c) q = (
        c,
        q,
        ground (arith, q, stored-cons key path m n, stored-cons key path http_method_wild_card n),
      )

  Holds-find_2_keys :
      (m : Str) (n : Node D) (r : LookupResult D)
      → Holds [] m n r
      → is_some (find_2_keys_or_null (result_map n) m http_method_wild_card) ≡ true
  unfolding find_2_keys_or_null stored
  Holds-find_2_keys m n r h = ground arith

  or_else_left : (x y : Option (LookupResult D)) → is_some x ≡ true → is_some (or_else x y) ≡ true
  or_else_left (some x) y h = refl
  or_else_left none y h = cc

  or_else_right : (x y : Option (LookupResult D)) → is_some y ≡ true → is_some (or_else x y) ≡ true
  or_else_right (some x) y h = refl
  or_else_right none y h = h

  below_child-some :
      (f : Node D → Option (LookupResult D)) (o : Option (Node D)) (c : Node D)
      → o ≡ some c
      → is_some (f c) ≡ true
      → is_some (below_child f o) ≡ true
  below_child-some f o c e h = rw e h

  -- The wildcard keys are tried where the node is not `**` itself.
  keys_find :
      (f : Node D → Option (LookupResult D)) (n : Node D) (key : Str) (c : Node D)
      → is_special key ≡ true
      → find_child key (children n) ≡ some c
      → is_some (f c) ≡ true
      → is_some (
          or_else (below_child f (find_child k_single_parameter_key (children n))) (
            or_else
              (below_child f (find_child k_wild_card_path_part_key (children n)))
              (below_child f (find_child k_wild_card_path_key (children n)))))
        ≡ true
  keys_find f n key c special q h = elim (is_special-cases key special) [
    | inl single ↦ or_else_left x (or_else y z) (here k_single_parameter_key single)
    | inr (inl part) ↦
        or_else_right x (or_else y z) (or_else_left y z (here k_wild_card_path_part_key part))
    | inr (inr path) ↦
        or_else_right x (or_else y z) (or_else_right y z (here k_wild_card_path_key path))
  ]
    where
      x : Option (LookupResult D)
      x = below_child f (find_child k_single_parameter_key (children n))

      y : Option (LookupResult D)
      y = below_child f (find_child k_wild_card_path_part_key (children n))

      z : Option (LookupResult D)
      z = below_child f (find_child k_wild_card_path_key (children n))

      here : (j : Str) → key ≡ j → is_some (below_child f (find_child j (children n))) ≡ true
      here j e =
          below_child-some f _ c (subst (λ (k : Str). find_child k (children n) ≡ some c) e q) h

  or_else_wild :
      (x y z : Option (LookupResult D)) (w : Bool)
      → w ≡ true
      → is_some y ≡ true
      → is_some (or_else x (if w then y else z)) ≡ true
  or_else_wild x y z w e h = or_else_right x _ (rw e h)

  or_else_plain :
      (x y z : Option (LookupResult D)) (w : Bool)
      → w ≡ false
      → is_some z ≡ true
      → is_some (or_else x (if w then y else z)) ≡ true
  or_else_plain x y z w e h = or_else_right x _ (rw e h)

IsFixedBehind-any : (ks : List Str) (b : Bool) → IsFixedBehind true ks → IsFixedBehind b ks
IsFixedBehind-any [] b h = tt
IsFixedBehind-any (k ∷ ks) true h = h
IsFixedBehind-any (k ∷ ks) false (plain, h) = IsFixedBehind-any ks (str_eq k k_wild_card_path_key) h

-- A special name is not met behind `**`.
special-first :
    (b : Bool) (k : Str) (ks : List Str)
    → is_special k ≡ true
    → IsFixedBehind b (k ∷ ks)
    → b ≡ false
special-first true k ks special (plain, h) = absurd (ground arith)
special-first false k ks special h = refl

IsFixedBehind-tail :
    (b : Bool) (k : Str) (ks : List Str)
    → IsFixedBehind b (k ∷ ks)
    → IsFixedBehind (str_eq k k_wild_card_path_key) ks
IsFixedBehind-tail true k ks (plain, h) = IsFixedBehind-any ks (str_eq k k_wild_card_path_key) h
IsFixedBehind-tail false k ks h = h

module _ {D : Type 0} where
  search_finds :
      {b : Bool} {path parts : List Str} (m : Str) (n : Node D) (r : LookupResult D)
      → AreFlagged b n
      → IsFixedBehind b path
      → Matches b path parts
      → Holds path m n r
      → is_some (search parts m n) ≡ true
  unfolding search is_special
  search_finds m n r flags fixed end h = or_else_left _ _ (Holds-find_2_keys m n r h)
  search_finds m n r flags fixed end_wild h =
      let (c, q, h') = Holds-uncons k_wild_card_path_key [] m n r h in
      or_else_right _ _ (below_child-some _ _ c q (Holds-find_2_keys m c r h'))
  search_finds {b} m n r flags fixed (name {k} {ks} {ps} matched) h =
      let (c, q, h') = Holds-uncons k ks m n r h in
      or_else_left _ _ (
        below_child-some _ _ c q (
          search_finds m c r (AreFlagged-find_child b n k c flags q)
            (IsFixedBehind-tail b k ks fixed) matched h'))
  search_finds {b} m n r flags fixed (any {k} {p} {ks} {ps} special matched) h =
      let (c, q, h') = Holds-uncons k ks m n r h in
      or_else_plain _ _ _ (wildcard n)
        (AreFlagged-wildcard b n flags ∙ special-first b k ks special fixed)
        (keys_find (λ c. search ps m c) n k c special q
          (search_finds m c r (AreFlagged-find_child b n k c flags q)
            (IsFixedBehind-tail b k ks fixed) matched h'))
  search_finds m n r flags fixed (skip {p} {ps} wild matched) h =
      or_else_wild _ _ _ (wildcard n) (AreFlagged-wildcard _ n flags ∙ wild)
        (search_finds m n r flags fixed matched h)

  -- Where the wildcard flag is on exactly the nodes named `**`, what a lookup finds is stored,
  -- for the request's method or for any method, at a path that matches the parts of the
  -- request.
  pub lookup_path_sound :
      (parts : List Str) (m : Str) (root : Node D) (r : LookupResult D)
      → AreFlagged false root
      → lookup_path parts m root none ≡ some r
      → Explains false parts m root r
  lookup_path_sound parts m root r flags e =
      search-Explains parts m false root r flags (sym (lookup_path-search parts m root) ∙ e)

  -- Where the wildcard flag is on exactly the nodes named `**`, and a path is stored for the
  -- request's method or for any method, has only fixed names behind its `**`, and matches the
  -- parts of the request, the lookup finds a result.
  pub lookup_path_complete :
      (path parts : List Str) (m : Str) (root : Node D) (r : LookupResult D)
      → AreFlagged false root
      → IsFixedBehind false path
      → Matches false path parts
      → Holds path m root r
      → is_some (lookup_path parts m root none) ≡ true
  lookup_path_complete path parts m root r flags fixed matched h =
      ap is_some (lookup_path-search parts m root) ∙ search_finds m root r flags fixed matched h

-- ===== src/PathMatcherNode/Stored.antt =====
-- The trie as a finite map: what is stored at a path and a method, before and after an insertion.
use esp.Base.{
  ◌↔◌, ◌≡◌, refl, sym, ◌∙◌, ap, Bool, true, false, not, ◌&&◌, Option, none, some, is_some, List, [],
  ◌∷◌, Str, str_eq, str_eq_iff, if◌then◌else◌, arith,
}
use esp.PathMatcherNode.{
  LookupResult, Node, node, Children, nil, cons, result_map, children, empty_node, mark_wildcard,
  find_result, find_child, insert_result, at_child, insert_template,
}

-- Equality of paths.
abbrev pub path_eq : List Str → List Str → Bool
path_eq [] [] = true
path_eq [] (k ∷ ks) = false
path_eq (j ∷ js) [] = false
path_eq (j ∷ js) (k ∷ ks) = str_eq j k && path_eq js ks

pub path_eq_iff : (p q : List Str) → (path_eq p q ≡ true) ↔ (p ≡ q)
path_eq_iff [] [] = ground arith
path_eq_iff [] (k ∷ q) = ground arith
path_eq_iff (j ∷ p) [] = ground arith
path_eq_iff (j ∷ p) (k ∷ q) = ground (arith, str_eq_iff j k, path_eq_iff p q)

pub path_eq_refl : (p : List Str) → path_eq p p ≡ true
path_eq_refl p = (path_eq_iff p p).1 refl

module _ {D : Type 0} where
  -- What is stored at a path for a method.
  unfoldable pub stored : List Str → Str → Node D → Option (LookupResult D)
  stored [] m n = find_result m (result_map n)
  stored (key ∷ path) m n = elim (find_child key (children n)) [
    | some c ↦ stored path m c
    | none ↦ none
  ]

  -- A result after an insertion at its place: the first data stays.
  abbrev pub updated : D → Bool → Option (LookupResult D) → LookupResult D
  updated d mark none = record { data_ptr = d; is_multiple = false }
  updated d mark (some r) = record r { is_multiple = if mark then true else r.is_multiple }

  find_result-insert_result :
      (j k : Str) (d : D) (mark : Bool) (rs : List (Str × LookupResult D))
      → find_result j (insert_result k d mark rs).1
        ≡ (if str_eq k j then some (updated d mark (find_result k rs)) else find_result j rs)
  unfolding find_result insert_result
  find_result-insert_result j k d mark [] = refl
  find_result-insert_result j k d mark ((i, r) ∷ rs) = ground (
    arith,
    str_eq_iff k j,
    str_eq_iff i k,
    str_eq_iff i j,
    find_result-insert_result j k d mark rs,
  )

  insert_result_new :
      (k : Str) (d : D) (mark : Bool) (rs : List (Str × LookupResult D))
      → (insert_result k d mark rs).0 ≡ not (is_some (find_result k rs))
  unfolding find_result insert_result
  insert_result_new k d mark [] = refl
  insert_result_new k d mark ((i, r) ∷ rs) = ground (arith, insert_result_new k d mark rs)

  -- The child of a name, made where there is none.
  abbrev pub child_or_new : Option (Node D) → Node D
  child_or_new none = empty_node
  child_or_new (some c) = c

  pub find_child-at_child :
      (j k : Str) (f : Node D → Bool × Node D) (ch : Children D)
      → find_child j (at_child k f ch).1
        ≡ (if str_eq k j then some (f (child_or_new (find_child k ch))).1 else find_child j ch)
  unfolding find_child at_child
  find_child-at_child j k f nil = refl
  find_child-at_child j k f (cons i c ch) =
      ground (arith, str_eq_iff k j, str_eq_iff i k, str_eq_iff i j, find_child-at_child j k f ch)

  at_child_flag :
      (k : Str) (f : Node D → Bool × Node D) (ch : Children D)
      → (at_child k f ch).0 ≡ (f (child_or_new (find_child k ch))).0
  unfolding find_child at_child
  at_child_flag k f nil = refl
  at_child_flag k f (cons i c ch) = ground (arith, at_child_flag k f ch)

  -- Nothing but the flag of the node itself changes.
  stored-mark_wildcard :
      (path : List Str) (m key : Str) (n : Node D)
      → stored path m (mark_wildcard key n) ≡ stored path m n
  unfolding stored
  stored-mark_wildcard [] m key (node rs ch w) = ground arith
  stored-mark_wildcard (k ∷ path) m key (node rs ch w) = ground arith

  pub stored-empty_node : (path : List Str) (m : Str) → stored path m empty_node ≡ none
  unfolding stored find_result find_child
  stored-empty_node [] m = refl
  stored-empty_node (k ∷ path) m = refl

  -- What is stored below a child that may be missing.
  abbrev pub stored_at : List Str → Str → Option (Node D) → Option (LookupResult D)
  stored_at path m c = elim c [ some c' ↦ stored path m c' | none ↦ none ]

  pub stored-cons :
      (key : Str) (path : List Str) (m : Str) (n : Node D)
      → stored (key ∷ path) m n ≡ stored_at path m (find_child key (children n))
  unfolding stored
  stored-cons key path m n = refl

  stored-child_or_new :
      (path : List Str) (m key : Str) (c : Option (Node D))
      → stored path m (mark_wildcard key (child_or_new c)) ≡ stored_at path m c
  stored-child_or_new path m key none =
      stored-mark_wildcard path m key empty_node ∙ stored-empty_node path m
  stored-child_or_new path m key (some c) = stored-mark_wildcard path m key c

  -- A trie is a map from paths and methods: an insertion changes what is stored at its own path and
  -- method, and nothing else.
  pub stored-insert_template :
      (path q : List Str) (m m' : Str) (d : D) (mark : Bool) (n : Node D)
      → stored q m' (insert_template path m d mark n).1 ≡ (
          if path_eq path q && str_eq m m'
          then some (updated d mark (stored path m n))
          else stored q m' n)
  unfolding insert_template
  stored-insert_template [] [] m m' d mark (node rs ch w) =
      unfold stored in find_result-insert_result m' m d mark rs
  stored-insert_template [] (k ∷ q) m m' d mark (node rs ch w) = unfold stored in refl
  stored-insert_template (key ∷ path) [] m m' d mark (node rs ch w) = unfold stored in refl
  stored-insert_template (key ∷ path) (k ∷ q) m m' d mark (node rs ch w) =
      let c = find_child key ch in
      let ih = stored-insert_template path q m m' d mark (mark_wildcard key (child_or_new c)) in
      let found =
        find_child-at_child k key
          (λ (x : Node D). insert_template path m d mark (mark_wildcard key x)) ch in
      ground (
        arith,
        stored-cons k q m' (insert_template (key ∷ path) m d mark (node rs ch w)).1,
        stored-cons key path m (node rs ch w),
        stored-cons k q m' (node rs ch w),
        stored-child_or_new path m key c,
        stored-child_or_new q m' key c,
        ih,
        found,
        str_eq_iff key k,
      )

  -- An insertion answers `true` exactly where nothing was stored at its path and method.
  pub insert_template_new :
      (path : List Str) (m : Str) (d : D) (mark : Bool) (n : Node D)
      → (insert_template path m d mark n).0 ≡ not (is_some (stored path m n))
  unfolding insert_template
  insert_template_new [] m d mark (node rs ch w) = unfold stored in insert_result_new m d mark rs
  insert_template_new (key ∷ path) m d mark (node rs ch w) =
      at_child_flag key (λ c. insert_template path m d mark (mark_wildcard key c)) ch
      ∙ insert_template_new path m d mark (mark_wildcard key (child_or_new (find_child key ch)))
      ∙ ap (λ r. not (is_some r))
          (stored-child_or_new path m key (find_child key ch)
            ∙ sym (stored-cons key path m (node rs ch w)))

-- ===== src/PathMatcherNode.antt =====
-- The trie of src/api_manager/path_matcher_node.{h,cc}. A node holds the results of the methods
-- that end at it, its children by name, and the flag of a `**` node. The maps are association
-- lists, looked up from the front; no key is entered twice.
--
-- A stored `data` pointer is never null, since the only caller passes the address of an object that
-- it has just made. So the out parameter `result` is an option: `none` is the default-constructed
-- result, whose `data` is null.
pub mod Stored
pub mod Matching
pub mod Flags
pub mod Lookup
pub mod Examples
use esp.Base.{
  Bool, true, false, ◌||◌, Option, none, some, is_some, List, [], ◌∷◌, ◌++◌, Str, str_eq,
  if◌then◌else◌,
}
use esp.HttpTemplate.{k_single_parameter_key, k_wild_card_path_part_key, k_wild_card_path_key}

pub record LookupResult (D : Type 0) : Type 0 where
  pub data_ptr : D
  pub is_multiple : Bool

mutual
  pub data Node (D : Type 0) : Type 0 where
    node : List (Str × LookupResult D) → Children D → Bool → Node D

  pub data Children (D : Type 0) : Type 0 where
    nil : Children D
    cons : Str → Node D → Children D → Children D

abbrev pub http_method_wild_card : Str
http_method_wild_card = b'*' ∷ []

-- The keys that `LookupPath` tries in turn.
abbrev pub special_keys : List Str
special_keys = k_single_parameter_key ∷ k_wild_card_path_part_key ∷ k_wild_card_path_key ∷ []

module _ {D : Type 0} where
  abbrev pub result_map : Node D → List (Str × LookupResult D)
  result_map (node rs ch w) = rs

  abbrev pub children : Node D → Children D
  children (node rs ch w) = ch

  abbrev pub wildcard : Node D → Bool
  wildcard (node rs ch w) = w

  -- The constructor, `new Element()`.
  abbrev pub empty_node : Node D
  empty_node = node [] nil false

  abbrev pub set_wildcard : Bool → Node D → Node D
  set_wildcard w (node rs ch _) = node rs ch w

  unfoldable pub find_result : Str → List (Str × LookupResult D) → Option (LookupResult D)
  find_result key [] = none
  find_result key ((j, r) ∷ rs) = if str_eq j key then some r else find_result key rs

  -- `Find2KeysOrNull`.
  unfoldable pub find_2_keys_or_null :
      List (Str × LookupResult D) → Str → Str → Option (LookupResult D)
  find_2_keys_or_null rs key1 key2 = elim (find_result key1 rs) [
    | some r ↦ some r
    | none ↦ find_result key2 rs
  ]

  unfoldable pub find_child : Str → Children D → Option (Node D)
  find_child key nil = none
  find_child key (cons j c ch) = if str_eq j key then some c else find_child key ch

  -- `InsertOrReturnExisting` on the results, and the mark on an existing one. The flag tells
  -- whether the key was new.
  unfoldable pub insert_result :
      Str → D → Bool → List (Str × LookupResult D) → Bool × List (Str × LookupResult D)
  insert_result key d mark [] = (true, (key, record { data_ptr = d; is_multiple = false }) ∷ [])
  insert_result key d mark ((j, r) ∷ rs) =
      let rest = insert_result key d mark rs in
      if str_eq j key
      then (false, (j, record r { is_multiple = if mark then true else r.is_multiple }) ∷ rs)
      else (rest.0, (j, r) ∷ rest.1)

  -- `LookupOrInsertNew` on the children, with what is then done to the child.
  unfoldable pub at_child : Str → (Node D → Bool × Node D) → Children D → Bool × Children D
  at_child key f nil = let done = f empty_node in (done.0, cons key done.1 nil)
  at_child key f (cons j c ch) =
      let done = f c in
      let rest = at_child key f ch in
      if str_eq j key then (done.0, cons j done.1 ch) else (rest.0, cons j c rest.1)

  abbrev pub mark_wildcard : Str → Node D → Node D
  mark_wildcard key c = if str_eq key k_wild_card_path_key then set_wildcard true c else c

  -- `InsertTemplate`: whether the template is new, and the trie after the call.
  unfoldable pub insert_template : List Str → Str → D → Bool → Node D → Bool × Node D
  insert_template [] http_method d mark (node rs ch w) =
      let inserted = insert_result http_method d mark rs in (inserted.0, node inserted.1 ch w)
  insert_template (key ∷ path) http_method d mark (node rs ch w) =
      let placed =
        at_child key (λ c. insert_template path http_method d mark (mark_wildcard key c)) ch in
      (placed.0, node rs placed.1 w)

  abbrev pub insert_path : List Str → Str → D → Bool → Node D → Bool × Node D
  insert_path = insert_template

  -- `GetResultForHttpMethod`: whether one is found, and the out parameter.
  unfoldable pub get_result_for_http_method :
      Str → Node D → Option (LookupResult D) → Bool × Option (LookupResult D)
  get_result_for_http_method key n result =
      elim (find_2_keys_or_null (result_map n) key http_method_wild_card) [
        | some r ↦ (true, some r)
        | none ↦ (false, result)
      ]

  -- `LookupPathFromChild`, with the call of `LookupPath` on the child as an argument.
  unfoldable pub lookup_path_from_child :
      (Node D → Option (LookupResult D) → Option (LookupResult D))
      → Str
      → Node D
      → Option (LookupResult D)
      → Bool × Option (LookupResult D)
  lookup_path_from_child lookup key n result = elim (find_child key (children n)) [
    | some c ↦ let r = lookup c result in (is_some r, r)
    | none ↦ (false, result)
  ]

  -- The loop over the keys of wildcards.
  unfoldable pub lookup_keys :
      (Node D → Option (LookupResult D) → Option (LookupResult D))
      → List Str
      → Node D
      → Option (LookupResult D)
      → Option (LookupResult D)
  lookup_keys lookup [] n result = result
  lookup_keys lookup (key ∷ keys) n result =
      let tried = lookup_path_from_child lookup key n result in
      let rest = lookup_keys lookup keys n tried.1 in if tried.0 then tried.1 else rest

  -- The base case of `LookupPath`.
  unfoldable pub lookup_end : Str → Node D → Option (LookupResult D) → Option (LookupResult D)
  lookup_end http_method n result =
      let here = get_result_for_http_method http_method n result in
      if here.0 then here.1 else elim (find_child k_wild_card_path_key (children n)) [
        | some c ↦ (get_result_for_http_method http_method c here.1).1
        | none ↦ here.1
      ]

  unfoldable pub lookup_path :
      List Str → Str → Node D → Option (LookupResult D) → Option (LookupResult D)
  lookup_path [] http_method n result = lookup_end http_method n result
  lookup_path (part ∷ parts) http_method n result =
      let lookup =
        λ (c : Node D) (r : Option (LookupResult D)). lookup_path parts http_method c r in
      let child = lookup_path_from_child lookup part n result in
      let further = lookup n child.1 in
      let others = lookup_keys lookup special_keys n child.1 in
      if child.0 then child.1 else if wildcard n then further else others

-- `Clone`.
mutual
  pub clone : {D : Type 0} → Node D → Node D
  clone (node rs ch w) = node rs (clone_children ch) w

  pub clone_children : {D : Type 0} → Children D → Children D
  clone_children nil = nil
  clone_children (cons key c ch) = cons key (clone c) (clone_children ch)

-- ===== src/PathMatcherNode/Flags.antt =====
-- The invariant of the trie: exactly the nodes named `**` carry the wildcard flag.
use esp.Base.{
  ◌≡◌, refl, sym, subst, Bool, true, false, Option, none, some, List, [], ◌∷◌, Str, str_eq,
  str_eq_iff, if◌then◌else◌, Bool-cases, inl, inr,
}
use esp.HttpTemplate.{k_wild_card_path_key}
use esp.PathMatcherNode.{
  Node, node, Children, nil, cons, children, wildcard, empty_node, set_wildcard, mark_wildcard,
  find_child, at_child, insert_template,
}

abbrev mutual
  -- The flag of a node, and of the nodes below it.
  pub AreFlagged : {D : Type 0} → Bool → Node D → Type 0
  AreFlagged b (node rs ch w) = (w ≡ b) × AreFlaggedBelow ch

  pub AreFlaggedBelow : {D : Type 0} → Children D → Type 0
  AreFlaggedBelow nil = Unit
  AreFlaggedBelow (cons key c ch) =
      AreFlagged (str_eq key k_wild_card_path_key) c × AreFlaggedBelow ch

mark_new :
    (D : Type 0) (b : Bool)
    → AreFlagged b (if b then set_wildcard true (empty_node {D = D}) else empty_node)
mark_new D true = (refl, tt)
mark_new D false = (refl, tt)

module _ {D : Type 0} where
  pub AreFlagged-wildcard : (b : Bool) (n : Node D) → AreFlagged b n → wildcard n ≡ b
  AreFlagged-wildcard b (node rs ch w) h = h.0

  abbrev AreFlaggedAt : Str → Option (Node D) → Type 0
  AreFlaggedAt key none = Unit
  AreFlaggedAt key (some c) = AreFlagged (str_eq key k_wild_card_path_key) c

  AreFlaggedBelow-find_child :
      (key : Str) (ch : Children D) → AreFlaggedBelow ch → AreFlaggedAt key (find_child key ch)
  unfolding find_child
  AreFlaggedBelow-find_child key nil h = tt
  AreFlaggedBelow-find_child key (cons j c ch) (h, t) = elim (Bool-cases (str_eq j key)) [
    | inl same ↦ rw same (
        subst (λ (k : Str). AreFlagged (str_eq k k_wild_card_path_key) c)
          ((str_eq_iff j key).0 same) h)
    | inr other ↦ rw other (AreFlaggedBelow-find_child key ch t)
  ]

  -- The child that a lookup goes on with.
  pub AreFlagged-find_child :
      (b : Bool) (n : Node D) (key : Str) (c : Node D)
      → AreFlagged b n
      → find_child key (children n) ≡ some c
      → AreFlagged (str_eq key k_wild_card_path_key) c
  AreFlagged-find_child b (node rs ch w) key c h e =
      subst (AreFlaggedAt key) e (AreFlaggedBelow-find_child key ch h.1)

  at_child-AreFlaggedBelow :
      (key : Str) (f : Node D → Bool × Node D) (ch : Children D)
      → ((n : Node D)
          → AreFlagged (str_eq key k_wild_card_path_key) n
          → AreFlagged (str_eq key k_wild_card_path_key) (f n).1)
      → AreFlagged (str_eq key k_wild_card_path_key) (f empty_node).1
      → AreFlaggedBelow ch
      → AreFlaggedBelow (at_child key f ch).1
  unfolding at_child
  at_child-AreFlaggedBelow key f nil keep new h = (new, tt)
  at_child-AreFlaggedBelow key f (cons j c ch) keep new (h, t) = elim (Bool-cases (str_eq j key)) [
    | inl same ↦
        let e = (str_eq_iff j key).0 same in
        let flagged = λ (k : Str) (n : Node D). AreFlagged (str_eq k k_wild_card_path_key) n in
        rw same (
          subst (λ (k : Str). flagged k (f c).1) (sym e)
              (keep c (subst (λ (k : Str). flagged k c) e h)),
          t,
        )
    | inr other ↦ rw other (h, at_child-AreFlaggedBelow key f ch keep new t)
  ]

  mark_kept :
      (b : Bool) (n : Node D) → AreFlagged b n → AreFlagged b (if b then set_wildcard true n else n)
  mark_kept true (node rs ch w) h = (refl, h.1)
  mark_kept false n h = h

  -- An insertion keeps the invariant of the flags: where exactly the nodes named `**` carry the
  -- wildcard flag before it, they do so after it.
  pub insert_template-AreFlagged :
      (path : List Str) (m : Str) (d : D) (mark b : Bool) (n : Node D)
      → AreFlagged b n
      → AreFlagged b (insert_template path m d mark n).1
  unfolding insert_template
  insert_template-AreFlagged [] m d mark b (node rs ch w) h = h
  insert_template-AreFlagged (key ∷ path) m d mark b (node rs ch w) (flag, h) = (
    flag,
    at_child-AreFlaggedBelow key _ ch
        (λ n k.
          insert_template-AreFlagged path m d mark _ (mark_wildcard key n)
            (mark_kept (str_eq key k_wild_card_path_key) n k))
        (insert_template-AreFlagged path m d mark _ (mark_wildcard key empty_node)
          (mark_new D (str_eq key k_wild_card_path_key)))
        h,
  )

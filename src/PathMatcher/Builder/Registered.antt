-- ===== src/PathMatcher/Builder/Registered.antt =====
-- What `Register` does to the trie, on each of its branches, and what the trie holds after any
-- sequence of registrations.
use mathlib.Core.List.{Memᴰ}
use esp.Base.{
  ◌≡◌, ◌≢◌, ◌⊎◌, refl, sym, ap, subst, ◌∙◌, Bool, true, false, not, ◌&&◌, Option, none, some,
  is_some, List, [], ◌∷◌, ◌++◌, Str, str_eq, str_eq_iff, str_eq_refl, is_empty, if◌then◌else◌, inl,
  inr, Bool-cases, Option-cases, arith,
}
use esp.HttpTemplate.{HttpTemplate, parse_http_template}
use esp.PathMatcherNode.{LookupResult, Node, insert_path}
use esp.PathMatcherNode.Stored.{
  stored, updated, path_eq, path_eq_iff, path_eq_refl, stored-insert_template, insert_template_new,
  stored-empty_node,
}
use esp.PathMatcherNode.Flags.{AreFlagged, insert_template-AreFlagged}
use esp.PathMatcher.Builder.{
  Method, MethodData, PathMatcher, new_builder, Status, ok, transform_http_template, insert_verb,
  register_template, register,
}

-- The arguments of a call of `Register`.
pub record Registration : Type 0 where
  pub http_method : Str
  pub http_template : Str
  pub body_field_path : Str
  pub method : Method

abbrev pub data_of : Registration → HttpTemplate → MethodData
data_of g ht = record {
  method = g.method;
  variables = ht.variables;
  body_field_path = g.body_field_path;
}

abbrev pub run : Registration → PathMatcher → Status × PathMatcher
run g b = register g.http_method g.http_template g.body_field_path g.method b

run_invalid :
    (g : Registration) (b : PathMatcher)
    → parse_http_template g.http_template ≡ none
    → (run g b).1 ≡ b
unfolding register
run_invalid g b e = rw (e, register)

run_valid :
    (g : Registration) (b : PathMatcher) (ht : HttpTemplate)
    → parse_http_template g.http_template ≡ some ht
    → run g b ≡ register_template g.http_method g.http_template g.body_field_path g.method ht b
unfolding register
run_valid g b ht e = rw (e, register)

-- The trie after a call of `Register` with a valid template.
abbrev pub root_with : Registration → HttpTemplate → PathMatcher → Node MethodData
root_with g ht b =
    (insert_path (transform_http_template ht) g.http_method (data_of g ht) true b.root).1

module _ (g : Registration) (b : PathMatcher) (ht : HttpTemplate)
    (valid : parse_http_template g.http_template ≡ some ht)
    (nonempty : is_empty (transform_http_template ht) ≡ false) where
  -- A valid template that has some path and is new for its method is registered: the answer is
  -- `ok`, its data stands at its path and method, everything else in the trie is as before, its
  -- data joins the methods, and its verb the custom verbs.
  pub register_new :
      stored (transform_http_template ht) g.http_method b.root ≡ none
      → (q : List Str) (m : Str)
      → ((run g b).0 ≡ ok)
        × (stored q m (run g b).1.root ≡ (
            if path_eq (transform_http_template ht) q && str_eq g.http_method m
            then some (record { data_ptr = data_of g ht; is_multiple = false })
            else stored q m b.root))
        × ((run g b).1.methods ≡ b.methods ++ (data_of g ht ∷ []))
        × ((run g b).1.custom_verbs ≡ insert_verb ht.verb b.custom_verbs)
  unfolding register_template
  register_new free q m =
      let path = transform_http_template ht in
      let fresh =
        insert_template_new path g.http_method (data_of g ht) true b.root
        ∙ ap (λ r. not (is_some r)) free in
      let kept = stored-insert_template path q g.http_method m (data_of g ht) true b.root in
      rw (run_valid g b ht valid) (rw (nonempty, fresh) (refl, kept ∙ rw free refl, refl, refl))

  -- A valid template that has some path and is registered already for its method is refused:
  -- the methods and the custom verbs stay, and of the trie only the mark at its path and method
  -- is set.
  pub register_duplicate :
      (r : LookupResult MethodData)
      → stored (transform_http_template ht) g.http_method b.root ≡ some r
      → (q : List Str) (m : Str)
      → ((run g b).0 ≢ ok)
        × (stored q m (run g b).1.root ≡ (
            if path_eq (transform_http_template ht) q && str_eq g.http_method m
            then some (record r { is_multiple = true })
            else stored q m b.root))
        × ((run g b).1.methods ≡ b.methods)
        × ((run g b).1.custom_verbs ≡ b.custom_verbs)
  unfolding register_template
  register_duplicate r taken q m =
      let path = transform_http_template ht in
      let old =
        insert_template_new path g.http_method (data_of g ht) true b.root
        ∙ ap (λ r. not (is_some r)) taken in
      let kept = stored-insert_template path q g.http_method m (data_of g ht) true b.root in
      rw (run_valid g b ht valid)
        (rw (nonempty, old) ((λ e. (cc)), kept ∙ rw taken refl, refl, refl))

  pub run-root : (run g b).1.root ≡ root_with g ht b
  unfolding register_template
  run-root =
      let inserted =
        insert_path (transform_http_template ht) g.http_method (data_of g ht) true b.root in
      rw (run_valid g b ht valid)
        (rw nonempty (elim (Bool-cases inserted.0) [ inl fresh ↦ rw fresh | inr old ↦ rw old ]))

run_empty :
    (g : Registration) (b : PathMatcher) (ht : HttpTemplate)
    → parse_http_template g.http_template ≡ some ht
    → is_empty (transform_http_template ht) ≡ true
    → (run g b).1 ≡ b
unfolding register_template
run_empty g b ht valid empty = rw (run_valid g b ht valid) (rw empty)

-- The three ways of a call of `Register` with the builder that it leaves.
pub data Effect (g : Registration) (b : PathMatcher) : Type 0 where
  refused : (run g b).1 ≡ b → Effect g b
  inserted :
      (ht : HttpTemplate)
      → parse_http_template g.http_template ≡ some ht
      → (run g b).1.root ≡ root_with g ht b
      → Effect g b

pub effect : (g : Registration) (b : PathMatcher) → Effect g b
effect g b = elim (Option-cases (parse_http_template g.http_template)) [
  | inl invalid ↦ refused (run_invalid g b invalid)
  | inr (ht, valid) ↦ elim (Bool-cases (is_empty (transform_http_template ht))) [
    | inl empty ↦ refused (run_empty g b ht valid empty)
    | inr nonempty ↦ inserted ht valid (run-root g b ht valid nonempty)
  ]
]

-- The builders that a sequence of calls of `Register` leads to, the last call first.
pub data IsBuilt : List Registration → PathMatcher → Type 0 where
  start : IsBuilt [] new_builder
  registered :
      {gs : List Registration} {b : PathMatcher} (g : Registration)
      → IsBuilt gs b
      → IsBuilt (g ∷ gs) (run g b).1

pub IsBuilt-AreFlagged :
    {gs : List Registration} {b : PathMatcher} → IsBuilt gs b → AreFlagged false b.root
IsBuilt-AreFlagged start = (refl, tt)
IsBuilt-AreFlagged (registered {b} g built) = elim (effect g b) [
  | refused same ↦
      subst (λ (x : PathMatcher). AreFlagged false x.root) (sym same) (IsBuilt-AreFlagged built)
  | inserted ht valid root ↦ subst (AreFlagged false) (sym root) (
      insert_template-AreFlagged (transform_http_template ht) g.http_method (data_of g ht) true
        false b.root (IsBuilt-AreFlagged built))
]

-- A registration that an entry of the trie stems from.
pub record Stems (gs : List Registration) (path : List Str) (m : Str) (d : MethodData)
    : Type 0 where
  pub source : Registration
  pub listed : Memᴰ source gs
  pub template : HttpTemplate
  pub valid : parse_http_template source.http_template ≡ some template
  pub at_path : transform_http_template template ≡ path
  pub for_method : source.http_method ≡ m
  pub holds : data_of source template ≡ d

Stems-cons :
    {gs : List Registration} {path : List Str} {m : Str} {d : MethodData} (g : Registration)
    → Stems gs path m d
    → Stems (g ∷ gs) path m d
Stems-cons g s = record {
  source = s.source;
  listed = Memᴰ.tail s.listed;
  template = s.template;
  valid = s.valid;
  at_path = s.at_path;
  for_method = s.for_method;
  holds = s.holds;
}

updated-data :
    (d : MethodData) (mark : Bool) (o : Option (LookupResult MethodData))
    (r : LookupResult MethodData)
    → some (updated d mark o) ≡ some r
    → ((o ≡ none) × (d ≡ r.data_ptr))
      ⊎ ((r' : LookupResult MethodData) × (o ≡ some r') × (r'.data_ptr ≡ r.data_ptr))
updated-data d mark none r e = inl (refl, cc)
updated-data d mark (some r') r e = inr (r', refl, cc)

Stems-subst :
    {gs : List Registration} {path q : List Str} {m k : Str} {d e : MethodData}
    → path ≡ q
    → m ≡ k
    → d ≡ e
    → Stems gs path m d
    → Stems gs q k e
Stems-subst p r t s = record {
  source = s.source;
  listed = s.listed;
  template = s.template;
  valid = s.valid;
  at_path = s.at_path ∙ p;
  for_method = s.for_method ∙ r;
  holds = s.holds ∙ t;
}

-- After an insertion, if all stems from a registration before it.
inserted-Stems :
    {gs : List Registration} (b : PathMatcher) (g : Registration) (ht : HttpTemplate)
    → parse_http_template g.http_template ≡ some ht
    → ((path : List Str) (m : Str) (r : LookupResult MethodData)
        → stored path m b.root ≡ some r
        → Stems gs path m r.data_ptr)
    → (path : List Str) (m : Str) (r : LookupResult MethodData)
    → stored path m (root_with g ht b) ≡ some r
    → Stems (g ∷ gs) path m r.data_ptr
inserted-Stems b g ht valid ih path m r e =
    let own = transform_http_template ht in
    let k = g.http_method in
    let law = stored-insert_template own path k m (data_of g ht) true b.root in
    elim (Bool-cases (path_eq own path && str_eq k m)) [
      | inr other ↦ Stems-cons g (ih path m r (sym (law ∙ rw other refl) ∙ e))
      | inl same ↦
          let at : own ≡ path = ground (arith, path_eq_iff own path) in
          let for : k ≡ m = ground (arith, str_eq_iff k m) in
          elim (updated-data (data_of g ht) true (stored own k b.root) r
            (sym (law ∙ rw same refl) ∙ e)) [
              | inl (free, d) ↦ record {
                source = g;
                listed = Memᴰ.head refl;
                template = ht;
                valid = valid;
                at_path = at;
                for_method = for;
                holds = d;
              }
              | inr (r', old, d) ↦ Stems-cons g (Stems-subst at for d (ih own k r' old))
            ]
    ]

-- All that the trie holds stems from a registration.
pub stored-Stems :
    {gs : List Registration} {b : PathMatcher} (path : List Str) (m : Str)
    (r : LookupResult MethodData)
    → IsBuilt gs b
    → stored path m b.root ≡ some r
    → Stems gs path m r.data_ptr
stored-Stems path m r start e = absurd (ground (arith, stored-empty_node {D = MethodData} path m))
stored-Stems path m r (registered {b} g built) e = elim (effect g b) [
  | refused same ↦ Stems-cons g (
      stored-Stems path m r built
        (subst (λ (x : PathMatcher). stored path m x.root ≡ some r) same e))
  | inserted ht valid root ↦
      inserted-Stems b g ht valid (λ q k s h. stored-Stems q k s built h) path m r
        (subst (λ (x : Node MethodData). stored path m x ≡ some r) root e)
]

-- What is stored once stays stored.
pub stored-kept :
    (g : Registration) (b : PathMatcher) (path : List Str) (m : Str)
    → is_some (stored path m b.root) ≡ true
    → is_some (stored path m (run g b).1.root) ≡ true
stored-kept g b path m h = elim (effect g b) [
  | refused same ↦ subst (λ (x : PathMatcher). is_some (stored path m x.root) ≡ true) (sym same) h
  | inserted ht valid root ↦
      subst (λ (x : Node MethodData). is_some (stored path m x) ≡ true) (sym root)
        (ground (
          arith,
          stored-insert_template (transform_http_template ht) path g.http_method m (data_of g ht)
              true b.root,
        ))
]

-- A call of `Register` with a valid template leaves something stored at its path and method.
pub stored-own :
    (g : Registration) (b : PathMatcher) (ht : HttpTemplate)
    → parse_http_template g.http_template ≡ some ht
    → is_empty (transform_http_template ht) ≡ false
    → is_some (stored (transform_http_template ht) g.http_method (run g b).1.root) ≡ true
stored-own g b ht valid nonempty =
    let path = transform_http_template ht in
    subst (λ (x : Node MethodData). is_some (stored path g.http_method x) ≡ true)
      (sym (run-root g b ht valid nonempty))
      (ap is_some
          (stored-insert_template path path g.http_method g.http_method (data_of g ht) true b.root)
        ∙ rw (path_eq_refl path, str_eq_refl g.http_method) refl)

-- After a sequence of calls, every valid registration of it has something stored at its place.
pub stored-registered :
    {gs : List Registration} {b : PathMatcher} (g : Registration) (ht : HttpTemplate)
    → IsBuilt gs b
    → Memᴰ g gs
    → parse_http_template g.http_template ≡ some ht
    → is_empty (transform_http_template ht) ≡ false
    → is_some (stored (transform_http_template ht) g.http_method b.root) ≡ true
stored-registered g ht start listed valid nonempty = elim listed [ ]
stored-registered g ht (registered {b} k built) (Memᴰ.head same) valid nonempty =
    subst
      (λ (x : Registration).
        is_some (stored (transform_http_template ht) g.http_method (run x b).1.root) ≡ true)
      same (stored-own g b ht valid nonempty)
stored-registered g ht (registered {b} k built) (Memᴰ.tail listed) valid nonempty =
    stored-kept k b (transform_http_template ht) g.http_method
      (stored-registered g ht built listed valid nonempty)

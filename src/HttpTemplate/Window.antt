-- ===== src/HttpTemplate/Window.antt =====
-- The token window and the fuel of the template parser, method by method.
use esp.Base.{
  ℕ, zero, suc, ◌+◌, ◌≤◌, ◌<◌, ◌≡◌, refl, Bool, true, false, [], ◌∷◌, ◌++◌, Str, length,
  if◌then◌else◌, ap, subst, not, ◌||◌, arith,
}
use esp.HttpTemplate.{
  Parser, Outcome, done, failed, out_of_fuel, ◌>>=◌, answer, branch, current_char, next_char,
  ensure_current, accept, accept_next, consume, start_variable, end_variable, add_field_identifier,
  mark_variable_has_wild_card_path, push_segment, k_wild_card_path_key, k_wild_card_path_part_key,
  conclude, ends_literal, ends_identifier, literal_loop, parse_literal, conclude_identifier,
  identifier_loop, parse_identifier, field_path_loop, parse_field_path, parse_literal_segment,
  parse_stars,
}

-- tb <= te <= tb + 1 and te <= input.size().
pub record InWindow (p : Parser) : Type 0 where
  pub ordered : p.tb ≤ p.te
  pub narrow : p.te ≤ suc p.tb
  pub inside : p.te ≤ length p.input

-- `q` is a later state over the same input, in its window.
pub record Advances (p q : Parser) : Type 0 where
  pub same : q.input ≡ p.input
  pub forward : p.tb ≤ q.tb
  pub window : InWindow q

-- A method returns, and moves forward in the window whatever it answers.
abbrev pub Returns : Parser → {A : Type 0} → Outcome A → Type 0
Returns p (done a q) = Advances p q
Returns p (failed q) = Advances p q
Returns p out_of_fuel = ⊥

-- The fuel exceeds what is left of the input.
abbrev pub Suffices : ℕ → Parser → Type 0
Suffices fuel p = length p.input < fuel + p.tb

pub Advances-refl : {p : Parser} → InWindow p → Advances p p
Advances-refl w = record { same = refl; forward = omega arith; window = w }

pub Advances-trans : {p q r : Parser} → Advances p q → Advances q r → Advances p r
Advances-trans a b = record {
  same = cc (a.same, b.same);
  forward = omega (arith, a.forward, b.forward);
  window = b.window;
}

pub Suffices-Advances : (fuel : ℕ) (p q : Parser) → Suffices fuel p → Advances p q → Suffices fuel q
Suffices-Advances fuel p q h a = ground arith

pub next_char-Advances : (p : Parser) → InWindow p → p.te ≤ p.tb → Advances p (next_char p).1
unfolding next_char
next_char-Advances p w h = ground arith

pub next_char-true : (p : Parser) → (next_char p).0 ≡ true → (next_char p).1.te ≡ suc p.te
unfolding next_char
next_char-true p h = ground arith

pub next_char-tb : (p : Parser) → (next_char p).1.tb ≡ p.tb
unfolding next_char
next_char-tb p = ground arith

pub next_char-false : (p : Parser) → (next_char p).0 ≡ false → (next_char p).1 ≡ p
unfolding next_char
next_char-false p h = ground arith

pub ensure_current-Advances : (p : Parser) → InWindow p → Advances p (ensure_current p).1
unfolding ensure_current next_char
ensure_current-Advances p w = ground arith

pub ensure_current-true :
    (p : Parser)
    → (ensure_current p).0 ≡ true
    → p.tb ≤ p.te
    → (ensure_current p).1.tb < (ensure_current p).1.te
unfolding ensure_current next_char
ensure_current-true p h w = ground arith

pub consume-Advances : (c : ℕ) (p : Parser) → InWindow p → Advances p (consume c p).1
unfolding consume accept_next accept next_char
consume-Advances c p w = ground arith

pub consume-true : (c : ℕ) (p : Parser) → (consume c p).0 ≡ true → (consume c p).1.tb ≡ suc p.tb
unfolding consume accept_next accept next_char
consume-true c p h = ground arith

-- Consuming the current character moves both indices to just behind it.
pub consume_current :
    (p : Parser)
    → p.tb < p.te
    → p.te ≤ suc p.tb
    → ((consume (current_char p) p).1.tb ≡ suc p.tb)
      × ((consume (current_char p) p).1.te ≡ suc p.tb)
      × ((consume (current_char p) p).1.input ≡ p.input)
unfolding consume accept
consume_current p h k = ground arith

pub Returns-trans :
    {A : Type 0} (p q : Parser) (o : Outcome A) → Advances p q → Returns q o → Returns p o
Returns-trans p q (done a r) h k = Advances-trans h k
Returns-trans p q (failed r) h k = Advances-trans h k
Returns-trans p q out_of_fuel h k = k

-- A method after another one.
pub Returns-bind :
    {A B : Type 0} (p : Parser) (m : Outcome A) (k : A → Parser → Outcome B)
    → Returns p m
    → ((a : A) (q : Parser) → Advances p q → Returns q (k a q))
    → Returns p (m >>= k)
Returns-bind p (done a q) k h f = Returns-trans p q (k a q) h (f a q h)
Returns-bind p (failed q) k h f = h
Returns-bind p out_of_fuel k h f = h

pub Returns-answer :
    {A : Type 0} (p : Parser) (a : A) (r : Bool × Parser) → Advances p r.1 → Returns p (answer a r)
Returns-answer p a (true, q) h = h
Returns-answer p a (false, q) h = h

pub Returns-branch :
    {A : Type 0} (p : Parser) (r : Bool × Parser) (k l : Parser → Outcome A)
    → Advances p r.1
    → ((q : Parser) → Advances p q → r ≡ (true, q) → Returns q (k q))
    → ((q : Parser) → Advances p q → r ≡ (false, q) → Returns q (l q))
    → Returns p (branch r k l)
Returns-branch p (true, q) k l h f g = Returns-trans p q (k q) h (f q h refl)
Returns-branch p (false, q) k l h f g = Returns-trans p q (l q) h (g q h refl)

pub Returns-if :
    {A : Type 0} (p : Parser) (b : Bool) (m n : Outcome A)
    → (b ≡ true → Returns p m)
    → (b ≡ false → Returns p n)
    → Returns p (if b then m else n)
Returns-if p true m n h k = h refl
Returns-if p false m n h k = k refl

pub Returns-conclude :
    (p q : Parser) (result : Bool) (lit : Str) → Advances p q → Returns p (conclude result lit q)
Returns-conclude p q true lit h = h
Returns-conclude p q false lit h = h

pub literal_loop-Returns :
    (fuel : ℕ) (lit : Str) (result : Bool) (p : Parser)
    → InWindow p
    → p.tb < p.te
    → Suffices fuel p
    → Returns p (literal_loop fuel lit result p)
unfolding literal_loop
literal_loop-Returns zero lit result p w l h = absurd (omega arith)
literal_loop-Returns (suc fuel) lit result p w l h =
    let c = current_char p in
    let r = (consume c p).1 in
    let a : Advances p r = consume-Advances c p w in
    let moved = consume_current p l w.narrow in
    let b : Advances r (next_char r).1 = next_char-Advances r a.window (omega arith) in
    Returns-if p (ends_literal c) _ _ (λ _. Returns-conclude p p result lit (Advances-refl w))
      (λ _.
        Returns-if p (next_char r).0 _ _
          (λ t. Returns-trans p (next_char r).1 _ (Advances-trans a b) (
            literal_loop-Returns fuel (lit ++ (c ∷ [])) true (next_char r).1 b.window
              (omega (arith, next_char-true r t, next_char-tb r))
              (omega (arith, ap length a.same, ap length b.same, b.forward))))
          (λ _. Advances-trans a b))

pub parse_literal-Returns :
    (fuel : ℕ) (lit : Str) (p : Parser)
    → InWindow p
    → Suffices fuel p
    → Returns p (parse_literal fuel lit p)
unfolding parse_literal
parse_literal-Returns fuel lit p w h =
    Returns-branch p (ensure_current p) _ _ (ensure_current-Advances p w)
      (λ q a e.
        literal_loop-Returns fuel lit false q a.window
          (subst (λ (r : Bool × Parser). r.1.tb < r.1.te) e
            (ensure_current-true p (ap (λ (r : Bool × Parser). r.0) e) w.ordered))
          (Suffices-Advances fuel p q h a))
      (λ q a _. Advances-refl a.window)

-- Operations that leave the window alone.
pub add_field_identifier-Advances :
    (id : Str) (p : Parser) → InWindow p → Advances p (add_field_identifier id p).1
unfolding add_field_identifier
add_field_identifier-Advances id p w = ground arith

pub start_variable-Advances : (p : Parser) → InWindow p → Advances p (start_variable p).1
unfolding start_variable
start_variable-Advances p w = ground arith

pub start_variable-tb :
    (p : Parser) → ((start_variable p).1.tb ≡ p.tb) × ((start_variable p).1.te ≡ p.te)
unfolding start_variable
start_variable-tb p = ground arith

pub end_variable-Advances : (p : Parser) → InWindow p → Advances p (end_variable p).1
unfolding end_variable
end_variable-Advances p w = ground arith

pub mark_variable-Advances :
    (p : Parser) → InWindow p → Advances p (mark_variable_has_wild_card_path p).1
unfolding mark_variable_has_wild_card_path
mark_variable-Advances p w = ground arith

pub push_segment-Advances : (s : Str) (p : Parser) → InWindow p → Advances p (push_segment s p)
push_segment-Advances s p w = record {
  same = refl;
  forward = omega arith;
  window = record { ordered = w.ordered; narrow = w.narrow; inside = w.inside };
}

pub conclude_identifier-Returns :
    (p q : Parser) (result : Bool) (idf : Str)
    → Advances p q
    → Returns p (conclude_identifier result idf q)
conclude_identifier-Returns p q true idf h =
    Returns-answer p tt _ (Advances-trans h (add_field_identifier-Advances idf q h.window))
conclude_identifier-Returns p q false idf h = h

-- Each identifier starts where nothing is looked ahead at.
pub identifier_loop-Returns :
    (fuel : ℕ) (idf : Str) (result : Bool) (p : Parser)
    → InWindow p
    → p.te ≤ p.tb
    → Suffices fuel p
    → Returns p (identifier_loop fuel idf result p)
unfolding identifier_loop
identifier_loop-Returns zero idf result p w l h = absurd (omega arith)
identifier_loop-Returns (suc fuel) idf result p w l h =
    let r = (next_char p).1 in
    let c = current_char r in
    let a : Advances p r = next_char-Advances p w l in
    let b : Advances r (consume c r).1 = consume-Advances c r a.window in
    Returns-if p (not (next_char p).0 || ends_identifier c) _ _
      (λ _. conclude_identifier-Returns p r result idf a)
      (λ e.
        let moved = next_char-true p (ground arith) in
        let ate =
          consume_current r (omega (arith, next_char-tb p)) (omega (arith, next_char-tb p)) in
        Returns-trans p (consume c r).1 _ (Advances-trans a b) (
          identifier_loop-Returns fuel (idf ++ (c ∷ [])) true (consume c r).1 b.window
            (omega (arith, next_char-tb p))
            (omega (arith, ap length a.same, ap length b.same, next_char-tb p))))

-- The consumed character was the one looked ahead at.
pub consume-clear :
    (c : ℕ) (p q : Parser)
    → consume c p ≡ (true, q)
    → InWindow p
    → (q.te ≤ q.tb) × (q.tb ≡ suc p.tb)
unfolding consume accept_next accept next_char
consume-clear c p q e w = ground arith

module _ (fuel : ℕ) where
  pub parse_identifier-Returns :
      (p : Parser)
      → InWindow p
      → p.te ≤ p.tb
      → Suffices fuel p
      → Returns p (parse_identifier fuel p)
  parse_identifier-Returns p w l h = identifier_loop-Returns fuel [] false p w l h

  pub field_path_loop-Returns :
      (rounds : ℕ) (p : Parser)
      → InWindow p
      → Suffices rounds p
      → Suffices fuel p
      → Returns p (field_path_loop rounds (parse_identifier fuel) p)
  unfolding field_path_loop
  field_path_loop-Returns zero p w h k = absurd (omega (arith, w.ordered, w.inside))
  field_path_loop-Returns (suc rounds) p w h k =
      Returns-branch p (consume b'.' p) _ _ (consume-Advances b'.' p w)
        (λ q a e.
          let (clear, moved) = consume-clear b'.' p q e w in
          Returns-bind q _ _
            (parse_identifier-Returns q a.window clear (Suffices-Advances fuel p q k a))
            (λ _ r b.
              field_path_loop-Returns rounds r b.window
                (omega (arith, ap length a.same, ap length b.same, b.forward))
                (Suffices-Advances fuel p r k (Advances-trans a b))))
        (λ q a _. Advances-refl a.window)

  pub parse_field_path-Returns :
      (p : Parser)
      → InWindow p
      → p.te ≤ p.tb
      → Suffices fuel p
      → Returns p (parse_field_path fuel p)
  unfolding parse_field_path
  parse_field_path-Returns p w l h = Returns-bind p _ _ (parse_identifier-Returns p w l h) (λ _ q a.
      field_path_loop-Returns fuel q a.window (Suffices-Advances fuel p q h a)
        (Suffices-Advances fuel p q h a))

  pub parse_literal_segment-Returns :
      (p : Parser) → InWindow p → Suffices fuel p → Returns p (parse_literal_segment fuel p)
  unfolding parse_literal_segment
  parse_literal_segment-Returns p w h =
      Returns-bind p _ _ (parse_literal-Returns fuel [] p w h)
        (λ ls q a. push_segment-Advances ls q a.window)

  pub parse_stars-Returns : (p : Parser) → InWindow p → Returns p (parse_stars p)
  unfolding parse_stars
  parse_stars-Returns p w =
      Returns-branch p (consume b'*' p) _ _ (consume-Advances b'*' p w)
        (λ q a _.
          let b = push_segment-Advances k_wild_card_path_key q a.window in
          Returns-if q q.in_variable _ _
            (λ _. Returns-answer q tt _ (Advances-trans b (mark_variable-Advances _ b.window)))
            (λ _. b))
        (λ q a _. push_segment-Advances k_wild_card_path_part_key q a.window)

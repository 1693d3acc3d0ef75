-- ===== src/HttpTemplate/Ranges.antt =====
-- The variables that the template parser builds: while it runs, every variable but an open last
-- one binds a non-empty range of the segments read so far.
use esp.Base.{
  ℕ, zero, suc, ◌≤◌, ◌<◌, ◌≡◌, ◌≢◌, refl, Bool, true, false, not, List, [], ◌∷◌, ◌++◌, Str, length,
  length-append, ◌==◌, if◌then◌else◌, ◌||◌, inl, inr, Bool-cases, arith,
}
use esp.HttpTemplate.{
  Parser, Variable, from_start, end_of, Outcome, done, failed, out_of_fuel, ◌>>=◌, answer, branch,
  current_char, next_char, ensure_current, accept, accept_next, consume, update_last, is_open,
  set_wildcard, add_identifier, set_end, validate_variable, validate_last, start_variable,
  end_variable, add_field_identifier, mark_variable_has_wild_card_path, push_segment,
  k_wild_card_path_key, k_wild_card_path_part_key, conclude, ends_literal, ends_identifier,
  literal_loop, parse_literal, conclude_identifier, identifier_loop, parse_identifier,
  field_path_loop, parse_field_path, parse_literal_segment, parse_stars, parse_segment,
  segments_loop,
}

-- A finished variable binds [start_segment, end_segment), a non-empty range of `n` segments.
pub record IsClosed (n : ℕ) (v : Variable) : Type 0 where
  pub from_front : v.end_segment ≡ from_start (end_of v.end_segment)
  pub nonempty : v.start_segment < end_of v.end_segment
  pub bounded : end_of v.end_segment ≤ n
  pub named : v.field_path ≢ []

-- All variables are finished, but for the last where the flag is set.
abbrev pub AreRanges : Bool → ℕ → List Variable → Type 0
AreRanges b n [] = b ≡ false
AreRanges true n (v ∷ []) = Unit
AreRanges false n (v ∷ []) = IsClosed n v
AreRanges b n (v ∷ w ∷ vs) = IsClosed n v × AreRanges b n (w ∷ vs)

-- The invariant of the parser, with `in_variable` at `b`.
pub record Fits (b : Bool) (p : Parser) : Type 0 where
  pub flag : p.in_variable ≡ b
  pub ranges : AreRanges b (length p.segments) p.variables

abbrev pub Ensures : (Parser → Type 0) → {A : Type 0} → Outcome A → Type 0
Ensures P (done a q) = P q
Ensures P (failed q) = Unit
Ensures P out_of_fuel = Unit

pub IsClosed-grow : {n m : ℕ} {v : Variable} → IsClosed n v → n ≤ m → IsClosed m v
IsClosed-grow c h = record {
  from_front = c.from_front;
  nonempty = c.nonempty;
  bounded = omega (arith, c.bounded);
  named = c.named;
}

pub AreRanges-grow :
    (b : Bool) (n m : ℕ) (vs : List Variable) → n ≤ m → AreRanges b n vs → AreRanges b m vs
AreRanges-grow b n m [] h r = r
AreRanges-grow true n m (v ∷ []) h r = r
AreRanges-grow false n m (v ∷ []) h r = IsClosed-grow r h
AreRanges-grow true n m (v ∷ w ∷ vs) h (c, r) =
    (IsClosed-grow c h, AreRanges-grow true n m (w ∷ vs) h r)
AreRanges-grow false n m (v ∷ w ∷ vs) h (c, r) =
    (IsClosed-grow c h, AreRanges-grow false n m (w ∷ vs) h r)

pub AreRanges-open :
    (n : ℕ) (vs : List Variable) (v : Variable)
    → AreRanges false n vs
    → AreRanges true n (vs ++ (v ∷ []))
AreRanges-open n [] v r = tt
AreRanges-open n (w ∷ []) v r = (r, tt)
AreRanges-open n (w ∷ x ∷ vs) v (c, r) = (c, AreRanges-open n (x ∷ vs) v r)

pub AreRanges-update_last :
    (n : ℕ) (f : Variable → Variable) (vs : List Variable)
    → AreRanges true n vs
    → AreRanges true n (update_last f vs)
unfolding update_last
AreRanges-update_last n f [] r = r
AreRanges-update_last n f (v ∷ []) r = tt
AreRanges-update_last n f (v ∷ w ∷ []) (c, r) = (c, tt)
AreRanges-update_last n f (v ∷ w ∷ x ∷ vs) (c, r) = (c, AreRanges-update_last n f (w ∷ x ∷ vs) r)

pub set_end-IsClosed :
    (n : ℕ) (v : Variable) → validate_variable n (set_end n v) ≡ true → IsClosed n (set_end n v)
unfolding validate_variable set_end
set_end-IsClosed n v h = record {
  from_front = refl;
  nonempty = ground arith;
  bounded = ground arith;
  named = λ e. (ground arith);
}

pub AreRanges-close :
    (n : ℕ) (vs : List Variable)
    → AreRanges true n vs
    → validate_last n (update_last (set_end n) vs) ≡ true
    → AreRanges false n (update_last (set_end n) vs)
unfolding update_last validate_last
AreRanges-close n [] r h = cc
AreRanges-close n (v ∷ []) r h = set_end-IsClosed n v h
AreRanges-close n (v ∷ w ∷ []) (c, r) h = (c, set_end-IsClosed n w h)
AreRanges-close n (v ∷ w ∷ x ∷ vs) (c, r) h = (c, AreRanges-close n (w ∷ x ∷ vs) r h)

pub Ensures-bind :
    {A B : Type 0} (P Q : Parser → Type 0) (m : Outcome A) (k : A → Parser → Outcome B)
    → Ensures P m
    → ((a : A) (q : Parser) → P q → Ensures Q (k a q))
    → Ensures Q (m >>= k)
Ensures-bind P Q (done a q) k h f = f a q h
Ensures-bind P Q (failed q) k h f = tt
Ensures-bind P Q out_of_fuel k h f = tt

pub Ensures-answer :
    {A : Type 0} (P : Parser → Type 0) (a : A) (r : Bool × Parser)
    → (r.0 ≡ true → P r.1)
    → Ensures P (answer a r)
Ensures-answer P a (true, q) h = h refl
Ensures-answer P a (false, q) h = tt

pub Ensures-branch :
    {A : Type 0} (P Q : Parser → Type 0) (r : Bool × Parser) (k l : Parser → Outcome A)
    → P r.1
    → ((q : Parser) → P q → Ensures Q (k q))
    → ((q : Parser) → P q → Ensures Q (l q))
    → Ensures Q (branch r k l)
Ensures-branch P Q (true, q) k l h f g = f q h
Ensures-branch P Q (false, q) k l h f g = g q h

pub Ensures-if :
    {A : Type 0} (Q : Parser → Type 0) (b : Bool) (m n : Outcome A)
    → Ensures Q m
    → Ensures Q n
    → Ensures Q (if b then m else n)
Ensures-if Q true m n h k = h
Ensures-if Q false m n h k = k

-- The last variable is open where the flag is set.
pub update_last-Fits :
    (b : Bool) (f : Variable → Variable) (p : Parser)
    → Fits b p
    → is_open p ≡ true
    → Fits b (record p { variables = update_last f p.variables })
update_last-Fits true f p h e = record {
  flag = h.flag;
  ranges = AreRanges-update_last _ f p.variables h.ranges;
}
update_last-Fits false f p h e = absurd (ground (arith, h.flag))

module _ (b : Bool) where
  -- A method that keeps the invariant.
  abbrev pub Keeps : {A : Type 0} → (Parser → Outcome A) → Type 0
  Keeps m = (p : Parser) → Fits b p → Ensures (Fits b) (m p)

  pub next_char-Fits : (p : Parser) → Fits b p → Fits b (next_char p).1
  unfolding next_char
  next_char-Fits p h = ground arith

  pub ensure_current-Fits : (p : Parser) → Fits b p → Fits b (ensure_current p).1
  unfolding ensure_current next_char
  ensure_current-Fits p h = ground arith

  pub consume-Fits : (c : ℕ) (p : Parser) → Fits b p → Fits b (consume c p).1
  unfolding consume accept_next accept next_char
  consume-Fits c p h = ground arith

  pub push_segment-Fits : (s : Str) (p : Parser) → Fits b p → Fits b (push_segment s p)
  push_segment-Fits s p h = record {
    flag = h.flag;
    ranges =
        AreRanges-grow b _ _ p.variables (omega (arith, length-append p.segments (s ∷ [])))
          h.ranges;
  }

  pub conclude-Keeps : (result : Bool) (lit : Str) → Keeps (conclude result lit)
  conclude-Keeps true lit p h = h
  conclude-Keeps false lit p h = tt

  pub literal_loop-Keeps :
      (fuel : ℕ) (lit : Str) (result : Bool) → Keeps (literal_loop fuel lit result)
  unfolding literal_loop
  literal_loop-Keeps zero lit result p h = tt
  literal_loop-Keeps (suc fuel) lit result p h =
      let c = current_char p in
      let k = next_char-Fits _ (consume-Fits c p h) in
      Ensures-if (Fits b) (ends_literal c) _ _ (conclude-Keeps result lit p h) (
        Ensures-if (Fits b) (next_char (consume c p).1).0 _ _
          (literal_loop-Keeps fuel (lit ++ (c ∷ [])) true _ k) k)

  pub parse_literal-Keeps : (fuel : ℕ) (lit : Str) → Keeps (parse_literal fuel lit)
  unfolding parse_literal
  parse_literal-Keeps fuel lit p h =
      Ensures-branch (Fits b) (Fits b) (ensure_current p) _ _ (ensure_current-Fits p h)
        (literal_loop-Keeps fuel lit false) (λ q k. tt)

  pub parse_literal_segment-Keeps : (fuel : ℕ) → Keeps (parse_literal_segment fuel)
  unfolding parse_literal_segment
  parse_literal_segment-Keeps fuel p h =
      Ensures-bind (Fits b) (Fits b) (parse_literal fuel [] p) _ (parse_literal-Keeps fuel [] p h)
        (λ ls q k. push_segment-Fits ls q k)

  pub mark_variable-Fits : (p : Parser) → Fits b p → Fits b (mark_variable_has_wild_card_path p).1
  unfolding mark_variable_has_wild_card_path
  mark_variable-Fits p h = elim (Bool-cases (is_open p)) [
    | inl open_one ↦ rw open_one (update_last-Fits b set_wildcard p h open_one)
    | inr shut ↦ rw shut h
  ]

  pub add_field_identifier-Fits :
      (id : Str) (p : Parser) → Fits b p → Fits b (add_field_identifier id p).1
  unfolding add_field_identifier
  add_field_identifier-Fits id p h = elim (Bool-cases (is_open p)) [
    | inl open_one ↦ rw open_one (update_last-Fits b (add_identifier id) p h open_one)
    | inr shut ↦ rw shut h
  ]

  pub parse_stars-Keeps : Keeps parse_stars
  unfolding parse_stars
  parse_stars-Keeps p h =
      Ensures-branch (Fits b) (Fits b) (consume b'*' p) _ _ (consume-Fits b'*' p h)
        (λ q k.
          let m = push_segment-Fits k_wild_card_path_key q k in
          Ensures-if (Fits b) q.in_variable _ _
            (Ensures-answer (Fits b) tt _ (λ _. mark_variable-Fits _ m)) m)
        (λ q k. push_segment-Fits k_wild_card_path_part_key q k)

  pub conclude_identifier-Keeps :
      (result : Bool) (idf : Str) → Keeps (conclude_identifier result idf)
  conclude_identifier-Keeps true idf p h =
      Ensures-answer (Fits b) tt _ (λ _. add_field_identifier-Fits idf p h)
  conclude_identifier-Keeps false idf p h = tt

  pub identifier_loop-Keeps :
      (fuel : ℕ) (idf : Str) (result : Bool) → Keeps (identifier_loop fuel idf result)
  unfolding identifier_loop
  identifier_loop-Keeps zero idf result p h = tt
  identifier_loop-Keeps (suc fuel) idf result p h =
      let r = (next_char p).1 in
      let c = current_char r in
      let k = next_char-Fits p h in
      Ensures-if (Fits b) (not (next_char p).0 || ends_identifier c) _ _
        (conclude_identifier-Keeps result idf r k)
        (identifier_loop-Keeps fuel (idf ++ (c ∷ [])) true _ (consume-Fits c r k))

  pub field_path_loop-Keeps :
      (fuel : ℕ) (identifier : Parser → Outcome (Unit {0}))
      → Keeps identifier
      → Keeps (field_path_loop fuel identifier)
  unfolding field_path_loop
  field_path_loop-Keeps zero identifier i p h = tt
  field_path_loop-Keeps (suc fuel) identifier i p h =
      Ensures-branch (Fits b) (Fits b) (consume b'.' p) _ _ (consume-Fits b'.' p h)
        (λ q k.
          Ensures-bind (Fits b) (Fits b) (identifier q) _ (i q k)
            (λ _ r j. field_path_loop-Keeps fuel identifier i r j))
        (λ q k. k)

  pub parse_field_path-Keeps : (fuel : ℕ) → Keeps (parse_field_path fuel)
  unfolding parse_field_path
  parse_field_path-Keeps fuel p h =
      Ensures-bind (Fits b) (Fits b) (parse_identifier fuel p) _
        (identifier_loop-Keeps fuel [] false p h)
        (λ _ q k.
          field_path_loop-Keeps fuel (parse_identifier fuel) (identifier_loop-Keeps fuel [] false) q
            k)

  pub parse_segment-Keeps :
      (fuel : ℕ) (variable : Parser → Outcome (Unit {0}))
      → Keeps variable
      → Keeps (parse_segment fuel variable)
  unfolding parse_segment
  parse_segment-Keeps fuel variable v p h =
      Ensures-branch (Fits b) (Fits b) (ensure_current p) _ _ (ensure_current-Fits p h)
        (λ q k.
          Ensures-if (Fits b) (current_char q == b'*') _ _
            (parse_stars-Keeps _ (consume-Fits b'*' q k))
            (Ensures-if (Fits b) (current_char q == b'{') _ _ (v q k)
              (parse_literal_segment-Keeps fuel q k)))
        (λ q k. tt)

  pub segments_loop-Keeps :
      (fuel : ℕ) (segment : Parser → Outcome (Unit {0}))
      → Keeps segment
      → Keeps (segments_loop fuel segment)
  unfolding segments_loop
  segments_loop-Keeps zero segment s p h = tt
  segments_loop-Keeps (suc fuel) segment s p h =
      Ensures-branch (Fits b) (Fits b) (consume b'/' p) _ _ (consume-Fits b'/' p h)
        (λ q k.
          Ensures-bind (Fits b) (Fits b) (segment q) _ (s q k)
            (λ _ r j. segments_loop-Keeps fuel segment s r j))
        (λ q k. k)

pub start_variable-Fits :
    (b : Bool) (p : Parser)
    → Fits b p
    → (start_variable p).0 ≡ true
    → (b ≡ false) × Fits true (start_variable p).1
unfolding start_variable
start_variable-Fits true p h e = absurd (ground (arith, h.flag))
start_variable-Fits false p h e =
    (refl, rw h.flag (record { flag = refl; ranges = AreRanges-open _ p.variables _ h.ranges }))

pub end_variable-Fits :
    (p : Parser) → Fits true p → (end_variable p).0 ≡ true → Fits false (end_variable p).1
unfolding end_variable
end_variable-Fits p h e = elim (Bool-cases (is_open p)) [
  | inl open_one ↦
      rw open_one
        (record { flag = refl; ranges = AreRanges-close _ p.variables h.ranges (ground arith) })
  | inr shut ↦ absurd (ground arith)
]

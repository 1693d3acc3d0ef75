-- ===== src/HttpTemplate/Nesting.antt =====
-- Segments within variables within segments of the template parser.
use esp.Base.{ℕ, zero, suc, ◌≤◌, ◌≡◌, ap, subst, Bool, true, false, length, ◌==◌, arith}
use esp.HttpTemplate.{
  Parser, Outcome, done, failed, out_of_fuel, ◌>>=◌, answer, branch, ensure_current, current_char,
  consume, start_variable, end_variable, push_segment, k_wild_card_path_part_key, parse_field_path,
  parse_segment, segments_loop, parse_variable, parse_segments,
}
use esp.HttpTemplate.Window.{
  InWindow, Advances, Returns, Suffices, Suffices-Advances, Advances-refl, Advances-trans,
  Returns-bind, Returns-answer, Returns-branch, Returns-if, Returns-trans, consume-Advances,
  consume-clear, ensure_current-Advances, start_variable-Advances, start_variable-tb,
  end_variable-Advances, push_segment-Advances, parse_field_path-Returns, parse_stars-Returns,
  parse_literal_segment-Returns,
}
use esp.HttpTemplate.Ranges.{
  Fits, Ensures, Ensures-bind, Ensures-answer, Ensures-branch, consume-Fits, ensure_current-Fits,
  push_segment-Fits, parse_field_path-Keeps, parse_segment-Keeps, segments_loop-Keeps,
  start_variable-Fits, end_variable-Fits, Keeps,
}

parse_variable-Keeps :
    (b : Bool) (fuel : ℕ) (inner : Parser → Outcome (Unit {0}))
    → Keeps true inner
    → Keeps b (parse_variable fuel inner)
unfolding parse_variable
parse_variable-Keeps b fuel inner i p h =
    Ensures-bind (Fits b) (Fits b) (answer tt (consume b'{' p)) _
      (Ensures-answer (Fits b) tt _ (λ _. consume-Fits b b'{' p h))
      (λ _ p1 h1.
        Ensures-bind (λ q. (b ≡ false) × Fits true q) (Fits b) (answer tt (start_variable p1)) _
          (Ensures-answer (λ q. (b ≡ false) × Fits true q) tt _ (start_variable-Fits b p1 h1))
          (λ _ p2 (no_nesting, h2). rw no_nesting (
            Ensures-bind (Fits true) (Fits false) (parse_field_path fuel p2) _
              (parse_field_path-Keeps true fuel p2 h2)
              (λ _ p3 h3.
                Ensures-bind (Fits true) (Fits false) _ _
                  (Ensures-branch (Fits true) (Fits true) (consume b'=' p3) _ _
                    (consume-Fits true b'=' p3 h3) i
                    (λ q k. push_segment-Fits true k_wild_card_path_part_key q k))
                  (λ _ p4 h4.
                    Ensures-bind (Fits false) (Fits false) (answer tt (end_variable p4)) _
                      (Ensures-answer (Fits false) tt _ (end_variable-Fits p4 h4))
                      (λ _ p5 h5.
                        Ensures-answer (Fits false) tt _ (λ _. consume-Fits false b'}' p5 h5)))))))

pub parse_segments-Keeps : (b : Bool) (depth fuel : ℕ) → Keeps b (parse_segments depth fuel)
unfolding parse_segments
parse_segments-Keeps b zero fuel p h = tt
parse_segments-Keeps b (suc depth) fuel p h =
    let inner = parse_segments-Keeps true depth fuel in
    let variable = parse_variable fuel (parse_segments depth fuel) in
    let s = parse_segment-Keeps b fuel variable (parse_variable-Keeps b fuel _ inner) in
    Ensures-bind (Fits b) (Fits b) (parse_segment fuel variable p) _ (s p h)
      (λ _ q k. segments_loop-Keeps b fuel (parse_segment fuel variable) s q k)

-- After a method that ends, a later one may rely on what the first ensures.
pub Returns-bind_with :
    {A B : Type 0} (p : Parser) (P : Parser → Type 0) (m : Outcome A) (k : A → Parser → Outcome B)
    → Returns p m
    → Ensures P m
    → ((a : A) (q : Parser) → Advances p q → P q → Returns q (k a q))
    → Returns p (m >>= k)
Returns-bind_with p P (done a q) k h e f = Returns-trans p q (k a q) h (f a q h e)
Returns-bind_with p P (failed q) k h e f = h
Returns-bind_with p P out_of_fuel k h e f = h

-- The state that a step leads to keeps a property of the state it leads to.
abbrev state_of : Bool × Parser → Parser
state_of r = r.1

module _ (fuel : ℕ) (b : Bool) where
  -- A method that returns wherever the invariant holds and the fuel suffices.
  abbrev pub IsTotal : (Parser → Outcome (Unit {0})) → Type 0
  IsTotal m = (p : Parser) → Fits b p → InWindow p → Suffices fuel p → Returns p (m p)

  pub parse_segment-IsTotal :
      (variable : Parser → Outcome (Unit {0}))
      → IsTotal variable
      → IsTotal (parse_segment fuel variable)
  unfolding parse_segment
  parse_segment-IsTotal variable v p f w h =
      Returns-branch p (ensure_current p) _ _ (ensure_current-Advances p w)
        (λ q a e.
          let k = Suffices-Advances fuel p q h a in
          let g = subst (Fits b) (ap state_of e) (ensure_current-Fits b p f) in
          Returns-if q (current_char q == b'*') _ _
            (λ _.
              let c = consume-Advances b'*' q a.window in
              Returns-trans q _ _ c (parse_stars-Returns fuel _ c.window))
            (λ _.
              Returns-if q (current_char q == b'{') _ _ (λ _. v q g a.window k)
                (λ _. parse_literal_segment-Returns fuel q a.window k)))
        (λ q a _. Advances-refl a.window)

  pub segments_loop-Returns :
      (segment : Parser → Outcome (Unit {0}))
      → IsTotal segment
      → Keeps b segment
      → (rounds : ℕ) (p : Parser) → Fits b p
      → InWindow p
      → Suffices rounds p
      → Suffices fuel p
      → Returns p (segments_loop rounds segment p)
  unfolding segments_loop
  segments_loop-Returns segment v s zero p f w h k = absurd (omega (arith, w.ordered, w.inside))
  segments_loop-Returns segment v s (suc rounds) p f w h k =
      Returns-branch p (consume b'/' p) _ _ (consume-Advances b'/' p w)
        (λ q a e.
          let (clear, moved) = consume-clear b'/' p q e w in
          let g = subst (Fits b) (ap state_of e) (consume-Fits b b'/' p f) in
          Returns-bind_with q (Fits b) _ _ (v q g a.window (Suffices-Advances fuel p q k a)) (s q g)
            (λ _ r c j.
              segments_loop-Returns segment v s rounds r j c.window
                (omega (arith, ap length a.same, ap length c.same, c.forward))
                (Suffices-Advances fuel p r k (Advances-trans a c))))
        (λ q a _. Advances-refl a.window)

-- Behind a consumed character nothing is looked ahead at.
abbrev IsClear : Parser → Type 0
IsClear q = q.te ≤ q.tb

consume-IsClear :
    (c : ℕ) (p : Parser) → InWindow p → (consume c p).0 ≡ true → IsClear (consume c p).1
consume-IsClear c p w e = (consume-clear c p (consume c p).1 (pair_path (consume c p) e) w).0
  where
    pair_path : (r : Bool × Parser) → r.0 ≡ true → r ≡ (true, r.1)
    pair_path r e = λ i. (e i, r.1)

-- The segments of a variable are read with the flag set.
parse_variable-Returns :
    (fuel : ℕ) (b : Bool) (inner : Parser → Outcome (Unit {0}))
    → (b ≡ false → IsTotal fuel true inner)
    → Keeps true inner
    → IsTotal fuel b (parse_variable fuel inner)
unfolding parse_variable
parse_variable-Returns fuel b inner i s p f w h =
    Returns-bind_with p (λ q. Fits b q × IsClear q) (answer tt (consume b'{' p)) _
      (Returns-answer p tt _ (consume-Advances b'{' p w))
      (Ensures-answer (λ q. Fits b q × IsClear q) tt _
        (λ e. (consume-Fits b b'{' p f, consume-IsClear b'{' p w e)))
      (λ _ p1 a1 (f1, c1).
        Returns-bind_with p1 (λ q. ((b ≡ false) × Fits true q) × IsClear q)
          (answer tt (start_variable p1)) _
          (Returns-answer p1 tt _ (start_variable-Advances p1 a1.window))
          (Ensures-answer (λ q. ((b ≡ false) × Fits true q) × IsClear q) tt _
            (λ e. (start_variable-Fits b p1 f1 e, omega (arith, start_variable-tb p1))))
          (λ _ p2 a2 ((outer, f2), c2).
            variable_body p2 outer f2 a2.window c2
              (Suffices-Advances fuel p p2 h (Advances-trans a1 a2))))
  where
    variable_end :
        (p4 : Parser)
        → Fits true p4
        → InWindow p4
        → Returns p4 (answer tt (end_variable p4) >>= λ u p5. answer tt (consume b'}' p5))
    variable_end p4 f4 w4 =
        Returns-bind p4 (answer tt (end_variable p4)) _
          (Returns-answer p4 tt _ (end_variable-Advances p4 w4))
          (λ _ p5 a5. Returns-answer p5 tt _ (consume-Advances b'}' p5 a5.window))

    variable_segments :
        (p3 : Parser)
        → b ≡ false
        → Fits true p3
        → InWindow p3
        → Suffices fuel p3
        → Returns p3 (
            branch
              (consume b'=' p3)
              inner
              (λ q. done tt (push_segment k_wild_card_path_part_key q)))
    variable_segments p3 outer f3 w3 h3 =
        Returns-branch p3 (consume b'=' p3) _ _ (consume-Advances b'=' p3 w3)
          (λ q a e.
            i outer q (subst (Fits true) (ap state_of e) (consume-Fits true b'=' p3 f3)) a.window
              (Suffices-Advances fuel p3 q h3 a))
          (λ q a _. push_segment-Advances k_wild_card_path_part_key q a.window)

    variable_body :
        (p2 : Parser)
        → b ≡ false
        → Fits true p2
        → InWindow p2
        → IsClear p2
        → Suffices fuel p2
        → Returns p2 (
            parse_field_path fuel p2 >>= λ u p3.
            branch (consume b'=' p3) inner (λ q. done tt (push_segment k_wild_card_path_part_key q))
            >>= λ u p4. answer tt (end_variable p4) >>= λ u p5. answer tt (consume b'}' p5))
    variable_body p2 outer f2 w2 c2 h2 =
        Returns-bind_with p2 (Fits true) (parse_field_path fuel p2) _
          (parse_field_path-Returns fuel p2 w2 c2 h2) (parse_field_path-Keeps true fuel p2 f2)
          (λ _ p3 a3 f3.
            Returns-bind_with p3 (Fits true) _ _
              (variable_segments p3 outer f3 a3.window (Suffices-Advances fuel p2 p3 h2 a3))
              (Ensures-branch (Fits true) (Fits true) (consume b'=' p3) _ _
                (consume-Fits true b'=' p3 f3) s
                (λ q k. push_segment-Fits true k_wild_card_path_part_key q k))
              (λ _ p4 a4 f4. variable_end p4 f4 a4.window))

parse_segments_at :
    (depth fuel : ℕ) (b : Bool)
    → IsTotal fuel b (parse_variable fuel (parse_segments depth fuel))
    → IsTotal fuel b (parse_segments (suc depth) fuel)
unfolding parse_segments
parse_segments_at depth fuel b v p f w h =
    let variable = parse_variable fuel (parse_segments depth fuel) in
    let keeps =
      parse_segment-Keeps b fuel variable
        (parse_variable-Keeps b fuel _ (parse_segments-Keeps true depth fuel)) in
    let total = parse_segment-IsTotal fuel b variable v in
    Returns-bind_with p (Fits b) (parse_segment fuel variable p) _ (total p f w h) (keeps p f)
      (λ _ q a g.
        segments_loop-Returns fuel b (parse_segment fuel variable) total keeps fuel q g a.window
          (Suffices-Advances fuel p q h a) (Suffices-Advances fuel p q h a))

-- Two levels are all that is entered.
pub parse_segments-Returns : (fuel : ℕ) → IsTotal fuel false (parse_segments 2 fuel)
parse_segments-Returns fuel = parse_segments_at 1 fuel false (
    parse_variable-Returns fuel false (parse_segments 1 fuel)
      (λ _. parse_segments_at 0 fuel true (
        parse_variable-Returns fuel true (parse_segments 0 fuel) (λ e. absurd (ground (arith, e)))
          (parse_segments-Keeps true 0 fuel)))
      (parse_segments-Keeps true 1 fuel))

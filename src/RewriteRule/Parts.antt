-- ===== src/RewriteRule/Parts.antt =====
-- What the parts of a replacement of src/api_manager/rewrite_rule.cc spell.
use esp.Base.{
  ℕ, ◌≡◌, ◌≢◌, ◌⊎◌, refl, sym, ap, subst, Bool, true, false, Option, none, some, List, [], ◌∷◌,
  ◌++◌, append-nil, append_assoc, Str, ◌==◌, if◌then◌else◌, All, All-append, inl, inr, Bool-cases,
  Option-cases, arith,
}
use esp.RewriteRule.{
  ReplacementSegment, text, replacement, ReplacementPartType, text_type, replacement_type, isdigit,
  stoi, Loop, add_index, close_replacement, close_text, reopen, step, finish, ◌>>=◌, run, start,
  replacement_parts,
}

-- The parts of a replacement text: a text stands for itself, an index for a dollar and digits
-- that have its value.
pub data Spells : List ReplacementSegment → Str → Type 0 where
  nothing : Spells [] []
  then_text :
      {parts : List ReplacementSegment} {s : Str} (t : Str)
      → Spells parts s
      → Spells (parts ++ (text t ∷ [])) (s ++ t)
  then_index :
      {parts : List ReplacementSegment} {s : Str} (digits : Str) (n : ℕ)
      → digits ≢ []
      → All (λ c. isdigit c ≡ true) digits
      → stoi digits ≡ some n
      → Spells parts s
      → Spells (parts ++ (replacement n ∷ [])) (s ++ (b'$' ∷ digits))

-- What the loop has read: what its parts spell, and the segment that it is in.
abbrev pending : ReplacementPartType → Str → Str
pending text_type segment = segment
pending replacement_type segment = b'$' ∷ segment

abbrev AreDigits : ReplacementPartType → Str → Type 0
AreDigits text_type segment = Unit
AreDigits replacement_type segment = All (λ c. isdigit c ≡ true) segment

record Reads (status : ReplacementPartType) (segment : Str) (parts : List ReplacementSegment)
    (read : Str) : Type 0 where
  spelled : Str
  spells : Spells parts spelled
  digits : AreDigits status segment
  whole : read ≡ spelled ++ pending status segment

some_inj : {A : Type 0} {x y : A} → some x ≡ some y → x ≡ y
some_inj e = cc

close_text-Spells :
    (parts : List ReplacementSegment) (segment s : Str)
    → Spells parts s
    → Spells (close_text parts segment) (s ++ segment)
unfolding close_text
close_text-Spells parts [] s h = rw (append-nil s) h
close_text-Spells parts (c ∷ segment) s h = then_text (c ∷ segment) h

close_replacement-Spells :
    (parts closed : List ReplacementSegment) (segment s : Str)
    → Spells parts s
    → All (λ c. isdigit c ≡ true) segment
    → close_replacement parts segment ≡ some closed
    → Spells closed (s ++ (b'$' ∷ segment))
unfolding close_replacement
close_replacement-Spells parts closed [] s h d e =
    subst (λ (x : List ReplacementSegment). Spells x (s ++ (b'$' ∷ []))) (some_eq e)
      (then_text (b'$' ∷ []) h)
  where
    some_eq : {x y : List ReplacementSegment} → some x ≡ some y → x ≡ y
    some_eq e = cc
close_replacement-Spells parts closed (c ∷ segment) s h d e = go (stoi (c ∷ segment)) refl e
  where
    go :
        (o : Option ℕ)
        → stoi (c ∷ segment) ≡ o
        → add_index parts o ≡ some closed
        → Spells closed (s ++ (b'$' ∷ c ∷ segment))
    go none q e = cc
    go (some n) q e =
        subst (λ (x : List ReplacementSegment). Spells x (s ++ (b'$' ∷ c ∷ segment))) (some_eq e)
          (then_index (c ∷ segment) n (λ f. (cc)) d q h)
      where
        some_eq :
            some (parts ++ (replacement n ∷ [])) ≡ some closed
            → parts ++ (replacement n ∷ []) ≡ closed
        some_eq e = cc

LoopReads : Loop → Str → Type 0
LoopReads l read = Reads l.status l.segment l.parts read

abbrev dollar_loop : List ReplacementSegment → Loop
dollar_loop parts = record { status = replacement_type; segment = []; parts = parts }

abbrev text_loop : Str → List ReplacementSegment → Loop
text_loop segment parts = record { status = text_type; segment = segment; parts = parts }

dollar-LoopReads :
    (c : ℕ) (closed : List ReplacementSegment) (spelled : Str)
    → (c == b'$') ≡ true
    → Spells closed spelled
    → LoopReads (dollar_loop closed) (spelled ++ (c ∷ []))
unfolding LoopReads
dollar-LoopReads c closed spelled q h = record {
  spelled = spelled;
  spells = h;
  digits = tt;
  whole = ap (λ x. spelled ++ (x ∷ [])) is_dollar;
}
  where
    is_dollar : c ≡ b'$'
    is_dollar = ground arith

reopen-Reads :
    (c : ℕ) (closed : List ReplacementSegment) (read : Str)
    → Spells closed read
    → (l' : Loop) → reopen c (some closed) ≡ some l'
    → LoopReads l' (read ++ (c ∷ []))
unfolding LoopReads
reopen-Reads c closed read h l' e = go (c == b'$') refl e
  where
    go :
        (b : Bool)
        → (c == b'$') ≡ b
        → some (if b then dollar_loop closed else text_loop (c ∷ []) closed) ≡ some l'
        → LoopReads l' (read ++ (c ∷ []))
    go true q e =
        subst (λ (x : Loop). LoopReads x (read ++ (c ∷ []))) (some_inj e)
          (dollar-LoopReads c closed read q h)
    go false q e =
        subst (λ (x : Loop). LoopReads x (read ++ (c ∷ []))) (some_inj e)
          (record { spelled = read; spells = h; digits = tt; whole = refl })

digit-Reads :
    (c : ℕ) (segment : Str) (parts : List ReplacementSegment) (read : Str)
    → Reads replacement_type segment parts read
    → isdigit c ≡ true
    → Reads replacement_type (segment ++ (c ∷ [])) parts (read ++ (c ∷ []))
digit-Reads c segment parts read h q = record {
  spelled = h.spelled;
  spells = h.spells;
  digits = All-append (λ c. isdigit c ≡ true) segment (c ∷ []) h.digits (q, tt);
  whole = rw h.whole (append_assoc h.spelled (b'$' ∷ segment) (c ∷ []));
}

step-Reads :
    (c : ℕ) (status : ReplacementPartType) (segment : Str) (parts : List ReplacementSegment)
    (read : Str)
    → Reads status segment parts read
    → (l' : Loop) → step c status segment parts ≡ some l'
    → LoopReads l' (read ++ (c ∷ []))
unfolding step LoopReads
step-Reads c text_type segment parts read h l' e = go (c == b'$') refl e
  where
    go :
        (b : Bool)
        → (c == b'$') ≡ b
        → some (
            if b
            then dollar_loop (close_text parts segment)
            else text_loop (segment ++ (c ∷ [])) parts)
          ≡ some l'
        → LoopReads l' (read ++ (c ∷ []))
    go true q e =
        subst (λ (x : Loop). LoopReads x (read ++ (c ∷ []))) (some_inj e)
          (subst (λ x. LoopReads (dollar_loop (close_text parts segment)) (x ++ (c ∷ [])))
            (sym h.whole)
            (dollar-LoopReads c _ _ q (close_text-Spells parts segment h.spelled h.spells)))
    go false q e =
        subst (λ (x : Loop). LoopReads x (read ++ (c ∷ []))) (some_inj e)
          (record {
            spelled = h.spelled;
            spells = h.spells;
            digits = tt;
            whole = rw h.whole (append_assoc h.spelled segment (c ∷ []));
          })
step-Reads c replacement_type segment parts read h l' e = elim (Bool-cases (isdigit c)) [
  | inl q ↦
      subst (λ (x : Loop). LoopReads x (read ++ (c ∷ [])))
        (some_inj (subst (λ b. branch b ≡ some l') q e)) (digit-Reads c segment parts read h q)
  | inr q ↦ elim (Option-cases (close_replacement parts segment)) [
    | inl k ↦ no_loop (subst (λ o. reopen c o ≡ some l') k (subst (λ b. branch b ≡ some l') q e))
    | inr (closed, k) ↦
        reopen-Reads c closed read
          (subst (λ x. Spells closed x) (sym h.whole)
            (close_replacement-Spells parts closed segment h.spelled h.spells h.digits k))
          l' (subst (λ o. reopen c o ≡ some l') k (subst (λ b. branch b ≡ some l') q e))
  ]
]
  where
    branch : Bool → Option Loop
    branch b =
        if b
        then some
            (record { status = replacement_type; segment = segment ++ (c ∷ []); parts = parts })
        else reopen c (close_replacement parts segment)

    no_loop : none ≡ some l' → LoopReads l' (read ++ (c ∷ []))
    no_loop f = cc

-- A replacement is spelled by its parts, less a last dollar that no digit follows.
pub SpellsUpToDollar : List ReplacementSegment → Str → Type 0
SpellsUpToDollar parts s =
    Spells parts s ⊎ ((body : Str) × Spells parts body × (s ≡ body ++ (b'$' ∷ [])))

finish-Reads :
    (status : ReplacementPartType) (segment : Str) (parts : List ReplacementSegment) (read : Str)
    → Reads status segment parts read
    → (closed : List ReplacementSegment) → finish status segment parts ≡ some closed
    → SpellsUpToDollar closed read
unfolding finish SpellsUpToDollar close_text
finish-Reads text_type [] parts read h closed e = inl (
    subst (λ x. Spells closed x) (sym h.whole)
      (subst (λ x. Spells x (h.spelled ++ [])) (some_inj e)
        (close_text-Spells parts [] h.spelled h.spells)))
finish-Reads replacement_type [] parts read h closed e =
    inr (h.spelled, subst (λ x. Spells x h.spelled) (some_inj e) h.spells, h.whole)
finish-Reads text_type (c ∷ s) parts read h closed e = inl (
    subst (λ x. Spells closed x) (sym h.whole)
      (subst (λ x. Spells x (h.spelled ++ (c ∷ s))) (some_inj e)
        (close_text-Spells parts (c ∷ s) h.spelled h.spells)))
finish-Reads replacement_type (c ∷ s) parts read h closed e = inl (
    subst (λ x. Spells closed x) (sym h.whole)
      (close_replacement-Spells parts closed (c ∷ s) h.spelled h.spells h.digits e))

run-Reads :
    (s : Str) (l : Loop) (read : Str)
    → LoopReads l read
    → (closed : List ReplacementSegment) → run s l ≡ some closed
    → SpellsUpToDollar closed (read ++ s)
unfolding run LoopReads
run-Reads [] l read h closed e =
    rw (append-nil read) (finish-Reads l.status l.segment l.parts read h closed e)
run-Reads (c ∷ s) l read h closed e = elim (Option-cases (step c l.status l.segment l.parts)) [
  | inl k ↦ stuck (subst (λ o. (o >>= λ l'. run s l') ≡ some closed) k e)
  | inr (l', k) ↦
      subst (λ x. SpellsUpToDollar closed x) (append_assoc read (c ∷ []) s)
        (run-Reads s l' (read ++ (c ∷ [])) (step-Reads c l.status l.segment l.parts read h l' k)
          closed (subst (λ o. (o >>= λ l'. run s l') ≡ some closed) k e))
]
  where
    stuck : none ≡ some closed → SpellsUpToDollar closed (read ++ (c ∷ s))
    stuck f = cc

-- Where the constructor of a rule splits its replacement (and no index is too large), the parts
-- spell the replacement: texts as they are, an index as a dollar and digits of its value. The
-- exception is a dollar at the end, which the parts leave out.
pub replacement_parts-Spells :
    (replacement : Str) (parts : List ReplacementSegment)
    → replacement_parts replacement ≡ some parts
    → SpellsUpToDollar parts replacement
unfolding replacement_parts LoopReads
replacement_parts-Spells s parts e =
    run-Reads s start [] (record { spelled = []; spells = nothing; digits = tt; whole = refl })
      parts e

-- ===== src/CloudTrace/Stream/Laws.antt =====
-- Lemmas on the streams: the fields around the first separator, and numbers that are read back.
use esp.Base.{
  ℕ, zero, suc, ◌+◌, ◌-◌, ◌*◌, ◌/◌, ◌%◌, ◌^◌, ◌<◌, ◌≡◌, inl, inr, refl, sym, ap, ◌∙◌, true, false,
  some, List, [], ◌∷◌, ◌++◌, Str, find_first, length, take, drop, All, All-append, ltb, ◌==◌,
  Bool-cases, arith, subst, lt→ltb,
}
use esp.RewriteRule.{isdigit, isspace, digits_value}
use esp.CloudTrace.Stream.{fields, decimal, all_digits, read_digits, read_number, read_uint64}

-- A text without the separator.
abbrev pub Lacks : ℕ → Str → Type 0
Lacks c s = All (λ x. (x == c) ≡ false) s

pub fields-append : (c : ℕ) (s t : Str) → Lacks c s → fields c (s ++ (c ∷ t)) ≡ s ∷ fields c t
unfolding fields
fields-append c [] t h = ground arith
fields-append c (x ∷ s) t (p, h) = rw (p, fields-append c s t h) refl

pub find_first-append :
    (c : ℕ) (s t : Str) → Lacks c s → find_first c (s ++ (c ∷ t)) ≡ some (length s)
find_first-append c [] t h = ground arith
find_first-append c (x ∷ s) t (p, h) = rw (p, find_first-append c s t h) refl

pub drop-append {ℓ} : {A : Type ℓ} (s t : List A) (c : A) → drop (suc (length s)) (s ++ (c ∷ t)) ≡ t
drop-append [] t c = refl
drop-append (x ∷ s) t c = drop-append s t c

pub take-append {ℓ} : {A : Type ℓ} (s t : List A) → take (length s) (s ++ t) ≡ s
take-append [] [] = refl
take-append [] (y ∷ t) = refl
take-append (x ∷ s) t = ap (λ r. x ∷ r) (take-append s t)

digits_value-append :
    (n : ℕ) (s : Str) (c : ℕ) → digits_value n (s ++ (c ∷ [])) ≡ digits_value n s * 10 + (c - b'0')
unfolding digits_value
digits_value-append n [] c = refl
digits_value-append n (x ∷ s) c = digits_value-append (n * 10 + (x - b'0')) s c

digits_value-decimal : (k n : ℕ) → n < 10 ^ k → digits_value 0 (decimal k n) ≡ n
unfolding decimal digits_value
digits_value-decimal zero n h = omega arith
digits_value-decimal (suc k) n h = elim (Bool-cases (ltb n 10)) [
  | inl p ↦ rw p (omega arith)
  | inr p ↦
      rw (p, digits_value-append) (omega (arith, digits_value-decimal k (n / 10) (omega arith)))
]

pub decimal_digits : (k n : ℕ) → All (λ c. isdigit c ≡ true) (decimal k n)
unfolding decimal isdigit
decimal_digits zero n = tt
decimal_digits (suc k) n = elim (Bool-cases (ltb n 10)) [
  | inl p ↦ rw p (ground arith, tt)
  | inr p ↦
      rw p (All-append _ (decimal k (n / 10)) _ (decimal_digits k (n / 10)) (ground arith, tt))
]

all_digits_of : (s : Str) → All (λ c. isdigit c ≡ true) s → all_digits s ≡ true
all_digits_of [] h = refl
all_digits_of (c ∷ s) (p, h) = rw (p, all_digits_of s h) refl

first_digit :
    (c : ℕ) → isdigit c ≡ true → (isspace c ≡ false) × ((c == b'-') ≡ false) × ((c == b'+') ≡ false)
unfolding isdigit
first_digit c h = ground arith

read_number_digits :
    (c : ℕ) (s : Str)
    → All (λ d. isdigit d ≡ true) (c ∷ s)
    → read_number (c ∷ s) ≡ some (false, digits_value 0 (c ∷ s))
unfolding read_number read_digits
read_number_digits c s h =
    let f = first_digit c h.0 in rw (f.0, f.1, f.2, all_digits_of (c ∷ s) h) refl

-- A text with an item at its end is not empty.
append_nonempty : (s : Str) (d : ℕ) → (c : ℕ) × (t : Str) × (s ++ (d ∷ []) ≡ c ∷ t)
append_nonempty [] d = (d, [], refl)
append_nonempty (c ∷ s) d = (c, s ++ (d ∷ []), refl)

pub decimal_nonempty : (k n : ℕ) → (c : ℕ) × (s : Str) × (decimal (suc k) n ≡ c ∷ s)
unfolding decimal
decimal_nonempty k n = elim (Bool-cases (ltb n 10)) [
  | inl p ↦ (n + b'0', [], rw p refl)
  | inr p ↦ rw p (append_nonempty (decimal k (n / 10)) (n % 10 + b'0'))
]

-- A number of 64 bits that is written is read back.
pub read_uint64-decimal : (n : ℕ) → n < 2 ^ 64 → read_uint64 (decimal 20 n) ≡ some n
unfolding read_uint64
read_uint64-decimal n h =
    let (c, s, e) = decimal_nonempty 19 n in
    let digits = subst (All (λ d. isdigit d ≡ true)) e (decimal_digits 20 n) in
    let value = ap (digits_value 0) (sym e) ∙ digits_value-decimal 20 n (omega arith) in
    rw (e, read_number_digits c s digits, value, lt→ltb n (2 ^ 64) h) refl

-- ===== src/TimeBasedCounter/Window.antt =====
-- The counter through any sequence of its calls, and the window it counts.
use mathlib.Core.Option
use native.Mathlib.Nat.{le-div_iff_mul-le}
use esp.Base.{
  some, ◌==◌, some_same, subst, ℕ, zero, suc, ◌+◌, ◌%◌, ◌≤◌, ◌<◌, ◌≡◌, refl, sym, ◌∙◌, ap, true,
  false, List, [], ◌∷◌, length, get_or, set, replicate, leb, inl, inr, Bool-cases, arith,
}
use esp.Base.Int.{ℤ, pos, ◌+ℤ◌, ◌-ℤ◌, int_laws}
use esp.TimeBasedCounter.{
  Counter, new_counter, clear, passed, slots_passed, roll_slot, roll_slots, rolled, roll, added,
  inc, count_at,
}

pub sum : List ℤ → ℤ
sum [] = pos 0
sum (x ∷ xs) = x +ℤ sum xs

-- There is a slot, the tail is one of them, the count is their sum, and a slot lasts a while.
pub record IsValid (c : Counter) : Type 0 where
  pub inside : c.tail < length c.slots
  pub counted : c.count ≡ sum c.slots
  pub lasting : 0 < c.slot_duration

sum-replicate : (n : ℕ) → sum (replicate n (pos 0)) ≡ pos 0
unfolding sum
sum-replicate zero = refl
sum-replicate (suc n) = ap (λ s. pos 0 +ℤ s) (sum-replicate n) ∙ omega int_laws

length-replicate : (n : ℕ) → length (replicate n (pos 0)) ≡ n
length-replicate zero = refl
length-replicate (suc n) = ap suc (length-replicate n)

length-set : (xs : List ℤ) (i : ℕ) (v : ℤ) → length (set xs i v) ≡ length xs
length-set [] i v = refl
length-set (x ∷ xs) zero v = refl
length-set (x ∷ xs) (suc i) v = ap suc (length-set xs i v)

-- A write moves the sum by the difference.
sum-set :
    (xs : List ℤ) (i : ℕ) (v : ℤ)
    → i < length xs
    → sum (set xs i v) ≡ (sum xs -ℤ get_or xs i (pos 0)) +ℤ v
unfolding sum
sum-set [] i v h = elim h [ ]
sum-set (x ∷ xs) zero v h = omega int_laws
sum-set (x ∷ xs) (suc i) v h = ap (λ s. x +ℤ s) (sum-set xs i v (omega arith)) ∙ omega int_laws

clear-IsValid :
    (t : ℕ) (c : Counter) → 0 < length c.slots → 0 < c.slot_duration → IsValid (clear t c)
unfolding clear
clear-IsValid t c h d = record {
  lasting = d;
  inside = omega (arith, length-replicate (length c.slots));
  counted = sym (sum-replicate (length c.slots));
}

add_zero : (a : ℤ) → a +ℤ pos 0 ≡ a
add_zero a = omega int_laws

roll_slot-IsValid : (c : Counter) → IsValid c → IsValid (roll_slot c)
unfolding roll_slot
roll_slot-IsValid c v =
    let next = (c.tail + 1) % length c.slots in
    let below : next < length c.slots = omega arith in
    record {
      lasting = v.lasting;
      inside = omega (arith, length-set c.slots next (pos 0));
      counted =
          ap (λ s. s -ℤ get_or c.slots next (pos 0)) v.counted
          ∙ sym (add_zero (sum c.slots -ℤ get_or c.slots next (pos 0)))
          ∙ sym (sum-set c.slots next (pos 0) below);
    }

roll_slots-IsValid : (n : ℕ) (c : Counter) → IsValid c → IsValid (roll_slots n c)
unfolding roll_slots
roll_slots-IsValid zero c v = v
roll_slots-IsValid (suc n) c v = roll_slots-IsValid n (roll_slot c) (roll_slot-IsValid c v)

rolled-IsValid : (t : ℕ) (c : Counter) (n : ℕ) → IsValid c → IsValid (rolled t c n)
rolled-IsValid t c n v = elim (Bool-cases (leb (length c.slots) n)) [
  | inl old ↦ rw old (clear-IsValid t c (omega (arith, v.inside)) v.lasting)
  | inr recent ↦ rw recent (roll_slots-IsValid n c v)
]

slots_passed-some :
    (t : ℕ) (c : Counter) → 0 < c.slot_duration → slots_passed t c ≡ some (passed t c)
unfolding slots_passed
slots_passed-some t c h =
    let nonzero : (c.slot_duration == 0) ≡ false = ground arith in rw nonzero refl

roll-some : (t : ℕ) (c : Counter) → IsValid c → roll t c ≡ some (rolled t c (passed t c))
unfolding roll
roll-some t c v = rw (slots_passed-some t c v.lasting) refl

-- a - b + (b + n) is a + n.
regroup : (a b n : ℤ) → (a -ℤ b) +ℤ (b +ℤ n) ≡ a +ℤ n
regroup a b n = omega int_laws

added-IsValid : (n : ℤ) (r : Counter) → IsValid r → IsValid (added n r)
added-IsValid n r w =
    let old = get_or r.slots r.tail (pos 0) in
    record {
      lasting = w.lasting;
      inside = omega (arith, length-set r.slots r.tail (old +ℤ n), w.inside);
      counted =
          ap (λ s. s +ℤ n) w.counted
          ∙ sym (regroup (sum r.slots) old n)
          ∙ sym (sum-set r.slots r.tail (old +ℤ n) w.inside);
    }

inc-some :
    (n : ℤ) (t : ℕ) (c : Counter) → IsValid c → inc n t c ≡ some (added n (rolled t c (passed t c)))
unfolding inc
inc-some n t c v = rw (roll-some t c v) refl

count_at-some :
    (t : ℕ) (c : Counter)
    → IsValid c
    → let r = rolled t c (passed t c) in count_at t c ≡ some (r.count, r)
unfolding count_at
count_at-some t c v = rw (roll-some t c v) refl

new_counter-IsValid :
    (window_size duration t : ℕ)
    → 0 < window_size
    → window_size ≤ duration
    → IsValid (new_counter window_size duration t)
unfolding new_counter
new_counter-IsValid window_size duration t h d = record {
  lasting = (le-div_iff_mul-le {x = 1} h).1 (omega arith);
  inside = omega (arith, length-replicate window_size);
  counted = sym (sum-replicate window_size);
}

-- The counters that calls of `Inc` and `Count` lead to.
pub data IsReached (window_size duration : ℕ) : Counter → Type 0 where
  made : (t : ℕ) → IsReached window_size duration (new_counter window_size duration t)
  incremented :
      {c next : Counter} (n : ℤ) (t : ℕ)
      → IsReached window_size duration c
      → inc n t c ≡ some next
      → IsReached window_size duration next
  counted :
      {c next : Counter} (t : ℕ) (count : ℤ)
      → IsReached window_size duration c
      → count_at t c ≡ some (count, next)
      → IsReached window_size duration next

pub IsReached-IsValid :
    {window_size duration : ℕ} {c : Counter}
    → IsReached window_size duration c
    → 0 < window_size
    → window_size ≤ duration
    → IsValid c
IsReached-IsValid {window_size} {duration} (made t) h d =
    new_counter-IsValid window_size duration t h d
IsReached-IsValid (incremented {c} n t r e) h d =
    let v = IsReached-IsValid r h d in
    let same = some_same (sym (inc-some n t c v) ∙ e) in
    subst IsValid same (added-IsValid n _ (rolled-IsValid t c (passed t c) v))
IsReached-IsValid (counted {c} t count r e) h d =
    let v = IsReached-IsValid r h d in
    let same = ap (λ (p : ℤ × Counter). p.1) (some_same (sym (count_at-some t c v) ∙ e)) in
    subst IsValid same (rolled-IsValid t c (passed t c) v)

-- Whatever calls were made on a counter of at least one slot, made with a duration of at least one
-- millisecond a slot, `Count` answers, without a division by zero, the sum of the slots of the window
-- as it then stands, and the tail is one of the slots.
pub count_at-sum :
    (window_size duration : ℕ) (c : Counter) (t : ℕ)
    → 0 < window_size
    → window_size ≤ duration
    → IsReached window_size duration c
    → (count : ℤ) × (next : Counter) × (count_at t c ≡ some (count, next))
      × (count ≡ sum next.slots)
      × (next.tail < length next.slots)
count_at-sum window_size duration c t h d r =
    let v = IsReached-IsValid r h d in
    let next = rolled t c (passed t c) in
    let w = rolled-IsValid t c (passed t c) v in
    (next.count, next, count_at-some t c v, w.counted, w.inside)

-- In a counter that is well-formed, where the time since the last roll spans the window or more, the
-- counts before it are forgotten: after an increment by `n` the count is `n`.
pub inc_after_window :
    (n : ℤ) (t : ℕ) (c : Counter)
    → IsValid c
    → length c.slots ≤ passed t c
    → Option.map (λ (next : Counter). next.count) (inc n t c) ≡ some n
unfolding clear
inc_after_window n t c v h =
    let old : leb (length c.slots) (passed t c) ≡ true = ground arith in
    rw (inc-some n t c v, old) (ap some (omega int_laws))

-- In a counter that is well-formed, where no slot has passed, an increment by `n` adds `n` to the
-- count.
pub inc_at_once :
    (n : ℤ) (t : ℕ) (c : Counter)
    → IsValid c
    → passed t c ≡ 0
    → Option.map (λ (next : Counter). next.count) (inc n t c) ≡ some (c.count +ℤ n)
unfolding roll_slots
inc_at_once n t c v h =
    let recent : leb (length c.slots) (passed t c) ≡ false = ground (arith, v.inside) in
    rw (inc-some n t c v, recent, h) refl

-- ===== src/TimeBasedCounter/Examples.antt =====
-- Runs of the counter of src/api_manager/utils/time_based_counter.cc and concrete cases of its
-- theorems.
use mathlib.Core.Option
use esp.Base.{Option, none, some, ◌*◌, ◌≤◌, ◌<◌, ◌≡◌, refl, length, arith}
use esp.Base.Int.{ℤ, pos, ◌+ℤ◌, ◌-ℤ◌}
use esp.TimeBasedCounter.{
  Counter, ticks_per_ms, new_counter, clear, passed, slots_passed, roll_slot, roll_slots, roll, inc,
  count_at,
}
use esp.TimeBasedCounter.Window.{
  sum, IsReached, made, incremented, count_at-sum, inc_after_window, inc_at_once, IsReached-IsValid,
  IsValid,
}

-- Three slots of 10 ms, in ticks of `ticks_per_ms`.
abbrev empty_counter : Counter
empty_counter = new_counter 3 30 0

-- A counter after a call, where it ends.
abbrev get_counter : Option Counter → Counter
get_counter none = empty_counter
get_counter (some c) = c

abbrev used_once : Counter
used_once = get_counter (inc (pos 2) 0 empty_counter)

abbrev used_counter : Counter
used_counter = get_counter (inc (pos 5) (12 * ticks_per_ms) used_once)

used_counter-IsReached : IsReached 3 30 used_counter
unfolding inc roll roll_slots roll_slot slots_passed new_counter clear
used_counter-IsReached =
    incremented (pos 5) (12 * ticks_per_ms) (incremented (pos 2) 0 (made 0) refl) refl

abbrev count_of : Option (ℤ × Counter) → Option ℤ
count_of = Option.map (λ (r : ℤ × Counter). r.0)

both_counted : count_of (count_at (12 * ticks_per_ms) used_counter) ≡ some (pos 7)
unfolding count_at inc roll roll_slots roll_slot slots_passed new_counter clear ◌+ℤ◌ ◌-ℤ◌
both_counted = refl

first_forgotten : count_of (count_at (35 * ticks_per_ms) used_counter) ≡ some (pos 5)
unfolding count_at inc roll roll_slots roll_slot slots_passed new_counter clear ◌+ℤ◌ ◌-ℤ◌
first_forgotten = refl

-- A slot of less than a millisecond.
divided_by_zero : count_at 0 (new_counter 100 50 0) ≡ none
unfolding count_at roll slots_passed new_counter
divided_by_zero = refl

all_passed : length used_counter.slots ≤ passed (90 * ticks_per_ms) used_counter
unfolding inc roll roll_slots roll_slot slots_passed new_counter clear
all_passed = omega arith

none_passed : passed (13 * ticks_per_ms) used_counter ≡ 0
unfolding inc roll roll_slots roll_slot slots_passed new_counter clear
none_passed = refl

count_at-sum_example :
    (count : ℤ) × (next : Counter) × (count_at (35 * ticks_per_ms) used_counter
      ≡ some (count, next))
    × (count ≡ sum next.slots)
    × (next.tail < length next.slots)
count_at-sum_example =
    count_at-sum 3 30 used_counter (35 * ticks_per_ms) (omega arith) (omega arith)
      used_counter-IsReached

used_counter-IsValid : IsValid used_counter
used_counter-IsValid = IsReached-IsValid used_counter-IsReached (omega arith) (omega arith)

inc_after_window_test :
    Option.map (λ (c : Counter). c.count) (inc (pos 4) (90 * ticks_per_ms) used_counter)
    ≡ some (pos 4)
inc_after_window_test =
    inc_after_window (pos 4) (90 * ticks_per_ms) used_counter used_counter-IsValid all_passed

used_now :
    Option.map (λ (c : Counter). c.count) (inc (pos 4) (13 * ticks_per_ms) used_counter)
    ≡ some (used_counter.count +ℤ pos 4)
used_now = inc_at_once (pos 4) (13 * ticks_per_ms) used_counter used_counter-IsValid none_passed

-- ===== src/TimeBasedCounter.antt =====
-- The sliding-window counter of src/api_manager/utils/time_based_counter.{h,cc}. A tick is a number of
-- nanoseconds, the period of the system clock; counts are integers, and int overflow is left aside.
-- A division by zero is `none`.
pub mod Window
pub mod Examples
use mathlib.Core.Option
use esp.Base.{
  Option, none, some, ◌==◌, ℕ, zero, suc, ◌+◌, ◌-◌, ◌*◌, ◌/◌, ◌%◌, ◌^◌, Bool, true, false, List, [],
  ◌∷◌, length, get_or, set, replicate, ltb, leb, if◌then◌else◌,
}
use esp.Base.Int.{ℤ, pos, ◌+ℤ◌, ◌-ℤ◌}

pub record Counter : Type 0 where
  pub slots : List ℤ
  pub slot_duration : ℕ
  pub count : ℤ
  pub tail : ℕ
  pub last_time : ℕ

abbrev pub ticks_per_ms : ℕ
ticks_per_ms = 1000000

-- The constructor: the duration is in milliseconds.
pub new_counter : ℕ → ℕ → ℕ → Counter
new_counter window_size duration t = record {
  slots = replicate window_size (pos 0);
  slot_duration = duration / window_size;
  count = pos 0;
  tail = 0;
  last_time = t;
}

pub clear : ℕ → Counter → Counter
clear t c = record {
  slots = replicate (length c.slots) (pos 0);
  slot_duration = c.slot_duration;
  count = pos 0;
  tail = 0;
  last_time = t;
}

-- `uint32_t(d.count() / slot_duration_.count())`, where `d` is negative if the time runs backwards.
abbrev pub passed : ℕ → Counter → ℕ
passed t c =
    if leb c.last_time t
    then ((t - c.last_time) / ticks_per_ms / c.slot_duration) % 2 ^ 32
    else (2 ^ 32 - ((c.last_time - t) / ticks_per_ms / c.slot_duration) % 2 ^ 32) % 2 ^ 32

-- A division by a slot duration of zero has no result.
pub slots_passed : ℕ → Counter → Option ℕ
slots_passed t c = if c.slot_duration == 0 then none else some (passed t c)

-- One round of the loop of `Roll`.
pub roll_slot : Counter → Counter
roll_slot c =
    let next = (c.tail + 1) % length c.slots in
    record {
      slots = set c.slots next (pos 0);
      slot_duration = c.slot_duration;
      count = c.count -ℤ get_or c.slots next (pos 0);
      tail = next;
      last_time = c.last_time + c.slot_duration * ticks_per_ms;
    }

pub roll_slots : ℕ → Counter → Counter
roll_slots zero c = c
roll_slots (suc n) c = roll_slots n (roll_slot c)

-- `Roll`, given the number of slots that have passed.
abbrev pub rolled : ℕ → Counter → ℕ → Counter
rolled t c n = if leb (length c.slots) n then clear t c else roll_slots n c

pub roll : ℕ → Counter → Option Counter
roll t c = Option.map (rolled t c) (slots_passed t c)

abbrev pub added : ℤ → Counter → Counter
added n r = record r {
  slots = set r.slots r.tail (get_or r.slots r.tail (pos 0) +ℤ n);
  count = r.count +ℤ n;
}

pub inc : ℤ → ℕ → Counter → Option Counter
inc n t c = Option.map (added n) (roll t c)

-- `Count` rolls the window too.
pub count_at : ℕ → Counter → Option (ℤ × Counter)
count_at t c = Option.map (λ (r : Counter). (r.count, r)) (roll t c)

-- ===== src/CloudTrace/Stream.antt =====
-- What src/api_manager/cloud_trace/cloud_trace.cc uses of the streams of std: `getline` with a
-- separator, and `<<` and `>>` of numbers, the latter in the C locale.
pub mod Laws
use esp.Base.{
  ℕ, zero, suc, ◌+◌, ◌-◌, ◌*◌, ◌/◌, ◌%◌, ◌^◌, Bool, true, false, ◌&&◌, Option, none, some, List, [],
  ◌∷◌, ◌++◌, Str, ltb, leb, ◌==◌, if◌then◌else◌,
}
use esp.Base.Int.{ℤ, pos, negsuc}
use esp.RewriteRule.{isdigit, isspace, digits_value}

abbrev pub push : ℕ → List Str → List Str
push x [] = (x ∷ []) ∷ []
push x (f ∷ fs) = (x ∷ f) ∷ fs

-- What `getline(stream, item, c)` reads until it fails. After a last separator there is nothing.
unfoldable pub fields : ℕ → Str → List Str
fields c [] = []
fields c (x ∷ s) = let rest = fields c s in if x == c then [] ∷ rest else push x rest

-- `stream << n` of an unsigned number, with the number of digits at most.
unfoldable pub decimal : ℕ → ℕ → Str
decimal zero n = []
decimal (suc k) n =
    let front = decimal k (n / 10) in
    if ltb n 10 then (n + b'0') ∷ [] else front ++ ((n % 10 + b'0') ∷ [])

-- `stream << std::setfill('0') << std::setw(w) << std::hex << n` of a number below 16 ^ w.
abbrev pub hex_digit : ℕ → ℕ
hex_digit d = if ltb d 10 then d + b'0' else d - 10 + b'a'

unfoldable pub hexadecimal : ℕ → ℕ → Str
hexadecimal zero n = []
hexadecimal (suc w) n = hexadecimal w (n / 16) ++ (hex_digit (n % 16) ∷ [])

abbrev pub all_digits : Str → Bool
all_digits [] = true
all_digits (c ∷ s) = isdigit c && all_digits s

-- The digits of a number, up to the end of the stream.
unfoldable pub read_digits : Str → Option ℕ
read_digits [] = none
read_digits (c ∷ s) = if all_digits (c ∷ s) then some (digits_value 0 (c ∷ s)) else none

abbrev pub with_sign : Bool → Option ℕ → Option (Bool × ℕ)
with_sign minus none = none
with_sign minus (some n) = some (minus, n)

abbrev pub read_sign : Str → Option (Bool × ℕ)
read_sign [] = none
read_sign (c ∷ s) =
    if c == b'-'
    then with_sign true (read_digits s)
    else if c == b'+'
    then with_sign false (read_digits s)
    else with_sign false (read_digits (c ∷ s))

-- Whether there is a minus, and the number. `none` is a failure, or an end that is not reached.
unfoldable pub read_number : Str → Option (Bool × ℕ)
read_number [] = none
read_number (c ∷ s) = let rest = read_number s in if isspace c then rest else read_sign (c ∷ s)

abbrev pub negated : ℕ → ℤ
negated zero = pos 0
negated (suc k) = negsuc k

abbrev pub int_of : Option (Bool × ℕ) → Option ℤ
int_of none = none
int_of (some (true, n)) = if leb n (2 ^ 31) then some (negated n) else none
int_of (some (false, n)) = if ltb n (2 ^ 31) then some (pos n) else none

-- `>>` of an `int`, where it does not fail and `eof()` holds after it.
unfoldable pub read_int : Str → Option ℤ
read_int s = int_of (read_number s)

abbrev pub uint64_of : Option (Bool × ℕ) → Option ℕ
uint64_of none = none
uint64_of (some (minus, n)) =
    if ltb n (2 ^ 64) then some (if minus then (2 ^ 64 - n) % 2 ^ 64 else n) else none

-- `>>` of a `uint64_t`, likewise. A minus wraps around.
unfoldable pub read_uint64 : Str → Option ℕ
read_uint64 s = uint64_of (read_number s)

-- ===== src/Base/Text.antt =====
-- Byte strings: a `std::string` is the list of its bytes.
use Prim.Native.Nat.{ℕ, suc}
use Prim.Native.Char.{code}
use Prim.Native.String.{String}
use mathlib.Core.Path.{◌≡◌, refl}
use mathlib.Core.Logic.{◌↔◌}
use mathlib.Core.Bool.{Bool, true, false, ◌&&◌, ◌||◌}
use mathlib.Core.Option
use mathlib.Core.Option.{Option, none, some}
use mathlib.Core.List.{List, [], ◌∷◌}
use native.Mathlib.Omega.{arith}
use esp.Base.Tests.{◌==◌, if◌then◌else◌}

abbrev pub Str : Type 0
Str = List ℕ

-- The bytes of an ASCII literal.
abbrev pub bytes : String → Str
bytes String.[] = []
bytes (String.◌∷◌ c s) = code c ∷ bytes s

-- `operator==` of `std::string`.
abbrev pub str_eq : Str → Str → Bool
str_eq [] [] = true
str_eq [] (y ∷ ys) = false
str_eq (x ∷ xs) [] = false
str_eq (x ∷ xs) (y ∷ ys) = x == y && str_eq xs ys

pub str_eq_iff : (s t : Str) → (str_eq s t ≡ true) ↔ (s ≡ t)
str_eq_iff [] [] = ground arith
str_eq_iff [] (y ∷ t) = ground arith
str_eq_iff (x ∷ s) [] = ground arith
str_eq_iff (x ∷ s) (y ∷ t) = ground (arith, str_eq_iff s t)

pub str_eq_refl : (s : Str) → str_eq s s ≡ true
str_eq_refl s = (str_eq_iff s s).1 refl

pub str_eq_sym : (s t : Str) → str_eq s t ≡ str_eq t s
str_eq_sym s t = ground (arith, str_eq_iff s t, str_eq_iff t s)

-- Membership in a `std::set<std::string>`.
abbrev pub contains : List Str → Str → Bool
contains [] s = false
contains (t ∷ ts) s = str_eq t s || contains ts s

-- `s.compare(0, n, prefix) == 0`.
abbrev pub starts_with : Str → Str → Bool
starts_with [] s = true
starts_with (p ∷ ps) [] = false
starts_with (p ∷ ps) (c ∷ s) = p == c && starts_with ps s

-- `s.find_first_of(c)`, with `none` for `npos`.
abbrev pub find_first : ℕ → Str → Option ℕ
find_first c [] = none
find_first c (x ∷ s) = if x == c then some 0 else Option.map suc (find_first c s)

-- `s.find_last_of(c)`, with `none` for `npos`.
abbrev pub find_last : ℕ → Str → Option ℕ
find_last c [] = none
find_last c (x ∷ s) = elim (find_last c s) [
  | some i ↦ some (suc i)
  | none ↦ if x == c then some 0 else none
]

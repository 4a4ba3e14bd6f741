-- ===== src/Common/Selector/Power.antt =====
-- `powerSet` of pkg/common/selector/set_utils.go: a counter runs over the masks 1, 2, … and the
-- digits of its binary text, read right to left, enable the selectors of the array.
-- `none` stands for an index out of range, on which Go panics, and for a set of 63 selectors or
-- more, where Go leaves the conversion of the float64 2^n to an int open.
pub mod Masks
pub mod Round
pub mod Subsets
pub mod Enumeration
use spiffe_spire.Prelude.{
  ℕ, zero, suc, ◌+◌, ◌-◌, ◌/◌, ◌%◌, ◌^◌, ◌≡◌, refl, Option, none, some, List, [], ◌∷◌, Bool, true,
  false, ◌==◌, nat_comparable, if◌then◌else◌, ltb, length, get_elem?, ◌>>=◌,
}
use spiffe_spire.Common.Selector.{SelectorPtr, Set, add, array, size}

-- strconv's digit loop for base 2, the last digit first: the digits stand before those in `acc`.
-- The number at least halves in each round, so `n` rounds are enough.
unfoldable pub format_bits : ℕ → ℕ → List ℕ → List ℕ
format_bits zero n acc = (b'0' + n) ∷ acc
format_bits (suc fuel) n acc =
    let rest = format_bits fuel (n / 2) ((b'0' + n % 2) ∷ acc) in
    if ltb n 2 then (b'0' + n) ∷ acc else rest

-- `strings.Split(strconv.FormatUint(uint64(i), 2), "")`
unfoldable pub format_uint : ℕ → List ℕ
unfolding format_bits
format_uint i = format_bits i i []

-- `set.Add(sarr[position])` for a digit 1; an index out of range is a panic.
unfoldable pub enable : List SelectorPtr → Set → ℕ → ℕ → Option Set
enable sarr set position digit =
    if digit == b'1' then (do p ← get_elem? sarr position; some (add p set)) else some set

-- One round of the inner loop.
unfoldable pub round : List SelectorPtr → List ℕ → ℕ → Set → Option Set
round sarr binary position set = do
  digit ← get_elem? binary (length binary - position - 1)
  enable sarr set position digit

-- The inner loop, with the rounds that are left.
unfoldable pub walk : List SelectorPtr → List ℕ → ℕ → ℕ → Set → Option Set
walk sarr binary zero position set = some set
walk sarr binary (suc left) position set = do
  set' ← round sarr binary position set
  walk sarr binary left (position + 1) set'

unfoldable pub combination : List SelectorPtr → ℕ → Option Set
combination sarr i = let binary = format_uint i in walk sarr binary (length binary) 0 []

-- The outer loop from counter `i`, with the rounds that are left; the channel as a list.
unfoldable pub combinations : List SelectorPtr → ℕ → ℕ → Option (List Set)
combinations sarr zero i = some []
combinations sarr (suc left) i = do
  set ← combination sarr i
  rest ← combinations sarr left (i + 1)
  some (set ∷ rest)

-- `sarr` is the result of `s.Array()`, the order of one iteration over the set.
unfoldable pub power_set : Set → Option (List Set)
power_set s = if ltb (size s) 63 then combinations (array s) (2 ^ size s - 1) 1 else none

format_six : format_uint 6 ≡ b'1' ∷ b'1' ∷ b'0' ∷ []
unfolding format_uint
format_six = refl

-- ===== src/Common/Selector/Power/Round.antt =====
-- The inner loop of `powerSet` against `subset_of`: no index is out of range, and the set that the
-- counter `i` makes is the one of the selectors at the bits of `i`.
use mathlib.Core.Path.{fun_ext}
use native.Mathlib.Numerals.{add-one}
use spiffe_spire.Prelude.{
  ℕ, zero, suc, ◌+◌, ◌-◌, ◌/◌, ◌%◌, ◌^◌, ◌≤◌, ◌<◌, ◌≡◌, refl, ap, ◌∙◌, Option, some, List, [], ◌∷◌,
  ◌++◌, ◌==◌, nat_comparable, if◌then◌else◌, ltb, ltb→lt, length, length-append, get_elem?,
  get_elem?-append_left, get_elem?-append_length, Bool, Bool-cases, ◌>>=◌, inl, inr, arith, true,
  false,
}
use spiffe_spire.Common.Selector.{SelectorPtr, Set, add, add_all, new_set}
use spiffe_spire.Common.Selector.Power.{format_bits, format_uint, enable, round, walk, combination}
use spiffe_spire.Common.Selector.Power.Masks.{
  subset_of, subset_of-zero, format_bits_last, half-lt-pow,
}

-- The digit that a text with one more digit has one place further to the left.
digit-shift :
    (digits : List ℕ) (d position : ℕ)
    → position < length digits
    → get_elem? (digits ++ d ∷ []) (length (digits ++ d ∷ []) - (position + 1) - 1)
      ≡ get_elem? digits (length digits - position - 1)
digit-shift digits d position h =
    ap (get_elem? (digits ++ d ∷ [])) (omega (arith, length-append digits (d ∷ [])))
    ∙ get_elem?-append_left digits (d ∷ []) (length digits - position - 1) (omega arith)

digit-first :
    (digits : List ℕ) (d : ℕ)
    → get_elem? (digits ++ d ∷ []) (length (digits ++ d ∷ []) - 0 - 1) ≡ some d
digit-first digits d =
    ap (get_elem? (digits ++ d ∷ [])) (omega (arith, length-append digits (d ∷ [])))
    ∙ get_elem?-append_length digits d

enable-shift :
    (x : SelectorPtr) (ys : List SelectorPtr) (set : Set) (position digit : ℕ)
    → enable (x ∷ ys) set (position + 1) digit ≡ enable ys set position digit
unfolding enable
enable-shift x ys set position digit = rw (add-one position) refl

round-shift :
    (x : SelectorPtr) (ys : List SelectorPtr) (digits : List ℕ) (d position : ℕ) (set : Set)
    → position < length digits
    → round (x ∷ ys) (digits ++ d ∷ []) (position + 1) set ≡ round ys digits position set
unfolding round
round-shift x ys digits d position set h =
    rw (digit-shift digits d position h, round)
      (ap (λ (f : ℕ → Option Set). get_elem? digits (length digits - position - 1) >>= f)
        (fun_ext (enable-shift x ys set position)))

walk-shift :
    (x : SelectorPtr) (ys : List SelectorPtr) (digits : List ℕ) (d left position : ℕ) (set : Set)
    → position + left ≤ length digits
    → walk (x ∷ ys) (digits ++ d ∷ []) left (position + 1) set ≡ walk ys digits left position set
unfolding walk
walk-shift x ys digits d zero position set h = refl
walk-shift x ys digits d (suc left) position set h =
    rw (round-shift x ys digits d position set (omega arith), walk)
      (ap (λ (f : Set → Option Set). round ys digits position set >>= f)
        (fun_ext λ set'. walk-shift x ys digits d left (position + 1) set' (omega arith)))

-- The first round reads the lowest digit.
round-first :
    (x : SelectorPtr) (ys : List SelectorPtr) (digits : List ℕ) (d : ℕ) (set : Set)
    → round (x ∷ ys) (digits ++ d ∷ []) 0 set ≡ some (if d == b'1' then add x set else set)
unfolding round enable
round-first x ys digits d set = rw (digit-first digits d, round) (ground arith)

walk-first :
    (x : SelectorPtr) (ys : List SelectorPtr) (digits : List ℕ) (d : ℕ) (set : Set)
    → walk (x ∷ ys) (digits ++ d ∷ []) (length (digits ++ d ∷ [])) 0 set
      ≡ walk ys digits (length digits) 0 (if d == b'1' then add x set else set)
unfolding walk
walk-first x ys digits d set =
    rw (length-append digits (d ∷ []), add-one (length digits))
      (rw (round-first x ys digits d set, walk)
        (walk-shift x ys digits d (length digits) 0 _ (omega arith)))

add_all-if :
    (b : Bool) (x : SelectorPtr) (set : Set) (rest : List SelectorPtr)
    → add_all (if b then add x set else set) rest ≡ add_all set (if b then x ∷ rest else rest)
unfolding add_all
add_all-if true x set rest = refl
add_all-if false x set rest = refl

digit_test : (r : ℕ) → (b'0' + r == b'1') ≡ (r == 1)
digit_test r = ground arith

abbrev bits : ℕ → ℕ → List ℕ
bits fuel n = format_bits fuel n []

walk-one :
    (fuel n : ℕ) (x : SelectorPtr) (ys : List SelectorPtr) (set : Set)
    → 0 < n
    → n < 2
    → walk (x ∷ ys) (bits (suc fuel) n) (length (bits (suc fuel) n)) 0 set
      ≡ some (add_all set (subset_of (x ∷ ys) n))
unfolding walk round enable format_bits add_all
walk-one fuel zero x ys set pos lt = absurd (omega arith)
walk-one fuel (suc zero) x ys set pos lt = rw (subset_of-zero ys) refl
walk-one fuel (suc (suc n)) x ys set pos lt = absurd (omega arith)

walk-format_bits :
    (fuel n : ℕ) (xs : List SelectorPtr) (set : Set)
    → n ≤ fuel
    → 0 < n
    → n < 2 ^ length xs
    → walk xs (bits fuel n) (length (bits fuel n)) 0 set ≡ some (add_all set (subset_of xs n))
walk-format_bits zero n xs set le pos lt = absurd (omega arith)
walk-format_bits (suc fuel) n [] set le pos lt = absurd (omega arith)
walk-format_bits (suc fuel) n (x ∷ ys) set le pos lt = elim (Bool-cases (ltb n 2)) [
  | inl small ↦ walk-one fuel n x ys set pos (ltb→lt n 2 small)
  | inr large ↦ rw (format_bits_last fuel n (ground arith)) (
      walk-first x ys (bits fuel (n / 2)) (b'0' + n % 2) set
      ∙ walk-format_bits fuel (n / 2) ys _ (omega arith) (ground arith)
          (half-lt-pow n (length ys) lt)
      ∙ ap some (rw (digit_test (n % 2)) (add_all-if (n % 2 == 1) x set (subset_of ys (n / 2)))))
]

-- No round of the inner loop panics, and the set is that of the selectors at the bits of `i`.
pub combination-subset_of :
    (sarr : List SelectorPtr) (i : ℕ)
    → 0 < i
    → i < 2 ^ length sarr
    → combination sarr i ≡ some (new_set (subset_of sarr i))
unfolding combination format_uint new_set
combination-subset_of sarr i pos lt = walk-format_bits i i sarr [] (omega arith) pos lt

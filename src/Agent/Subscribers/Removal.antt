-- ===== src/Agent/Subscribers/Removal.antt =====
-- `remove` of subscriber.go shifts the slice that it ranges over. On a slice that holds each id once
-- it is the removal of the id all the same.
use mathlib.Core.List.Memᴰ
use mathlib.Core.List.{append_assoc}
use Prim.Native.Nat.add
use spiffe_spire.Prelude.{
  ℕ, zero, suc, ◌+◌, ◌-◌, ◌≡◌, ◌≢◌, refl, sym, ap, ◌∙◌, inl, inr, true, false, some, List, [], ◌∷◌,
  ◌++◌, Memᴰ, arith, ◌==◌, nat_comparable, if◌then◌else◌, beq→eq, length, length-append, get_elem?,
  take, IsNodup, Bool-cases, Option-cases,
}
use spiffe_spire.Agent.Subscribers.{copy_down, remove_uid}

pub without : ℕ → List ℕ → List ℕ
without sid [] = []
without sid (x ∷ xs) = let rest = without sid xs in if x == sid then rest else x ∷ rest

pub without-nil : (sid : ℕ) → without sid [] ≡ []
unfolding without
without-nil sid = refl

without_absent : (sid : ℕ) (xs : List ℕ) → ¬ Memᴰ sid xs → without sid xs ≡ xs
unfolding without
without_absent sid [] h = refl
without_absent sid (x ∷ xs) h = elim (Bool-cases (x == sid)) [
  | inl same ↦ absurd (h (Memᴰ.head (sym (beq→eq x sid same))))
  | inr other ↦ rw other (ap (◌∷◌ x) (without_absent sid xs (λ m. h (Memᴰ.tail m))))
]

pub without-mem : (sid : ℕ) (xs : List ℕ) (x : ℕ) → Memᴰ x (without sid xs) → Memᴰ x xs
unfolding without
without-mem sid [] x m = m
without-mem sid (y ∷ xs) x m = elim (Bool-cases (y == sid)) [
  | inl same ↦ Memᴰ.tail (without-mem sid xs x (rw same at m))
  | inr other ↦ elim (Memᴰ.cases_cons (rw other at m)) [
    | inl e ↦ Memᴰ.head e
    | inr m' ↦ Memᴰ.tail (without-mem sid xs x m')
  ]
]

pub mem-without : (sid : ℕ) (xs : List ℕ) (x : ℕ) → x ≢ sid → Memᴰ x xs → Memᴰ x (without sid xs)
unfolding without
mem-without sid [] x ne m = m
mem-without sid (y ∷ xs) x ne m = elim (Bool-cases (y == sid)) [
  | inl same ↦ rw same (elim (Memᴰ.cases_cons m) [
    | inl e ↦ absurd (ne (e ∙ beq→eq y sid same))
    | inr m' ↦ mem-without sid xs x ne m'
  ])
  | inr other ↦ rw other (elim (Memᴰ.cases_cons m) [
    | inl e ↦ Memᴰ.head e
    | inr m' ↦ Memᴰ.tail (mem-without sid xs x ne m')
  ])
]

pub not-mem-without : (sid : ℕ) (xs : List ℕ) → ¬ Memᴰ sid (without sid xs)
unfolding without
not-mem-without sid [] m = Memᴰ.not-nil m
not-mem-without sid (y ∷ xs) m = elim (Bool-cases (y == sid)) [
  | inl same ↦ not-mem-without sid xs (rw same at m)
  | inr other ↦ elim (Memᴰ.cases_cons (rw other at m)) [
    | inl e ↦ ground (arith, nat_comparable.test_iff y sid)
    | inr m' ↦ not-mem-without sid xs m'
  ]
]

pub without-IsNodup : (sid : ℕ) (xs : List ℕ) → IsNodup xs → IsNodup (without sid xs)
unfolding without
without-IsNodup sid [] d = tt
without-IsNodup sid (y ∷ xs) d = elim (Bool-cases (y == sid)) [
  | inl same ↦ rw same (without-IsNodup sid xs d.1)
  | inr other ↦ rw other ((λ m. d.0 (without-mem sid xs y m)), without-IsNodup sid xs d.1)
]

get_elem?-mem : (xs : List ℕ) (i : ℕ) {x : ℕ} → get_elem? xs i ≡ some x → Memᴰ x xs
get_elem?-mem [] i e = cc
get_elem?-mem (y ∷ xs) zero e = Memᴰ.head (ground arith)
get_elem?-mem (y ∷ xs) (suc i) e = Memᴰ.tail (get_elem?-mem xs i e)

get_elem?-append_at :
    (pre : List ℕ) (x : ℕ) (rest : List ℕ) → get_elem? (pre ++ x ∷ rest) (length pre) ≡ some x
get_elem?-append_at [] x rest = refl
get_elem?-append_at (y ∷ pre) x rest = get_elem?-append_at pre x rest

copy_down-append :
    (pre : List ℕ) (x : ℕ) (rest : List ℕ)
    → copy_down (length pre) (pre ++ x ∷ rest) ≡ pre ++ copy_down 0 (x ∷ rest)
unfolding copy_down
copy_down-append [] x rest = refl
copy_down-append (y ∷ pre) x rest = ap (◌∷◌ y) (copy_down-append pre x rest)

take-append_length :
    (pre ys : List ℕ) (n : ℕ) → take (length pre + n) (pre ++ ys) ≡ pre ++ take n ys
take-append_length [] ys n = rw (add.zero n)
take-append_length (z ∷ pre) ys n =
    rw (add.suc (length pre) n) (ap (◌∷◌ z) (take-append_length pre ys n))

take-copy_down : (x : ℕ) (rest : List ℕ) → take (length rest) (copy_down 0 (x ∷ rest)) ≡ rest
unfolding copy_down
take-copy_down x [] = refl
take-copy_down x (y ∷ rest) = ap (◌∷◌ y) (take-copy_down y rest)

-- The slice that the append leaves is the old one without its i-th element.
take-copy_down_at :
    (pre : List ℕ) (x : ℕ) (rest : List ℕ)
    → take (length (pre ++ x ∷ rest) - 1) (copy_down (length pre) (pre ++ x ∷ rest)) ≡ pre ++ rest
take-copy_down_at pre x rest =
    rw (shorter, copy_down-append pre x rest)
      (take-append_length pre (copy_down 0 (x ∷ rest)) (length rest)
        ∙ ap (◌++◌ pre) (take-copy_down x rest))
  where
    shorter : length (pre ++ x ∷ rest) - 1 ≡ length pre + length rest
    shorter = omega (arith, length-append pre (x ∷ rest))

copy_down-mem :
    (x y : ℕ) (rest : List ℕ) {u : ℕ} → Memᴰ u (copy_down 0 (x ∷ y ∷ rest)) → Memᴰ u (y ∷ rest)
unfolding copy_down
copy_down-mem x y [] m = elim (Memᴰ.cases_cons m) [ inl e ↦ Memᴰ.head e | inr m' ↦ m' ]
copy_down-mem x y (z ∷ rest) m = elim (Memᴰ.cases_cons m) [
  | inl e ↦ Memᴰ.head e
  | inr m' ↦ Memᴰ.tail (copy_down-mem y z rest m')
]

remove_uid_absent :
    (sid left i : ℕ) (sids kept : List ℕ) → ¬ Memᴰ sid sids → remove_uid sid left i sids kept ≡ kept
unfolding remove_uid
remove_uid_absent sid zero i sids kept h = refl
remove_uid_absent sid (suc left) i sids kept h = elim (Option-cases (get_elem? sids i)) [
  | inl over ↦ rw (over, remove_uid) refl
  | inr (uid, e) ↦ elim (Bool-cases (uid == sid)) [
    | inl same ↦ absurd (h (rw (beq→eq uid sid same) at (get_elem?-mem sids i e)))
    | inr other ↦ rw (e, remove_uid) (rw other (remove_uid_absent sid left (i + 1) sids kept h))
  ]
]

-- The last place keeps its value, so an id that was the last one is not looked at again.
remove_uid_hit :
    (sid : ℕ) (pre : List ℕ) (x : ℕ) (rest kept : List ℕ)
    → ¬ Memᴰ sid pre
    → ¬ Memᴰ sid rest
    → remove_uid sid (length rest) (length pre + 1) (copy_down (length pre) (pre ++ x ∷ rest)) kept
      ≡ kept
unfolding remove_uid
remove_uid_hit sid pre x [] kept before after = refl
remove_uid_hit sid pre x (y ∷ rest) kept before after =
    remove_uid_absent sid (length (y ∷ rest)) (length pre + 1) _ kept (
      rw (copy_down-append pre x (y ∷ rest)) (λ m. elim (Memᴰ.append_cases pre m) [
        | inl m' ↦ before m'
        | inr m' ↦ after (copy_down-mem x y rest m')
      ]))

scan :
    (sid : ℕ) (pre rest : List ℕ)
    → ¬ Memᴰ sid pre
    → IsNodup rest
    → remove_uid sid (length rest) (length pre) (pre ++ rest) (pre ++ rest)
      ≡ pre ++ without sid rest
unfolding remove_uid without
scan sid pre [] before d = refl
scan sid pre (x ∷ rest) before d = elim (Bool-cases (x == sid)) [
  | inl same ↦
      rw (get_elem?-append_at pre x rest, remove_uid)
        (rw (same, take-copy_down_at pre x rest)
          (remove_uid_hit sid pre x rest (pre ++ rest) before (gone same)
            ∙ sym (ap (◌++◌ pre) (without_absent sid rest (gone same)))))
  | inr other ↦
      rw (get_elem?-append_at pre x rest, remove_uid)
        (rw other (
          rw (regroup, ← longer)
            (scan sid (pre ++ x ∷ []) rest (still other) d.1
              ∙ append_assoc pre (x ∷ []) (without sid rest))))
]
  where
    gone : (x == sid) ≡ true → ¬ Memᴰ sid rest
    gone same = rw (← beq→eq x sid same) d.0

    regroup : pre ++ x ∷ rest ≡ (pre ++ x ∷ []) ++ rest
    regroup = sym (append_assoc pre (x ∷ []) rest)

    longer : length (pre ++ x ∷ []) ≡ length pre + 1
    longer = length-append pre (x ∷ [])

    still : (x == sid) ≡ false → ¬ Memᴰ sid (pre ++ x ∷ [])
    still other m = elim (Memᴰ.append_cases pre m) [
      | inl m' ↦ before m'
      | inr m' ↦ ground (arith, nat_comparable.test_iff x sid, Memᴰ.eq_of_singleton m')
    ]

-- On a slice that holds each id once, the loop of `remove` takes the id out, and nothing else.
pub remove_uid-without :
    (sid : ℕ) (sids : List ℕ)
    → IsNodup sids
    → remove_uid sid (length sids) 0 sids sids ≡ without sid sids
remove_uid-without sid sids d = scan sid [] sids Memᴰ.not-nil d

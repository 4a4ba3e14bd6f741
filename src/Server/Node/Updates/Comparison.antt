-- ===== src/Server/Node/Updates/Comparison.antt =====
-- The comparison of registration entries answers true for equal ones alone.
use spiffe_spire.Prelude.{
  ◌≡◌, refl, ap, inl, inr, String, Bool, true, ◌&&◌, ◌==◌, beq→eq, nat_comparable,
  string_comparable, List, [], ◌∷◌, Memᴰ, arith, Bool-cases,
}
use spiffe_spire.Prelude.Int.{ℤ, pos, negsuc}
use spiffe_spire.Common.Selector.{Selector, selector_comparable}
use spiffe_spire.Common.Messages.{RegistrationEntry}
use spiffe_spire.Server.Node.Updates.{
  same_selectors, same_texts, same_int, deep_equal, exists_equal,
}

and_true : (a b : Bool) → (a && b) ≡ true → (a ≡ true) × (b ≡ true)
and_true a b h = ground arith

same_selectors-eq : (a b : List Selector) → same_selectors a b ≡ true → a ≡ b
unfolding same_selectors
same_selectors-eq [] [] h = refl
same_selectors-eq [] (y ∷ ys) h = cc h
same_selectors-eq (x ∷ xs) [] h = cc h
same_selectors-eq (x ∷ xs) (y ∷ ys) h =
    let (first, rest) = and_true (x == y) (same_selectors xs ys) h in
    rw (beq→eq x y first, same_selectors-eq xs ys rest) refl

same_texts-eq : (a b : List String) → same_texts a b ≡ true → a ≡ b
unfolding same_texts
same_texts-eq [] [] h = refl
same_texts-eq [] (y ∷ ys) h = cc h
same_texts-eq (x ∷ xs) [] h = cc h
same_texts-eq (x ∷ xs) (y ∷ ys) h =
    let (first, rest) = and_true (x == y) (same_texts xs ys) h in
    rw (beq→eq x y first, same_texts-eq xs ys rest) refl

same_int-eq : (a b : ℤ) → same_int a b ≡ true → a ≡ b
same_int-eq (pos a) (pos b) h = ap pos (beq→eq a b h)
same_int-eq (pos a) (negsuc b) h = cc h
same_int-eq (negsuc a) (pos b) h = cc h
same_int-eq (negsuc a) (negsuc b) h = ap negsuc (beq→eq a b h)

deep_equal-eq : (a b : RegistrationEntry) → deep_equal a b ≡ true → a ≡ b
unfolding deep_equal
deep_equal-eq a b h =
    let (e1, h1) = and_true _ _ h in
    let (e2, h2) = and_true _ _ h1 in
    let (e3, h3) = and_true _ _ h2 in
    let (e4, h4) = and_true _ _ h3 in
    let (e5, e6) = and_true _ _ h4 in
    cc (
      same_selectors-eq a.selectors b.selectors e1,
      beq→eq a.parent_id b.parent_id e2,
      beq→eq a.spiffe_id b.spiffe_id e3,
      same_int-eq a.ttl b.ttl e4,
      same_texts-eq a.fb_spiffe_ids b.fb_spiffe_ids e5,
      beq→eq a.entry_id b.entry_id e6,
    )

pub exists_equal-mem :
    (e : RegistrationEntry) (old : List RegistrationEntry) → exists_equal e old ≡ true → Memᴰ e old
unfolding exists_equal
exists_equal-mem e [] h = cc h
exists_equal-mem e (o ∷ rest) h = elim (Bool-cases (deep_equal e o)) [
  | inl here ↦ Memᴰ.head (deep_equal-eq e o here)
  | inr not_here ↦ Memᴰ.tail (exists_equal-mem e rest (rw not_here at h))
]

-- ===== src/Server/Gorm/Laws.antt =====
-- What gorm documents of its statements, while the database answers them: `live` are the rows that
-- its queries see, `kept` those that are stored, the ones deleted softly among them.
use mathlib.Core.List.Memᴰ
use spiffe_spire.Prelude.{
  ℕ, String, ◌≡◌, refl, inl, inr, Bool, true, false, false≢true, ◌∙◌, Option-cases, not, ◌&&◌,
  arith, Option, none, some, List, [], ◌∷◌, ◌++◌, map, Memᴰ, ◌==◌, nat_comparable, if◌then◌else◌,
  Bool-cases, IsNodup, sym, ap,
}
use spiffe_spire.Prelude.Action.{ok, failed}
use spiffe_spire.Server.Gorm.{Table}

module _ {A : Type 0} where
  abbrev pub select : (A → Bool) → List A → List A
  select p [] = []
  select p (x ∷ xs) = let rest = select p xs in if p x then x ∷ rest else rest

  pub mem-select :
      (p : A → Bool) (xs : List A) {x : A} → Memᴰ x (select p xs) → Memᴰ x xs × (p x ≡ true)
  mem-select p [] h = absurd (Memᴰ.not-nil h)
  mem-select p (y ∷ xs) {x} h = elim (Bool-cases (p y)) [
    | inr skip ↦ let r = mem-select p xs (rw skip at h) in (Memᴰ.tail r.0, r.1)
    | inl keep ↦ elim (Memᴰ.cases_cons (rw keep at h)) [
      | inl same ↦ (Memᴰ.head same, rw same keep)
      | inr later ↦ let r = mem-select p xs later in (Memᴰ.tail r.0, r.1)
    ]
  ]

  pub select-mem :
      (p : A → Bool) (xs : List A) {x : A} → Memᴰ x xs → p x ≡ true → Memᴰ x (select p xs)
  select-mem p [] h e = absurd (Memᴰ.not-nil h)
  select-mem p (y ∷ xs) {x} (Memᴰ.head same) e = rw (ap p (sym same), e) (Memᴰ.head same)
  select-mem p (y ∷ xs) {x} (Memᴰ.tail later) e = elim (Bool-cases (p y)) [
    | inr skip ↦ rw skip (select-mem p xs later e)
    | inl keep ↦ rw keep (Memᴰ.tail (select-mem p xs later e))
  ]

  pub select_congr :
      (p q : A → Bool) (xs : List A) → ((x : A) → Memᴰ x xs → p x ≡ q x) → select p xs ≡ select q xs
  select_congr p q [] h = refl
  select_congr p q (x ∷ xs) h =
      rw (select_congr p q xs (λ y m. h y (Memᴰ.tail m)), h x (Memᴰ.head refl)) refl

  pub select-select :
      (p q : A → Bool) (xs : List A) → select p (select q xs) ≡ select (λ x. q x && p x) xs
  select-select p q [] = refl
  select-select p q (x ∷ xs) = ground (arith, select-select p q xs)

  -- Rows with distinct keys are equal where their keys are.
  pub same_key :
      {K : Type 0} (key : A → K) (rows : List A) (a b : A)
      → IsNodup (map key rows)
      → Memᴰ a rows
      → Memᴰ b rows
      → key a ≡ key b
      → a ≡ b
  same_key key [] a b d m n e = absurd (Memᴰ.not-nil m)
  same_key key (t ∷ rest) a b d (Memᴰ.head p) (Memᴰ.head q) e = cc (p, q)
  same_key key (t ∷ rest) a b d (Memᴰ.head p) (Memᴰ.tail n) e =
      absurd (d.0 (Memᴰ.cast (cc (e, p)) (Memᴰ.map key n)))
  same_key key (t ∷ rest) a b d (Memᴰ.tail m) (Memᴰ.head q) e =
      absurd (d.0 (Memᴰ.cast (cc (e, q)) (Memᴰ.map key m)))
  same_key key (t ∷ rest) a b d (Memᴰ.tail m) (Memᴰ.tail n) e = same_key key rest a b d.1 m n e

module _ {σ Row : Type 0} (table : Table σ Row) (live : σ → List Row) where
  -- A query answers what it finds and changes nothing; which of several rows `Find(&row)` answers
  -- is left open.
  pub record Reads : Type 0 where
    pub pick : (Row → Bool) → σ → Option Row
    pub find_lem : (p : Row → Bool) (s : σ) → table.find p s ≡ (ok (select p (live s)), s)
    pub find_one_lem : (p : Row → Bool) (s : σ) → table.find_one p s ≡ (ok (pick p s), s)
    pub pick_some :
        (p : Row → Bool) (s : σ) (r : Row) → pick p s ≡ some r → Memᴰ r (live s) × (p r ≡ true)
    pub pick_none :
        (p : Row → Bool) (s : σ) (r : Row) → pick p s ≡ none → Memᴰ r (live s) → p r ≡ false

  -- Where one row alone meets the condition, that one is answered.
  pub pick_only :
      (reads : Reads) (p : Row → Bool) (s : σ) (r : Row)
      → Memᴰ r (live s)
      → p r ≡ true
      → ((r' : Row) → Memᴰ r' (live s) → p r' ≡ true → r' ≡ r)
      → reads.pick p s ≡ some r
  pick_only reads p s r m e only = elim (Option-cases (reads.pick p s)) [
    | inl missing ↦ absurd (false≢true (sym (reads.pick_none p s r missing m) ∙ e))
    | inr (r', found) ↦
        let (here, fits) = reads.pick_some p s r' found in found ∙ ap some (only r' here fits)
  ]

  -- A row is deleted by its primary key, and all rows where that is blank.
  pub record Deletes (key : Row → ℕ) : Type 0 where
    pub delete_lem :
        (n : ℕ) (s : σ)
        → (t : σ) × (table.delete n s ≡ (ok tt, t))
          × (live t ≡ (if n == 0 then [] else select (λ r. not (key r == n)) (live s)))

  -- A new row gets a primary key of its own, unless it clashes with a stored one under a unique
  -- index, whose columns `index` reads.
  pub record Creates {K : Type 0} (kept : σ → List Row) (numbered : ℕ → Row → Row) (index : Row → K)
      : Type 0 where
    pub create_lem :
        (r : Row) (s : σ)
        → ¬ Memᴰ (index r) (map index (kept s))
        → (n : ℕ) × (t : σ) × (table.create r s ≡ (ok (numbered n r), t))
          × (live t ≡ live s ++ numbered n r ∷ [])
    pub clash_lem :
        (r : Row) (s : σ)
        → Memᴰ (index r) (map index (kept s))
        → (why : String) × (table.create r s ≡ (failed why, s))
    pub live_kept : (s : σ) (k : K) → Memᴰ k (map index (live s)) → Memᴰ k (map index (kept s))

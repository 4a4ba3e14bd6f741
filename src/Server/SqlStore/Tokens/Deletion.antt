-- ===== src/Server/SqlStore/Tokens/Deletion.antt =====
-- The join tokens that are left in the SQL data store after `DeleteToken` and `PruneTokens`.
use mathlib.Core.List.Memᴰ
use spiffe_spire.Prelude.{
  ℕ, ◌≡◌, refl, sym, ap, inl, inr, String, Bool, true, false, not, ◌&&◌, ◌||◌, none, List, [], ◌∷◌,
  map, Memᴰ, All, IsNodup, arith, ◌==◌, nat_comparable, string_comparable, beq→eq, beq_refl,
  Bool-cases, leb,
}
use spiffe_spire.Prelude.Action.{ok}
use spiffe_spire.Server.Gorm.{Gorm, TokenRow}
use spiffe_spire.Server.Gorm.Laws.{
  Reads, Deletes, select, mem-select, select-mem, select_congr, select-select, same_key,
}
use spiffe_spire.Server.SqlStore.Tokens.{
  found_token, fetch_token, delete_token, delete_each, prune_tokens,
}
use spiffe_spire.Server.SqlStore.Tokens.Stored.{fetch-gone}

abbrev pub key_of : TokenRow → ℕ
key_of row = row.id

-- Whether a row of the list has the primary key.
abbrev is_key : ℕ → List TokenRow → Bool
is_key n [] = false
is_key n (t ∷ rest) = n == t.id || is_key n rest

is_key-mem : (r : TokenRow) (rows : List TokenRow) → Memᴰ r rows → is_key r.id rows ≡ true
is_key-mem r [] m = absurd (Memᴰ.not-nil m)
is_key-mem r (t ∷ rest) (Memᴰ.head same) =
    rw (ap (λ (x : TokenRow). x.id) (sym same), beq_refl r.id) refl
is_key-mem r (t ∷ rest) (Memᴰ.tail later) = ground (arith, is_key-mem r rest later)

mem-is_key :
    (n : ℕ) (rows : List TokenRow)
    → is_key n rows ≡ true
    → (t : TokenRow) × Memᴰ t rows × (t.id ≡ n)
mem-is_key n [] h = cc h
mem-is_key n (t ∷ rest) h = elim (Bool-cases (n == t.id)) [
  | inl here ↦ (t, Memᴰ.head refl, sym (beq→eq n t.id here))
  | inr not_here ↦ let (u, m, e) = mem-is_key n rest (rw not_here at h) in (u, Memᴰ.tail m, e)
]

stale-is_key :
    (expiry : ℕ) (rows : List TokenRow) (r : TokenRow)
    → IsNodup (map key_of rows)
    → Memᴰ r rows
    → is_key r.id (select (λ t. leb t.expiry expiry) rows) ≡ leb r.expiry expiry
stale-is_key expiry rows r d m = elim (Bool-cases (leb r.expiry expiry)) [
  | inl stale ↦ rw stale (is_key-mem r _ (select-mem (λ t. leb t.expiry expiry) rows m stale))
  | inr fresh ↦ elim (Bool-cases (is_key r.id (select (λ t. leb t.expiry expiry) rows))) [
    | inr unlisted ↦ rw fresh unlisted
    | inl listed ↦
        let (t, here, e) = mem-is_key r.id _ listed in
        let (old, stale) = mem-select (λ t. leb t.expiry expiry) rows here in
        cc (stale, same_key key_of rows t r d old m e)
  ]
]

select_all : (rows : List TokenRow) → select (λ r. true) rows ≡ rows
select_all [] = refl
select_all (r ∷ rest) = rw (select_all rest) refl

both : (a b : Bool) → (not a && not b) ≡ not (a || b)
both a b = ground arith

All-select :
    (P : TokenRow → Type 0) (p : TokenRow → Bool) (rows : List TokenRow)
    → All P rows
    → All P (select p rows)
All-select P p [] h = tt
All-select P p (r ∷ rest) h = elim (Bool-cases (p r)) [
  | inl keep ↦ rw keep (h.0, All-select P p rest h.1)
  | inr skip ↦ rw skip (All-select P p rest h.1)
]

module _ {σ : Type 0} (db : Gorm σ) (live : σ → List TokenRow) where
  deleted_each :
      (deletes : Deletes db.join_tokens live key_of) (rows : List TokenRow) (s : σ)
      → All (λ r. (r.id == 0) ≡ false) rows
      → (t : σ) × (delete_each db rows s ≡ (ok tt, t))
        × (live t ≡ select (λ r. not (is_key r.id rows)) (live s))
  unfolding delete_each
  deleted_each deletes [] s h = (s, refl, sym (select_all (live s)))
  deleted_each deletes (r ∷ rest) s h =
      let (t, done, kept) = deletes.delete_lem r.id s in
      let (u, rest_done, rest_kept) = deleted_each deletes rest t h.1 in
      (
        u,
        rw (done, rest_done) refl,
        rw
            (
              rest_kept,
              kept,
              h.0,
              select-select (λ x. not (is_key x.id rest)) (λ x. not (x.id == r.id)) (live s),
            )
            (select_congr _ _ (live s) λ x m. both (x.id == r.id) (is_key x.id rest)),
      )

  -- `DeleteToken` of any token text deletes all join tokens: afterwards a fetch of whatever text
  -- answers the empty token.
  pub delete_token-all :
      (reads : Reads db.join_tokens live) (deletes : Deletes db.join_tokens live key_of)
      (token : String) (s : σ)
      → (token == "") ≡ false
      → (t : σ) × (delete_token db token s ≡ (ok tt, t))
        × ((other : String) → fetch_token db other t ≡ (ok (found_token none), t))
  unfolding delete_token
  delete_token-all reads deletes token s named =
      let (t, done, gone) = deletes.delete_lem 0 s in
      (t, rw named done, λ other. fetch-gone db live reads t other (rw gone Memᴰ.not-nil))

  -- While the database answers as gorm documents it, and where each row has a primary key of its own
  -- that is not 0, `PruneTokens` leaves the tokens that expire later than it was told, and no others:
  -- one that expires at that very time is deleted, as the condition in the code has it.
  pub prune_tokens_lem :
      (reads : Reads db.join_tokens live) (deletes : Deletes db.join_tokens live key_of)
      (expiry : ℕ) (s : σ)
      → IsNodup (map key_of (live s))
      → All (λ r. (r.id == 0) ≡ false) (live s)
      → (t : σ) × (prune_tokens db expiry s ≡ (ok tt, t))
        × (live t ≡ select (λ r. not (leb r.expiry expiry)) (live s))
  unfolding prune_tokens
  prune_tokens_lem reads deletes expiry s d h =
      let stale = select (λ r. leb r.expiry expiry) (live s) in
      let (t, done, kept) =
        deleted_each deletes stale s (All-select _ (λ r. leb r.expiry expiry) (live s) h) in
      (
        t,
        rw (reads.find_lem (λ r. leb r.expiry expiry) s) done,
        rw kept (select_congr _ _ (live s) λ r m. ap not (stale-is_key expiry (live s) r d m)),
      )

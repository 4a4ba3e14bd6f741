-- ===== src/Server/SqlStore/Tokens/Stored.antt =====
-- A join token that is registered is the one that is fetched.
use mathlib.Core.List.Memᴰ
use spiffe_spire.Prelude.{
  ℕ, ◌≡◌, ◌⊎◌, refl, sym, ap, ◌∙◌, inl, inr, String, false, false≢true, ◌||◌, none, some, List, [],
  ◌∷◌, ◌++◌, map, Memᴰ, ◌==◌, nat_comparable, string_comparable, beq→eq, beq_refl, Bool-cases,
  Option-cases,
}
use spiffe_spire.Prelude.Action.{ok}
use spiffe_spire.Server.DataStore.{JoinToken}
use spiffe_spire.Server.Gorm.{Gorm, TokenRow}
use spiffe_spire.Server.Gorm.Laws.{Reads, Creates, pick_only}
use spiffe_spire.Server.SqlStore.Tokens.{has_token, found_token, register_token, fetch_token}

abbrev pub numbered : ℕ → TokenRow → TokenRow
numbered n row = record row { id = n }

abbrev pub text_of : TokenRow → String
text_of row = row.token

mem-cases : (k : String) (ks : List String) → Memᴰ k ks ⊎ (¬ Memᴰ k ks)
mem-cases k [] = inr Memᴰ.not-nil
mem-cases k (x ∷ ks) = elim (Bool-cases (k == x)) [
  | inl same ↦ inl (Memᴰ.head (beq→eq k x same))
  | inr other ↦ elim (mem-cases k ks) [
    | inl later ↦ inl (Memᴰ.tail later)
    | inr fresh ↦ inr (λ m. elim (Memᴰ.cases_cons m) [
      | inl same ↦ false≢true (sym other ∙ rw same (beq_refl x))
      | inr later ↦ fresh later
    ])
  ]
]

module _ {σ : Type 0} (db : Gorm σ) where
  -- The database after some registrations, whatever they answered.
  unfoldable pub after_all : List JoinToken → σ → σ
  after_all [] s = s
  after_all (req ∷ reqs) s = after_all reqs (register_token db req s).1

module _ {σ : Type 0} (db : Gorm σ) (live : σ → List TokenRow) where
  -- What a fetch of the row answers, where the row is the only one with its token.
  pub fetch-live :
      (reads : Reads db.join_tokens live) (s : σ) (row : TokenRow)
      → Memᴰ row (live s)
      → ((r : TokenRow) → Memᴰ r (live s) → r.token ≡ row.token → r ≡ row)
      → fetch_token db row.token s ≡ (ok (found_token (some row)), s)
  unfolding fetch_token
  fetch-live reads s row m only =
      rw
        (
          reads.find_one_lem (has_token row.token) s,
          pick_only db.join_tokens live reads (has_token row.token) s row m (beq_refl row.token)
              λ r here same. only r here (beq→eq r.token row.token same),
        )
        refl

  pub fetch-gone :
      (reads : Reads db.join_tokens live) (s : σ) (token : String)
      → ¬ Memᴰ token (map text_of (live s))
      → fetch_token db token s ≡ (ok (found_token none), s)
  unfolding fetch_token
  fetch-gone reads s token gone =
      rw (reads.find_one_lem (has_token token) s)
        (elim (Option-cases (reads.pick (has_token token) s)) [
          | inl missing ↦ rw missing refl
          | inr (r, found) ↦
              let here = reads.pick_some (has_token token) s r found in
              absurd
                (gone (Memᴰ.cast (sym (beq→eq r.token token here.1)) (Memᴰ.map text_of here.0)))
        ])

  -- The row is there, and no other has its token.
  abbrev IsOnly : TokenRow → σ → Type 0
  IsOnly row s =
      Memᴰ row (live s) × ((r : TokenRow) → Memᴰ r (live s) → r.token ≡ row.token → r ≡ row)

  module _ (kept : σ → List TokenRow)
      (creates : Creates db.join_tokens live kept numbered text_of) where
    created-IsOnly :
        (n : ℕ) (row new : TokenRow) (s t : σ)
        → live t ≡ live s ++ numbered n new ∷ []
        → ¬ Memᴰ new.token (map text_of (kept s))
        → IsOnly row s
        → IsOnly row t
    created-IsOnly n row new s t stored fresh (here, only) = (
      rw stored (Memᴰ.append_left (numbered n new ∷ []) here),
      λ r m same. elim (Memᴰ.append_cases (live s) (rw stored at m)) [
        | inl old ↦ only r old same
        | inr last ↦ absurd (
            fresh (
              creates.live_kept s new.token (
                Memᴰ.cast (sym (ap (λ (x : TokenRow). x.token) (Memᴰ.eq_of_singleton last)) ∙ same)
                  (Memᴰ.map text_of here))))
      ],
    )

    register_token-IsOnly :
        (req : JoinToken) (row : TokenRow) (s : σ)
        → IsOnly row s
        → IsOnly row (register_token db req s).1
    unfolding register_token
    register_token-IsOnly req row s h =
        let new : TokenRow = record { id = 0; token = req.token; expiry = req.expiry } in
        elim (Bool-cases (req.token == "" || req.expiry == 0)) [
          | inl incomplete ↦ rw incomplete h
          | inr complete ↦ elim (mem-cases req.token (map text_of (kept s))) [
            | inl clash ↦
                let (why, refused) = creates.clash_lem new s clash in rw (complete, refused) h
            | inr fresh ↦
                let (n, t, created, stored) = creates.create_lem new s fresh in
                rw (complete, created) (created-IsOnly n row new s t stored fresh h)
          ]
        ]

    after_all-IsOnly :
        (reqs : List JoinToken) (row : TokenRow) (s : σ)
        → IsOnly row s
        → IsOnly row (after_all db reqs s)
    unfolding after_all
    after_all-IsOnly [] row s h = h
    after_all-IsOnly (req ∷ reqs) row s h =
        after_all-IsOnly reqs row _ (register_token-IsOnly req row s h)

    -- While the database answers as gorm documents it: a join token that is complete, whose text no
    -- stored row has, is registered; and in the state that this leaves, or that any registrations of
    -- tokens leave that follow it directly, whatever they answer, a fetch of its text answers that
    -- very token.
    pub register_token-fetch :
        (reads : Reads db.join_tokens live) (req : JoinToken) (s : σ) (others : List JoinToken)
        → (req.token == "") ≡ false
        → (req.expiry == 0) ≡ false
        → ¬ Memᴰ req.token (map text_of (kept s))
        → (t : σ) × (register_token db req s ≡ (ok tt, t))
          × (fetch_token db req.token (after_all db others t) ≡ (ok req, after_all db others t))
    unfolding register_token
    register_token-fetch reads req s others named dated fresh =
        let row : TokenRow = record { id = 0; token = req.token; expiry = req.expiry } in
        let (n, t, created, stored) = creates.create_lem row s fresh in
        let first : IsOnly (numbered n row) t = (
          rw stored (Memᴰ.append_right (live s) (Memᴰ.head refl)),
          λ r m same. elim (Memᴰ.append_cases (live s) (rw stored at m)) [
            | inl old ↦ absurd (
                fresh (creates.live_kept s req.token (Memᴰ.cast (sym same) (Memᴰ.map text_of old))))
            | inr new ↦ Memᴰ.eq_of_singleton new
          ],
        ) in
        let (here, only) = after_all-IsOnly others (numbered n row) t first in
        (
          t,
          rw (named, dated, created) refl,
          fetch-live reads (after_all db others t) (numbered n row) here only,
        )

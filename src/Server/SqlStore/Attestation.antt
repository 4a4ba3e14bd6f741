-- ===== src/Server/SqlStore/Attestation.antt =====
-- The registration API and the node API on the SQL data store: what becomes of join tokens.
use spiffe_spire.Prelude.{
  ℕ, ◌+◌, ◌*◌, ◌≤◌, ◌≡◌, ◌≢◌, refl, sym, ap, inl, inr, ◌∙◌, String, true, false, none, some, List,
  map, Memᴰ, arith, ◌==◌, nat_comparable, string_comparable, beq→eq, Bool-cases, Option-cases, ltb,
}
use spiffe_spire.Prelude.Action.{Result, ok, failed, answer-injective}
use spiffe_spire.Prelude.Int.{ℤ, pos, negsuc}
use spiffe_spire.Server.DataStore.{JoinToken}
use spiffe_spire.Server.Gorm.{TokenRow}
use spiffe_spire.Server.Gorm.Laws.{Reads, Creates, Deletes}
use spiffe_spire.Server.Node.{Handler, AttestResponse, attest_token}
use spiffe_spire.Server.Node.Tokens.{attest_token-Accepted}
use spiffe_spire.Server.Registration.{positive, chosen_token, create_join_token}
use spiffe_spire.Server.SqlStore.{Plugin}
use spiffe_spire.Server.SqlStore.Service.{sql_data_store}
use spiffe_spire.Server.SqlStore.Tokens.{fetch_token, found_token, has_token}
use spiffe_spire.Server.SqlStore.Tokens.Stored.{after_all, numbered, text_of, register_token-fetch}
use spiffe_spire.Server.SqlStore.Tokens.Deletion.{key_of, delete_token-all}

some-injective : {a b : ℕ} → some a ≡ some b → a ≡ b
some-injective e = cc e

least : (n seconds : ℕ) → (n == 0) ≡ false → n ≡ seconds → 1 ≤ seconds
least n seconds h e = ground arith

positive_lem : (ttl : ℤ) (seconds : ℕ) → positive ttl ≡ some seconds → 1 ≤ seconds
unfolding positive
positive_lem (pos n) seconds h = elim (Bool-cases (n == 0)) [
  | inl none_left ↦ cc (rw none_left at h)
  | inr some_left ↦ least n seconds some_left (some-injective (rw some_left at h))
]
positive_lem (negsuc n) seconds h = cc h

later : (now seconds : ℕ) → 1 ≤ seconds → (now + seconds == 0) ≡ false
later now seconds h = ground arith

not_late : (a b : ℕ) → a ≤ b → ltb b a ≡ false
not_late a b h = ground arith

module _ {σ : Type 0} (ds : Plugin σ) (live : σ → List TokenRow)
    (reads : Reads ds.db.join_tokens live) (h : Handler σ) (token_id : String → String) where
  abbrev pub on_sql : Handler σ
  on_sql = record h { ds = sql_data_store ds }

  -- While the database answers as gorm documents it: where the registration API is asked for a join
  -- token with a positive ttl and a text that is not empty and that no stored token has, it makes the
  -- token. In the state that this leaves, or that any registrations of tokens leave that follow it
  -- directly, whatever they answer, the node API accepts the token for a new node when its clock is
  -- not past the expiry; the node gets the SPIFFE ID of the token.
  pub create_join_token-attested :
      (kept : σ → List TokenRow) (creates : Creates ds.db.join_tokens live kept numbered text_of)
      (now now' seconds : ℕ) (new_token : Result String) (token text : String) (ttl : ℤ) (s : σ)
      (others : List JoinToken)
      → positive ttl ≡ some seconds
      → chosen_token token new_token ≡ ok text
      → (text == "") ≡ false
      → ¬ Memᴰ text (map text_of (kept s))
      → now' ≤ (now + seconds) * 1000000000
      → (t : σ) × (create_join_token (sql_data_store ds) now new_token token ttl s
          ≡ (ok (record { token = text; expiry = now + seconds }), t))
        × ((attest_token on_sql token_id now' text false (after_all ds.db others t)).0
            ≡ ok (record { valid = true; base_spiffe_id = token_id text }))
  unfolding create_join_token attest_token
  create_join_token-attested kept creates now now' seconds new_token token text ttl s others lasts
        chosen named fresh early =
      let req : JoinToken = record { token = text; expiry = now + seconds } in
      let (t, registered, fetched) =
        register_token-fetch ds.db live kept creates reads req s others named
          (later now seconds (positive_lem ttl seconds lasts)) fresh in
      (
        t,
        rw (create_join_token, lasts, chosen, registered) refl,
        rw (fetched, named, not_late now' ((now + seconds) * 1000000000) early) refl,
      )

  -- What the store knows of a token after a fetch of its text, where that is not the empty text.
  fetched_text :
      (token_text : String) (token : JoinToken) (s t : σ)
      → fetch_token ds.db token_text s ≡ (ok token, t)
      → token.token ≢ ""
      → (token_text == "") ≡ false
  unfolding fetch_token
  fetched_text token_text token s t e some_token =
      elim (Option-cases (reads.pick (has_token token_text) s)) [
        | inl missing ↦
            let (same, _) =
              answer-injective (found_token none) token s t
                (rw (reads.find_one_lem (has_token token_text) s, missing) at e) in
            absurd (some_token (sym (ap (λ (x : JoinToken). x.token) same)))
        | inr (r, here) ↦
            let (same, _) =
              answer-injective (found_token (some r)) token s t
                (rw (reads.find_one_lem (has_token token_text) s, here) at e) in
            let (_, fits) = reads.pick_some (has_token token_text) s r here in
            elim (Bool-cases (token_text == "")) [
              | inr named ↦ named
              | inl empty ↦ absurd (
                  some_token (
                    sym (ap (λ (x : JoinToken). x.token) same)
                    ∙ beq→eq r.token token_text fits
                    ∙ beq→eq token_text "" empty))
            ]
      ]

  -- While the database answers as gorm documents it, so that no deletion fails: once the node API has
  -- accepted a join token of a new node, it refuses every join token of a new node, that one and all
  -- others, in the state that it has left.
  pub attest_token-refuses :
      (deletes : Deletes ds.db.join_tokens live key_of) (now : ℕ) (token_text : String) (s s' : σ)
      (response : AttestResponse)
      → attest_token on_sql token_id now token_text false s ≡ (ok response, s')
      → (now' : ℕ) (other : String)
      → attest_token on_sql token_id now' other false s' ≡ (failed "invalid join token", s')
  unfolding attest_token
  attest_token-refuses deletes now token_text s s' response e now' other =
      let (_, _, was) =
        attest_token-Accepted on_sql token_id now token_text false s s' response e in
      let (t, deleted, gone) =
        delete_token-all ds.db live reads deletes token_text was.fetched
          (fetched_text token_text was.token s was.fetched was.known was.some_token) in
      let last : s' ≡ t = was.deleted ∙ ap (λ r. r.1) deleted in rw (last, gone other) refl

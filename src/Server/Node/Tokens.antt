-- ===== src/Server/Node/Tokens.antt =====
-- When the node API accepts a join token.
use spiffe_spire.Prelude.{
  ℕ, ◌*◌, ◌≡◌, ◌≤◌, ◌≢◌, refl, sym, ap, inl, inr, String, Bool, true, false, arith, ◌==◌,
  string_comparable, beq_refl, Bool-cases, ltb,
}
use spiffe_spire.Prelude.Action.{ok, Call-cases, answer-injective}
use spiffe_spire.Server.DataStore.{JoinToken}
use spiffe_spire.Server.Node.{Handler, AttestResponse, attest_token}

in_time : (a b : ℕ) → ltb a b ≡ false → b ≤ a
in_time a b e = ground arith

named : (s t : String) → (s == t) ≡ false → s ≢ t
named s t e p = cc (e, ap (λ x. x == t) p, beq_refl t)

module _ {σ : Type 0} (h : Handler σ) (token_id : String → String) where
  -- What the store knew of a token that was accepted.
  pub record Accepted (now : ℕ) (token_text : String) (s s' : σ) (base_spiffe_id : String)
      : Type 0 where
    pub token : JoinToken
    pub fetched : σ
    pub known : h.ds.fetch_token token_text s ≡ (ok token, fetched)
    pub some_token : token.token ≢ ""
    pub in_time : now ≤ token.expiry * 1000000000
    pub deleted : s' ≡ (h.ds.delete_token token_text fetched).1
    pub id : base_spiffe_id ≡ token_id token.token

  -- When `attestToken` accepts a token, the node was new, the store knew the token, the token had
  -- not expired, the store has been told to delete it, and the SPIFFE ID is that of the token.
  pub attest_token-Accepted :
      (now : ℕ) (token_text : String) (attested_before : Bool) (s s' : σ)
      (response : AttestResponse)
      → attest_token h token_id now token_text attested_before s ≡ (ok response, s')
      → (attested_before ≡ false)
        × (response.valid ≡ true)
        × Accepted now token_text s s' response.base_spiffe_id
  unfolding attest_token
  attest_token-Accepted now token_text true s s' response e = cc e
  attest_token-Accepted now token_text false s s' response e =
      elim (Call-cases (h.ds.fetch_token token_text s)) [
        | inr (_, t, f) ↦ cc (rw f at e)
        | inl (token, t, f) ↦ elim (Bool-cases (token.token == "")) [
          | inl missing ↦ cc (rw (f, missing) at e)
          | inr there ↦ elim (Bool-cases (ltb (token.expiry * 1000000000) now)) [
            | inl late ↦ cc (rw (f, there, late) at e)
            | inr early ↦
                let (same, last) = answer-injective _ response _ s' (rw (f, there, early) at e) in
                (
                  refl,
                  sym (ap (λ r. r.valid) same),
                  record {
                    token = token;
                    fetched = t;
                    known = f;
                    some_token = named token.token "" there;
                    in_time = in_time _ now early;
                    deleted = sym last;
                    id = sym (ap (λ r. r.base_spiffe_id) same);
                  },
                )
          ]
        ]
      ]

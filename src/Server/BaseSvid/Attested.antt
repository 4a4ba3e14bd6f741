-- ===== src/Server/BaseSvid/Attested.antt =====
-- Which nodes get a base SVID.
use spiffe_spire.Prelude.{
  ℕ, ◌≡◌, sym, ap, ◌∙◌, inl, inr, String, Bool, true, List, ◌==◌, string_comparable, beq→eq,
  Bool-cases,
}
use spiffe_spire.Prelude.Action.{
  ok, return, ◌>>=◌, ◌>>◌, or_error, Result-cases, Call-cases, answer-injective,
}
use spiffe_spire.Prelude.Int.{pos}
use spiffe_spire.Server.Node.{Handler, AttestResponse, get_spiffe_id_from_csr, validate_attestation}
use spiffe_spire.Server.BaseSvid.{
  AttestedData, Plugins, BaseSvid, is_attested, attest_node, record_attestation, resolve_selectors,
  fetch_base_svid,
}

validate_attestation-valid :
    (id : String) (response : AttestResponse)
    → validate_attestation id response ≡ ok tt
    → (response.valid ≡ true) × (response.base_spiffe_id ≡ id)
unfolding validate_attestation
validate_attestation-valid id response e = elim (Bool-cases response.valid) [
  | inr bad ↦ cc (rw bad at e)
  | inl valid ↦ elim (Bool-cases (response.base_spiffe_id == id)) [
    | inr differs ↦ cc (rw (valid, differs) at e)
    | inl same ↦ (valid, beq→eq response.base_spiffe_id id same)
  ]
]

module _ {σ : Type 0} (h : Handler σ) (plugins : Plugins σ) (token_id : String → String) where
  composed :
      (id : String) (before : Bool) (signed : List ℕ) (type : String) (t s' : σ) (svid : BaseSvid)
      → (do
        record_attestation h plugins token_id before signed id type
        selectors ←
            or_error "Error trying to get selectors for baseSpiffeID"
              (resolve_selectors h plugins token_id id)
        return (record { base_spiffe_id = id; signed_certificate = signed; selectors = selectors }))
          t
        ≡ (ok svid, s')
      → (svid.base_spiffe_id ≡ id) × (svid.signed_certificate ≡ signed)
  composed id before signed type t s' svid e =
      elim (Call-cases (record_attestation h plugins token_id before signed id type t)) [
        | inr (_, u, a) ↦ cc (rw a at e)
        | inl (_, u, a) ↦ elim (Call-cases (resolve_selectors h plugins token_id id u)) [
          | inr (_, v, b) ↦ cc (rw (a, b) at e)
          | inl (selectors, v, b) ↦
              let same = (answer-injective _ svid v s' (rw (a, b) at e)).0 in
              (sym (ap (λ x. x.base_spiffe_id) same), sym (ap (λ x. x.signed_certificate) same))
        ]
      ]

  -- The attestor has answered that the node is valid, and with the SPIFFE ID of the CSR; the answer
  -- was asked for with what the store knew of earlier attestations, and the CSR was signed after it.
  pub record IsAttested (now : ℕ) (csr : List ℕ) (attested_data : AttestedData) (s : σ)
      (svid : BaseSvid) : Type 0 where
    pub csr_id : get_spiffe_id_from_csr h csr ≡ ok svid.base_spiffe_id
    pub before : Bool
    pub response : AttestResponse
    pub asked : σ
    pub attested : σ
    pub done : σ
    pub known : is_attested h plugins token_id svid.base_spiffe_id s ≡ (ok before, asked)
    pub answered :
        attest_node h plugins token_id now attested_data before asked ≡ (ok response, attested)
    pub valid : response.valid ≡ true
    pub same_id : response.base_spiffe_id ≡ svid.base_spiffe_id
    pub signed : h.sign_csr csr (pos 0) attested ≡ (ok svid.signed_certificate, done)

  -- A `FetchBaseSVID` that returns has had the node attested as the one that the CSR names, before it
  -- had the CSR signed.
  pub fetch_base_svid-IsAttested :
      (now : ℕ) (csr : List ℕ) (attested_data : AttestedData) (s s' : σ) (svid : BaseSvid)
      → fetch_base_svid h plugins token_id now csr attested_data s ≡ (ok svid, s')
      → IsAttested now csr attested_data s svid
  unfolding fetch_base_svid
  fetch_base_svid-IsAttested now csr attested_data s s' svid e =
      elim (Result-cases (get_spiffe_id_from_csr h csr)) [
        | inr (_, a) ↦ cc (rw a at e)
        | inl (id, a) ↦ elim (Call-cases (is_attested h plugins token_id id s)) [
          | inr (_, t, b) ↦ cc (rw (a, b) at e)
          | inl (before, t, b) ↦
              elim (Call-cases (attest_node h plugins token_id now attested_data before t)) [
                | inr (_, u, c) ↦ cc (rw (a, b, c) at e)
                | inl (response, u, c) ↦ elim (Result-cases (validate_attestation id response)) [
                  | inr (_, d) ↦ cc (rw (a, b, c, d) at e)
                  | inl (_, d) ↦ elim (Call-cases (h.sign_csr csr (pos 0) u)) [
                    | inr (_, v, f) ↦ cc (rw (a, b, c, d, f) at e)
                    | inl (signed, v, f) ↦
                        let (p, q) =
                          composed id before signed attested_data.type v s' svid
                            (rw (a, b, c, d, f) at e) in
                        let (valid, same) = validate_attestation-valid id response d in
                        record {
                          csr_id = a ∙ ap (λ x. ok x) (sym p);
                          before = before;
                          response = response;
                          asked = t;
                          attested = u;
                          done = v;
                          known = ap (λ i. is_attested h plugins token_id i s) p ∙ b;
                          answered = c;
                          valid = valid;
                          same_id = same ∙ sym p;
                          signed = f ∙ ap (λ x. (ok x, v)) (sym q);
                        }
                  ]
                ]
              ]
        ]
      ]

-- ===== src/Agent/Manager/Sync/Rotation.antt =====
-- The renewal of the agent's own SVID.
use spiffe_spire.Prelude.{
  ℕ, ◌≡◌, ◌⊎◌, sym, ap, inl, inr, ◌∙◌, true, false, List, [], ◌∷◌, Bool-cases,
}
use spiffe_spire.Prelude.Action.{Result, ok, Call-cases, Result-cases, answer-injective}
use spiffe_spire.Agent.Manager.{State, Config, Update, store_svid, close_client, on_world}
use spiffe_spire.Agent.Manager.Sync.{
  is_expiring, ensure_rotation_client, client_fetch_updates, received_svid, renew_svid, rotate_svid,
}

module _ {W : Type 0} (config : Config W) where
  -- A renewal: the key is the one that was made with the CSR, and the SVID is what the server
  -- answered to that CSR for the SPIFFE ID of the agent.
  pub record Renewed (s t : State W) : Type 0 where
    pub csr : List ℕ
    pub made : State W
    pub client : ℕ
    pub ensured : State W
    pub update : Update
    pub fetched : State W
    pub generated :
        on_world config (config.new_csr config.spiffe_id) s ≡ (ok (t.manager.svid_key, csr), made)
    pub connected : ensure_rotation_client config made ≡ (ok client, ensured)
    pub answered : client_fetch_updates config client (csr ∷ []) ensured ≡ (ok update, fetched)
    pub parsed : received_svid config update.svids ≡ ok t.manager.svid

  -- When `rotateSVID` returns without an error, either at least half of the lifetime of the SVID was
  -- left and nothing has changed, or less was left and the SVID and its key have been renewed.
  pub rotate_svid_lem :
      (now : ℕ) (s t : State W)
      → rotate_svid config now s ≡ (ok tt, t)
      → ((is_expiring now s.manager.svid ≡ false) × (t ≡ s))
        ⊎ ((is_expiring now s.manager.svid ≡ true) × Renewed s t)
  unfolding rotate_svid renew_svid close_client store_svid
  rotate_svid_lem now s t e = elim (Bool-cases (is_expiring now s.manager.svid)) [
    | inr fresh ↦ inl (fresh, sym (answer-injective tt tt s t (rw fresh at e)).1)
    | inl late ↦ elim (Call-cases (on_world config (config.new_csr config.spiffe_id) s)) [
      | inr (why, u, f) ↦ cc (rw (late, f) at e)
      | inl (made, u, f) ↦ elim (Call-cases (ensure_rotation_client config u)) [
        | inr (why, v, g) ↦ cc (rw (late, f, g) at e)
        | inl (client, v, g) ↦
            elim (Call-cases (client_fetch_updates config client (made.1 ∷ []) v)) [
              | inr (why, x, k) ↦ cc (rw (late, f, g, k) at e)
              | inl (update, x, k) ↦ elim (Result-cases (received_svid config update.svids)) [
                | inr (why, l) ↦ cc (rw (late, f, g, k, l) at e)
                | inl (cert, l) ↦
                    let e' = rw (late, f, g, k, l) at e in
                    let key : made.0 ≡ t.manager.svid_key =
                      ap (λ (r : Result Unit × State W). r.1.manager.svid_key) e' in
                    inr (
                      late,
                      record {
                        csr = made.1;
                        made = u;
                        client = client;
                        ensured = v;
                        update = update;
                        fetched = x;
                        generated = f ∙ ap (λ n. (ok (n, made.1), u)) key;
                        connected = g;
                        answered = k;
                        parsed = l ∙ ap (λ (r : Result Unit × State W). ok r.1.manager.svid) e';
                      },
                    )
              ]
            ]
      ]
    ]
  ]

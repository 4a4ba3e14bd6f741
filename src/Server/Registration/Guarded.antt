-- ===== src/Server/Registration/Guarded.antt =====
-- What stands between a request and the store.
use spiffe_spire.Prelude.{
  ℕ, ◌+◌, ◌≡◌, refl, sym, ap, ◌∙◌, inl, inr, String, List, string_comparable, Bool-cases,
  Option-cases, some,
}
use spiffe_spire.Prelude.Action.{
  Result, ok, failed, Call-cases, replace-ok, answer-injective, Result-cases,
}
use spiffe_spire.Prelude.Int.{ℤ}
use spiffe_spire.Common.Messages.{RegistrationEntry}
use spiffe_spire.Server.DataStore.{DataStore, JoinToken}
use spiffe_spire.Server.Registration.{
  UrlPackage, validate_spiffe_id, none_equal, is_entry_unique, create_entry, positive, chosen_token,
  create_join_token,
}
use spiffe_spire.Server.Registration.Uniqueness.{SomeClash, none_equal_iff}

module _ {σ : Type 0} (ds : DataStore σ) (url : UrlPackage) (trust_host : String) where
  -- A `CreateEntry` that returns an id: the SPIFFE ID is valid, the store listed the entries with
  -- that SPIFFE ID, none of which has the parent and the selectors of the request, and the id is
  -- what the store then answered to the creation of the request.
  pub create_entry-returned :
      (request : RegistrationEntry) (s s' : σ) (id : String)
      → create_entry ds url trust_host request s ≡ (ok id, s')
      → (es : List RegistrationEntry) × (t : σ) × (validate_spiffe_id url request.spiffe_id
            trust_host
          ≡ ok tt)
        × (ds.list_spiffe_entries request.spiffe_id s ≡ (ok es, t))
        × (¬ SomeClash es request)
        × (ds.create_registration_entry request t ≡ (ok id, s'))
  unfolding create_entry is_entry_unique
  create_entry-returned request s s' id e =
      elim (Result-cases (validate_spiffe_id url request.spiffe_id trust_host)) [
        | inr (why, bad) ↦ cc (rw bad at e)
        | inl (_, valid) ↦ elim (Call-cases (ds.list_spiffe_entries request.spiffe_id s)) [
          | inr (why, t, bad) ↦ cc (rw (valid, bad) at e)
          | inl (es, t, listed) ↦ elim (Bool-cases (none_equal es request)) [
            | inr clash ↦ cc (rw (valid, listed, clash) at e)
            | inl unique ↦ (
              es,
              t,
              valid,
              listed,
              λ c. cc (unique, (none_equal_iff es request).1 c),
              replace-ok _ _ id s' (rw (valid, listed, unique) at e),
            )
          ]
        ]
      ]

  -- `CreateEntry` of a valid request that clashes with a listed entry fails, and does no more to the
  -- store than list.
  pub create_entry-clash :
      (request : RegistrationEntry) (s t : σ) (es : List RegistrationEntry)
      → validate_spiffe_id url request.spiffe_id trust_host ≡ ok tt
      → ds.list_spiffe_entries request.spiffe_id s ≡ (ok es, t)
      → SomeClash es request
      → create_entry ds url trust_host request s ≡ (failed "Entry already exists", t)
  unfolding create_entry is_entry_unique
  create_entry-clash request s t es valid listed clash =
      rw (valid, listed, (none_equal_iff es request).1 clash) refl

module _ {σ : Type 0} (ds : DataStore σ) where
  -- A `CreateJoinToken` that returns: the ttl was positive, the token is the one asked for unless
  -- that was empty, it expires after the ttl, and the store has registered it.
  pub create_join_token-registers :
      (now : ℕ) (new_token : Result String) (token : String) (ttl : ℤ) (s s' : σ) (req : JoinToken)
      → create_join_token ds now new_token token ttl s ≡ (ok req, s')
      → (seconds : ℕ) × (positive ttl ≡ some seconds)
        × (chosen_token token new_token ≡ ok req.token)
        × (req.expiry ≡ now + seconds)
        × (ds.register_token req s ≡ (ok tt, s'))
  unfolding create_join_token
  create_join_token-registers now new_token token ttl s s' req e =
      elim (Option-cases (positive ttl)) [
        | inl none_yet ↦ cc (rw (none_yet, create_join_token) at e)
        | inr (seconds, some_ttl) ↦ elim (Result-cases (chosen_token token new_token)) [
          | inr (why, bad) ↦ cc (rw (some_ttl, create_join_token, bad) at e)
          | inl (chosen, got) ↦
              elim (Call-cases
                (ds.register_token (record { token = chosen; expiry = now + seconds }) s)) [
                  | inr (why, t, bad) ↦ cc (rw (some_ttl, create_join_token, got, bad) at e)
                  | inl (_, t, done) ↦
                      let (same, last) =
                        answer-injective _ req t s'
                          (rw (some_ttl, create_join_token, got, done) at e) in
                      (
                        seconds,
                        some_ttl,
                        got ∙ ap (λ (r : JoinToken). ok r.token) same,
                        sym (ap (λ (r : JoinToken). r.expiry) same),
                        sym (ap (λ r. ds.register_token r s) same)
                            ∙ done
                            ∙ ap (λ u. (ok tt, u)) last,
                      )
                ]
        ]
      ]

-- ===== src/Server/JoinTokenPlugin/Once.antt =====
-- A join token attests one node at most.
use spiffe_spire.Prelude.{
  ℕ, ◌*◌, ◌-◌, ◌≤◌, ◌≡◌, ◌↔◌, ◌⊎◌, refl, sym, ◌∙◌, inl, inr, String, Bool, true, false, none, some,
  List, [], ◌∷◌, All, arith, string_comparable, beq_refl, Bool-cases, Option-cases, ltb,
}
use spiffe_spire.Prelude.GoMap.{lookup, delete, lookup-delete}
use spiffe_spire.Prelude.Action.{Result, ok, failed}
use spiffe_spire.Server.JoinTokenPlugin.{Plugin, JoinTokenConfig, attest, configure, second}

-- A call of `Attest`.
pub record Request : Type 0 where
  pub now : ℕ
  pub join_token : String
  pub attested_before : Bool

-- A call of the plugin: of `Attest`, or of `Configure` with a time and what hcl made of the text.
pub data Call : Type 0 where
  attest_call : Request → Call
  configure_call : ℕ → Result JoinTokenConfig → Call

-- The call is not a configuration that has the token.
abbrev pub Lacks : String → Call → Type 0
Lacks token (attest_call r) = Unit
Lacks token (configure_call now (failed err)) = Unit
Lacks token (configure_call now (ok config)) = lookup token config.join_tokens ≡ none

ltb-false : (a b : ℕ) → ltb a b ≡ false → b ≤ a
ltb-false a b e = ground arith

gone : (token : String) (p : Plugin) → lookup token (delete token p.join_tokens) ≡ none
gone token p = rw (lookup-delete token token p.join_tokens, beq_refl token) refl

module _ (spiffe_id : String → String → String) where
  -- `Attest` answers that a node is valid exactly if the node is new, the token is configured, and
  -- no more than its ttl has passed since the configuration.
  pub attest_iff :
      (now : ℕ) (join_token : String) (attested_before : Bool) (p : Plugin)
      → ((attest spiffe_id now join_token attested_before p).0.valid ≡ true) ↔ (
          (attested_before ≡ false)
          × ((ttl : ℕ) × (lookup join_token p.join_tokens ≡ some ttl)
              × (now - p.config_time ≤ ttl * second)))
  unfolding attest
  attest_iff now join_token true p = ((λ e. cc e), λ e. cc (e.0))
  attest_iff now join_token false p = elim (Option-cases (lookup join_token p.join_tokens)) [
    | inl missing ↦ (λ e. cc (rw missing at e), λ h. cc (sym missing ∙ h.1.1))
    | inr (ttl, found) ↦ rw found (elim (Bool-cases (ltb (ttl * second) (now - p.config_time))) [
      | inl late ↦ (λ e. cc (rw late at e), λ h. ground (arith, late, h.1.1, h.1.2))
      | inr early ↦ (λ e. (refl, (ttl, refl, ltb-false _ _ early)), λ h. rw early refl)
    ])
  ]

  -- The plugin after some calls, whatever they answered.
  unfoldable pub after : List Call → Plugin → Plugin
  after [] p = p
  after (attest_call r ∷ calls) p =
      after calls (attest spiffe_id r.now r.join_token r.attested_before p).1
  after (configure_call now parsed ∷ calls) p = after calls (configure now parsed p).1

  -- A token is gone after a call that found it, valid or expired.
  attest-takes :
      (now : ℕ) (join_token : String) (p : Plugin)
      → lookup join_token (attest spiffe_id now join_token false p).1.join_tokens ≡ none
  unfolding attest
  attest-takes now join_token p = elim (Option-cases (lookup join_token p.join_tokens)) [
    | inl missing ↦ rw missing missing
    | inr (ttl, found) ↦ rw found (elim (Bool-cases (ltb (ttl * second) (now - p.config_time))) [
      | inl late ↦ rw late (gone join_token p)
      | inr early ↦ rw early (gone join_token p)
    ])
  ]

  attest-tokens :
      (now : ℕ) (join_token : String) (attested_before : Bool) (p : Plugin)
      → ((attest spiffe_id now join_token attested_before p).1.join_tokens ≡ p.join_tokens)
        ⊎ ((attest spiffe_id now join_token attested_before p).1.join_tokens
            ≡ delete join_token p.join_tokens)
  unfolding attest
  attest-tokens now join_token true p = inl refl
  attest-tokens now join_token false p = elim (Option-cases (lookup join_token p.join_tokens)) [
    | inl missing ↦ inl (rw missing refl)
    | inr (ttl, found) ↦ inr (
        rw found (elim (Bool-cases (ltb (ttl * second) (now - p.config_time))) [
          | inl late ↦ rw late refl
          | inr early ↦ rw early refl
        ]))
  ]

  -- `Attest` brings no token back.
  attest-keeps_none :
      (now : ℕ) (join_token : String) (attested_before : Bool) (p : Plugin) (token : String)
      → lookup token p.join_tokens ≡ none
      → lookup token (attest spiffe_id now join_token attested_before p).1.join_tokens ≡ none
  unfolding attest
  attest-keeps_none now join_token attested_before p token e =
      elim (attest-tokens now join_token attested_before p) [
        | inl same ↦ rw same e
        | inr deleted ↦
            rw deleted (rw (lookup-delete join_token token p.join_tokens) (ground (arith, e)))
      ]

  after-keeps_none :
      (calls : List Call) (p : Plugin) (token : String)
      → All (Lacks token) calls
      → lookup token p.join_tokens ≡ none
      → lookup token (after calls p).join_tokens ≡ none
  unfolding after configure
  after-keeps_none [] p token lacks e = e
  after-keeps_none (attest_call r ∷ calls) p token lacks e =
      after-keeps_none calls _ token lacks.1
        (attest-keeps_none r.now r.join_token r.attested_before p token e)
  after-keeps_none (configure_call now (failed err) ∷ calls) p token lacks e =
      after-keeps_none calls p token lacks.1 e
  after-keeps_none (configure_call now (ok config) ∷ calls) p token lacks e =
      after-keeps_none calls _ token lacks.1 lacks.0

  -- Once a call of `Attest` has answered that a token is valid, no later one accepts that token,
  -- whatever calls of `Attest` and `Configure` come in between, as long as no configuration among
  -- them has the token.
  pub attest-once :
      (now : ℕ) (join_token : String) (attested_before : Bool) (p : Plugin) (calls : List Call)
      (later : ℕ) (again : Bool)
      → All (Lacks join_token) calls
      → (attest spiffe_id now join_token attested_before p).0.valid ≡ true
      → (attest spiffe_id later join_token again
          (after calls (attest spiffe_id now join_token attested_before p).1)).0.valid
        ≡ false
  attest-once now join_token attested_before p calls later again lacks e =
      let (fresh, _) = (attest_iff now join_token attested_before p).0 e in
      let p' = (attest spiffe_id now join_token attested_before p).1 in
      let none_left : lookup join_token (after calls p').join_tokens ≡ none =
        after-keeps_none calls p' join_token lacks (rw fresh (attest-takes now join_token p)) in
      elim (Bool-cases (attest spiffe_id later join_token again (after calls p')).0.valid) [
        | inl valid ↦
            let (_, (ttl, found, _)) =
              (attest_iff later join_token again (after calls p')).0 valid in
            cc (sym none_left ∙ found)
        | inr refused ↦ refused
      ]

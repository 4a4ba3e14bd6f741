-- ===== src/Server/JoinTokenPlugin.antt =====
-- pkg/server/plugin/nodeattestor/jointoken: a node attestor that accepts each of the configured join
-- tokens once.
-- Times are nanoseconds from one fixed instant that precedes them all. `spiffe_id` is a parameter:
-- the text that net/url and path make of a token in a trust domain. The mutex makes an Attest one
-- step.
pub mod Once
use spiffe_spire.Prelude.{
  ℕ, ◌+◌, ◌*◌, ◌-◌, ◌≡◌, String, ◌<>◌, Bool, true, false, Option, none, some, string_comparable,
  if◌then◌else◌, ltb,
}
use spiffe_spire.Prelude.Action.{Result, ok, failed}
use spiffe_spire.Prelude.GoMap.{GoMap, lookup, delete}

-- The ttls are in seconds.
pub record Plugin : Type 0 where
  pub config_time : ℕ
  pub join_tokens : GoMap String ℕ
  pub trust_domain : String

-- A response, and the error that comes with it.
pub record AttestResponse : Type 0 where
  pub valid : Bool
  pub base_spiffe_id : String
  pub err : Option String

abbrev pub invalid : String → AttestResponse
invalid why = record { valid = false; base_spiffe_id = ""; err = some why }

abbrev pub second : ℕ
second = 1000000000

-- `Attest` at time `now` of the data `join_token`.
unfoldable pub attest :
    (String → String → String) → ℕ → String → Bool → Plugin → AttestResponse × Plugin
attest spiffe_id now join_token attested_before p =
    if attested_before
    then (invalid ("Join token " <> (join_token <> " has been used and is no longer valid")), p)
    else elim (lookup join_token p.join_tokens) [
      | none ↦ (invalid "Unknown or expired join token", p)
      | some token_ttl ↦
          let p' : Plugin = record p { join_tokens = delete join_token p.join_tokens } in
          if ltb (token_ttl * second) (now - p.config_time)
          then (invalid "Expired join token", p')
          else (
            record {
              valid = true;
              base_spiffe_id = spiffe_id p.trust_domain join_token;
              err = none;
            },
            p',
          )
    ]

pub record JoinTokenConfig : Type 0 where
  pub join_tokens : GoMap String ℕ
  pub trust_domain : String

-- `Configure` at time `now`, of what hcl made of the text.
unfoldable pub configure : ℕ → Result JoinTokenConfig → Plugin → Option String × Plugin
configure now (failed err) p = (some err, p)
configure now (ok config) p = (
  none,
  record {
    config_time = now;
    join_tokens = config.join_tokens;
    trust_domain = config.trust_domain;
  },
)

-- ===== src/Server/SqlStore/Tokens.antt =====
-- The join tokens of the SQL data store.
pub mod Stored
pub mod Deletion
use spiffe_spire.Prelude.{
  ℕ, String, Bool, true, false, ◌||◌, Option, none, some, List, [], ◌∷◌, ◌==◌, nat_comparable,
  string_comparable, if◌then◌else◌, leb,
}
use spiffe_spire.Prelude.Action.{Action, return, fail, ◌>>=◌, ◌>>◌}
use spiffe_spire.Server.DataStore.{JoinToken}
use spiffe_spire.Server.Gorm.{Gorm, Table, TokenRow}

abbrev pub has_token : String → TokenRow → Bool
has_token token row = row.token == token

-- What `FetchToken` answers, given the row: without one, the empty token.
abbrev pub found_token : Option TokenRow → JoinToken
found_token none = record { token = ""; expiry = 0 }
found_token (some t) = record { token = t.token; expiry = t.expiry }

module _ {σ : Type 0} (db : Gorm σ) where
  unfoldable pub register_token : JoinToken → Action σ Unit
  register_token req =
      if req.token == "" || req.expiry == 0 then fail "token and expiry are required" else do
        db.join_tokens.create (record { id = 0; token = req.token; expiry = req.expiry })
        return tt

  unfoldable pub fetch_token : String → Action σ JoinToken
  fetch_token token = do t ← db.join_tokens.find_one (has_token token); return (found_token t)

  -- `DeleteToken` builds a row with the token and no primary key, and deletes that.
  unfoldable pub delete_token : String → Action σ Unit
  delete_token token = if token == "" then fail "no token specified" else db.join_tokens.delete 0

  -- The loop of `PruneTokens`.
  unfoldable pub delete_each : List TokenRow → Action σ Unit
  delete_each [] = return tt
  delete_each (t ∷ rest) = do db.join_tokens.delete t.id; delete_each rest

  unfoldable pub prune_tokens : ℕ → Action σ Unit
  prune_tokens expiry = do stale ← db.join_tokens.find (λ t. leb t.expiry expiry); delete_each stale

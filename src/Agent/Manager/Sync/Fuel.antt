-- ===== src/Agent/Manager/Sync/Fuel.antt =====
-- Enough fuel for the recursion of `checkForNewCacheEntries` over agent aliases.
use spiffe_spire.Prelude.{ℕ, ◌<◌, ◌≡◌, String, true, List, [], All}
use spiffe_spire.Prelude.Action.{Action, ok}
use spiffe_spire.Prelude.GoMap.{values}
use spiffe_spire.Common.Messages.{RegistrationEntry}
use spiffe_spire.Agent.Manager.{State, Config, Update, is_agent_alias}
use spiffe_spire.Agent.Manager.Sync.{fetch_updates}

module _ {W : Type 0} (config : Config W) (rank : String → ℕ) where
  -- The agent aliases among the entries rank below `n`.
  abbrev pub Below : ℕ → List RegistrationEntry → Type 0
  Below n es = All (λ re. is_agent_alias config re ≡ true → rank re.spiffe_id < n) es

  -- What the server answers on behalf of an alias are aliases of a lower rank.
  abbrev pub IsRanked : Type 0
  IsRanked =
      (id : String) (s t : State W) (u : Update)
      → fetch_updates config id [] s ≡ (ok u, t)
      → Below (rank id) (values u.reg_entries)

-- ===== src/Server/Gorm.antt =====
-- The object-relational mapper that the SQL data store calls, github.com/jinzhu/gorm, as an
-- interface: for each table the statements that the store runs, on a database `σ` of gorm's own.
-- The rows are the models of pkg/server/plugin/datastore/sql/models.go. A condition in SQL is the
-- test that it makes of a row. Rows that are deleted softly are in no answer.
pub mod Laws
use spiffe_spire.Prelude.{ℕ, String, Option, List, Bool}
use spiffe_spire.Prelude.Action.{Action}
use spiffe_spire.Prelude.Int.{ℤ}

pub record Table (σ Row : Type 0) : Type 0 where
  -- `Create(&row)` yields the row with its new primary key.
  pub create : Row → Action σ Row
  -- `Find(&rows, condition)`
  pub find : (Row → Bool) → Action σ (List Row)
  -- `Find(&row, condition)`; `none` is ErrRecordNotFound.
  pub find_one : (Row → Bool) → Action σ (Option Row)
  -- `Save(&row)`, which saves the associated rows too.
  pub save : Row → Action σ Unit
  -- `Delete(&row)` of a row with this primary key; 0 is no primary key.
  pub delete : ℕ → Action σ Unit
  -- `Where(condition).Delete(Row{})`
  pub delete_where : (Row → Bool) → Action σ Unit
  -- `Exec("DELETE FROM … WHERE condition")`
  pub exec_delete : (Row → Bool) → Action σ Unit

-- In each model `id` is the primary key, 0 in a row that is not stored yet.
pub record CaCert : Type 0 where
  pub id : ℕ
  pub cert : List ℕ
  pub expiry : ℕ
  pub bundle_id : ℕ

pub record BundleRow : Type 0 where
  pub id : ℕ
  pub trust_domain : String
  pub ca_certs : List CaCert

pub record AttestedNodeRow : Type 0 where
  pub id : ℕ
  pub spiffe_id : String
  pub data_type : String
  pub serial_number : String
  pub expires_at : ℕ

pub record ResolverRow : Type 0 where
  pub id : ℕ
  pub spiffe_id : String
  pub type : String
  pub value : String

pub record SelectorRow : Type 0 where
  pub id : ℕ
  pub registered_entry_id : ℕ
  pub type : String
  pub value : String

pub record RegisteredEntry : Type 0 where
  pub id : ℕ
  pub entry_id : String
  pub spiffe_id : String
  pub parent_id : String
  pub ttl : ℤ
  pub selectors : List SelectorRow

pub record TokenRow : Type 0 where
  pub id : ℕ
  pub token : String
  pub expiry : ℕ

pub record Gorm (σ : Type 0) : Type 0 where
  pub bundles : Table σ BundleRow
  pub ca_certs : Table σ CaCert
  pub attested_nodes : Table σ AttestedNodeRow
  pub resolver_entries : Table σ ResolverRow
  pub registered_entries : Table σ RegisteredEntry
  pub selectors : Table σ SelectorRow
  pub join_tokens : Table σ TokenRow
  -- `Commit()` of the transaction that is open.
  pub commit : Action σ Unit
  -- `Rollback()`, given the database at `Begin()`.
  pub rollback : σ → σ → σ

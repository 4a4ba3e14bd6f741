-- ===== src/Server/SqlStore.antt =====
-- pkg/server/plugin/datastore/sql/sql.go: the data store on a database. Each operation is one step,
-- under its mutex or in a transaction. gorm, crypto/x509, net/url, sort and uuid are parameters.
-- A date of a certificate is the number that it denotes; a date that does not parse is not modelled.
pub mod Bundles
pub mod Nodes
pub mod Entries
pub mod Tokens
pub mod Service
pub mod Attestation
pub mod Lookup
use spiffe_spire.Prelude.{String, Bool, Option, none, some, List}
use spiffe_spire.Prelude.Action.{Action, Result, ok, failed, return, fail, ◌>>=◌, ◌>>◌}
use spiffe_spire.Prelude.{ℕ}
use spiffe_spire.Prelude.GoMap.{GoMap}
use spiffe_spire.Common.Messages.{RegistrationEntry, Certificate}
use spiffe_spire.Server.Gorm.{Gorm}
use spiffe_spire.Server.Registration.{UrlPackage}

pub record Plugin (σ : Type 0) : Type 0 where
  pub db : Gorm σ
  pub url : UrlPackage
  pub parse_certificates : List ℕ → Result (List Certificate)
  pub new_uuid : Action σ String
  -- The order in which `range` visits a map.
  pub range : GoMap ℕ ℕ → GoMap ℕ ℕ
  pub sort :
      (RegistrationEntry → RegistrationEntry → Bool)
      → List RegistrationEntry
      → List RegistrationEntry

module _ {σ : Type 0} where
  -- A missing record is an error.
  abbrev pub must : {A : Type 0} → Option A → Action σ A
  must none = fail "record not found"
  must (some a) = return a

  -- A transaction: an error rolls it back, and the error of the commit is the caller's.
  abbrev pub finish : {A : Type 0} → Gorm σ → σ → Result A × σ → Result A × σ
  finish db begun (failed why, t) = (failed why, db.rollback begun t)
  finish db begun (ok a, t) = (db.commit >> return a) t

  abbrev pub transaction : {A : Type 0} → Gorm σ → Action σ A → Action σ A
  transaction db body s = finish db s (body s)

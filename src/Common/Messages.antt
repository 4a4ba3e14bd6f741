-- ===== src/Common/Messages.antt =====
-- proto/common/common.proto and the certificates of crypto/x509, as far as the program reads them.
use spiffe_spire.Prelude.{ℕ, String, List}
use spiffe_spire.Prelude.Int.{ℤ}
use spiffe_spire.Common.Selector.{Selector}

-- `Ttl` is an int32, in seconds.
pub record RegistrationEntry : Type 0 where
  pub selectors : List Selector
  pub parent_id : String
  pub spiffe_id : String
  pub ttl : ℤ
  pub fb_spiffe_ids : List String
  pub entry_id : String

-- Times are nanoseconds from one fixed instant, which no certificate predates.
pub record Certificate : Type 0 where
  pub raw : List ℕ
  pub not_before : ℕ
  pub not_after : ℕ

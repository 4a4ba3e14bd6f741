-- ===== src/Tests.antt =====
-- Runs of the theorems at concrete inputs, and the data that they share.
pub mod Selectors
pub mod Caches
pub mod Subscribers
pub mod Stores
pub mod Registrations
pub mod Authorities
pub mod Nodes
pub mod Databases
pub mod Sql
pub mod Updates
pub mod Managers
pub mod Kubernetes
pub mod Workloads
use mathlib.Core.List.Perm
use spiffe_spire.Prelude.{ℕ, List, [], ◌∷◌, true, false}
use spiffe_spire.Common.Selector.{Selector, SelectorPtr}
use spiffe_spire.Common.Messages.{RegistrationEntry, Certificate}
use spiffe_spire.Agent.Cache.{Entry, Subscriber, new_subscriber}
use spiffe_spire.Agent.Subscribers.{Iteration}
use spiffe_spire.Agent.Subscribers.Index.{IsIteration}

abbrev pub uid : Selector
uid = record { type = "unix"; value = "uid:1000" }

abbrev pub namespace : Selector
namespace = record { type = "k8s"; value = "ns:prod" }

abbrev pub both : List Selector
both = uid ∷ namespace ∷ []

-- Maps in the order of their lists.
abbrev pub in_order : Iteration
in_order i l = l

pub in_order-IsIteration : IsIteration in_order
in_order-IsIteration i l = Perm.refl l

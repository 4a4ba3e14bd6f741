-- ===== src/Agent/K8sPlugin.antt =====
-- pkg/agent/plugin/workloadattestor/k8s/k8s.go: the selectors of a workload in a Kubernetes pod.
-- The file system, the kubelet with its pods and the packages strings and net/url are parameters, on a
-- state `W` of the world; the sleep between two polls is part of the next poll.
pub mod Found
pub mod Polls
use text.Mathlib.Text.{starts_with}
use spiffe_spire.Prelude.{
  ℕ, zero, suc, ◌-◌, String, ◌<>◌, Bool, true, false, not, Option, none, some, List, [], ◌∷◌, ◌++◌,
  ◌==◌, string_comparable, nat_comparable, if◌then◌else◌, length, ltb, get_elem?,
}
use spiffe_spire.Prelude.Action.{Action, Result, ok, failed, return, fail, lift, ◌>>=◌, ◌>>◌}
use spiffe_spire.Prelude.Int.{ℤ, pos, negsuc}
use spiffe_spire.Common.Selector.{Selector}

-- The container ids of the two lists of statuses.
pub record PodStatus : Type 0 where
  pub init_container_statuses : List String
  pub container_statuses : List String

pub record PodInfo : Type 0 where
  pub namespace : String
  pub service_account_name : String
  pub status : PodStatus

pub data ContainerLookup : Type 0 where
  container_in_pod : ContainerLookup
  container_maybe_in_pod : ContainerLookup
  container_not_in_pod : ContainerLookup

pub record Plugin (W : Type 0) : Type 0 where
  pub max_poll_attempts : ℕ
  -- The lines of a file, and the error that ended the reading of them.
  pub read_lines : String → Action W (List String × Option String)
  -- `strings.SplitN(token, ":", 3)` and `strings.Split(path, "/")`
  pub split_colons : String → List String
  pub split_slashes : String → List String
  -- `url.Parse(id)` and the host of the result.
  pub parse_host : String → Option String
  pub get_pod_list : Action W (List PodInfo)

-- How the scan of one list of statuses ends: with the container, or without, having seen whether some
-- container is not ready.
pub data Scan : Type 0 where
  hit : Scan
  missed : Bool → Scan

-- What the search of the pods comes to.
pub data Search : Type 0 where
  found : PodInfo → Search
  not_found : Bool → Search

unfoldable pub get_selectors_from_pod_info : PodInfo → List Selector
get_selectors_from_pod_info info =
    record { type = "k8s"; value = "sa:" <> info.service_account_name }
    ∷ record { type = "k8s"; value = "ns:" <> info.namespace }
    ∷ []

abbrev pub after_both : Scan → ContainerLookup
after_both hit = container_in_pod
after_both (missed true) = container_maybe_in_pod
after_both (missed false) = container_not_in_pod

module _ {W : Type 0} (p : Plugin W) where
  abbrev pub is_host : String → Option String → Bool
  is_host container_id none = false
  is_host container_id (some host) = container_id == host

  -- The loops of `lookUpContainerInPod`.
  unfoldable pub scan : String → Bool → List String → Scan
  scan container_id not_ready [] = missed not_ready
  scan container_id not_ready (id ∷ rest) =
      if id == ""
      then scan container_id true rest
      else if is_host container_id (p.parse_host id)
      then hit
      else scan container_id not_ready rest

  abbrev pub after_first : String → List String → Scan → ContainerLookup
  after_first container_id init hit = container_in_pod
  after_first container_id init (missed not_ready) = after_both (scan container_id not_ready init)

  unfoldable pub look_up_container_in_pod : String → PodStatus → ContainerLookup
  look_up_container_in_pod container_id status =
      after_first container_id status.init_container_statuses
        (scan container_id false status.container_statuses)

  -- The loop over the pods.
  unfoldable pub search : String → Bool → List PodInfo → Search
  search container_id not_ready [] = not_found not_ready
  search container_id not_ready (item ∷ rest) =
      elim (look_up_container_in_pod container_id item.status) [
        | container_in_pod ↦ found item
        | container_maybe_in_pod ↦ search container_id true rest
        | container_not_in_pod ↦ search container_id not_ready rest
      ]

  -- The end of one attempt, `again` what another attempt does.
  abbrev pub attempted : Action W (List Selector) → Search → Action W (List Selector)
  attempted again (found item) = return (get_selectors_from_pod_info item)
  attempted again (not_found false) = fail "no selectors found"
  attempted again (not_found true) = again

  -- The polling loop, with the attempts that are left after this one.
  unfoldable pub poll : String → ℕ → Action W (List Selector)
  poll container_id zero = do
    list ← p.get_pod_list
    attempted (fail "no selectors found") (search container_id false list)
  poll container_id (suc left) = do
    list ← p.get_pod_list
    attempted (poll container_id left) (search container_id false list)

  -- The loop over the cgroups: the id in the first entry of a pod that has one, or no text.
  unfoldable pub container_of : List (List String) → String
  container_of [] = ""
  container_of (cgroup ∷ rest) = elim (get_elem? cgroup 2) [
    | none ↦ container_of rest
    | some path ↦
        if starts_with path "/kubepods"
        then elim (get_elem? (p.split_slashes path) 4) [ none ↦ container_of rest | some id ↦ id ]
        else container_of rest
  ]

  -- The loop of `getCgroups`.
  unfoldable pub split_lines : List String → Result (List (List String))
  split_lines [] = ok []
  split_lines (token ∷ rest) =
      if ltb (length (p.split_colons token)) 3
      then failed ("cgroup entry contains too few colons: " <> token)
      else elim (split_lines rest) [
        | failed why ↦ failed why
        | ok cgroups ↦ ok (p.split_colons token ∷ cgroups)
      ]

  abbrev pub scanned : Option String → Result (List (List String)) → Result (List (List String))
  scanned none r = r
  scanned (some why) (ok cgroups) = failed why
  scanned (some why) (failed first) = failed first

  unfoldable pub get_cgroups : String → Action W (List (List String))
  get_cgroups path = do file ← p.read_lines path; lift (scanned file.1 (split_lines file.0))

  -- `Attest` of the process whose cgroups are at `path`.
  unfoldable pub attest : String → Action W (List Selector)
  attest path = do
    cgroups ← get_cgroups path
    if container_of cgroups == ""
        then return []
        else poll (container_of cgroups) (p.max_poll_attempts - 1)

-- The settings that `Configure` reads from the decoded configuration, given the default; `none` stands
-- for a number that is not positive.
unfoldable pub attempts : ℕ → ℤ → ℕ
attempts default (pos n) = if n == 0 then default else n
attempts default (negsuc n) = default

-- ===== src/Tests/Kubernetes.antt =====
-- Witnesses and tests on the Kubernetes plugin of the agent.
use spiffe_spire.Prelude.{
  ℕ, ◌+◌, ◌-◌, ◌≤◌, ◌≡◌, ◌⊎◌, refl, String, none, some, List, [], ◌∷◌, ◌==◌, string_comparable,
  if◌then◌else◌,
}
use spiffe_spire.Prelude.Action.{ok}
use spiffe_spire.Agent.K8sPlugin.{
  Plugin, PodInfo, attest, get_cgroups, split_lines, container_of, poll, search,
  look_up_container_in_pod, scan, get_selectors_from_pod_info,
}
use spiffe_spire.Agent.K8sPlugin.Found.{FromPod, attest-FromPod}
use spiffe_spire.Agent.K8sPlugin.Polls.{attest-polls_le}

abbrev pod : PodInfo
pod = record {
  namespace = "prod";
  service_account_name = "web";
  status = record { init_container_statuses = []; container_statuses = "docker://c1" ∷ [] };
}

-- The world is the number of polls. The kubelet lists the pod.
abbrev plugin : Plugin ℕ
plugin = record {
  max_poll_attempts = 3;
  read_lines = λ path w. (ok ("1:cpu:/kubepods/a/b/c1" ∷ [], none), w);
  split_colons = λ token. "1" ∷ "cpu" ∷ "/kubepods/a/b/c1" ∷ [];
  split_slashes = λ path. "" ∷ "kubepods" ∷ "a" ∷ "b" ∷ "c1" ∷ [];
  parse_host = λ id. if id == "docker://c1" then some "c1" else none;
  get_pod_list = λ w. (ok (pod ∷ []), w + 1);
}

attest-polls_le_example : (attest plugin "/proc/7/cgroup" 0).1 ≤ 0 + (3 - 1) + 1
attest-polls_le_example =
    attest-polls_le plugin (λ w. w) (λ w. refl) (λ path w. refl) "/proc/7/cgroup" 0

attested : attest plugin "/proc/7/cgroup" 0 ≡ (ok (get_selectors_from_pod_info pod), 1)
unfolding attest get_cgroups split_lines container_of poll search look_up_container_in_pod scan
attested = refl

attest-FromPod_example :
    (cgroups : List (List String)) × (u : ℕ) × (get_cgroups plugin "/proc/7/cgroup" 0
      ≡ (ok cgroups, u))
    × (((container_of plugin cgroups ≡ "") × (get_selectors_from_pod_info pod ≡ []))
        ⊎ FromPod plugin (container_of plugin cgroups) 1 (get_selectors_from_pod_info pod))
attest-FromPod_example =
    attest-FromPod plugin "/proc/7/cgroup" 0 1 (get_selectors_from_pod_info pod) attested

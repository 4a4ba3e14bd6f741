-- ===== src/Agent/K8sPlugin/Polls.antt =====
-- How often the Kubernetes plugin asks the kubelet.
use spiffe_spire.Prelude.{
  ℕ, zero, suc, ◌+◌, ◌-◌, ◌≤◌, ◌≡◌, inl, inr, String, true, false, List, arith, ◌==◌,
  string_comparable, Bool-cases,
}
use spiffe_spire.Prelude.Action.{Action, fail, Call-cases, Result-cases}
use spiffe_spire.Common.Selector.{Selector}
use spiffe_spire.Agent.K8sPlugin.{
  Plugin, Search, found, not_found, search, attempted, poll, get_cgroups, scanned, split_lines,
  container_of, attest,
}

module _ {W : Type 0} (p : Plugin W) (count : W → ℕ)
    (counts : (s : W) → count (p.get_pod_list s).1 ≡ count s + 1)
    (reads : (path : String) (s : W) → count (p.read_lines path s).1 ≡ count s) where
  attempted_le :
      (again : Action W (List Selector)) (r : Search) (t : W) (n : ℕ)
      → count t ≤ n
      → count (again t).1 ≤ n
      → count (attempted p again r t).1 ≤ n
  attempted_le again (found item) t n h k = h
  attempted_le again (not_found false) t n h k = h
  attempted_le again (not_found true) t n h k = k

  poll_le :
      (container_id : String) (left : ℕ) (s : W)
      → count (poll p container_id left s).1 ≤ count s + left + 1
  unfolding poll
  poll_le container_id zero s = elim (Call-cases (p.get_pod_list s)) [
    | inr (why, t, e) ↦ rw e (omega (arith, rw e at (counts s)))
    | inl (list, t, e) ↦
        let once = rw e at (counts s) in
        rw e (
          attempted_le (fail "no selectors found") (search p container_id false list) t
            (count s + 0 + 1) (omega (arith, once)) (omega (arith, once)))
  ]
  poll_le container_id (suc left) s = elim (Call-cases (p.get_pod_list s)) [
    | inr (why, t, e) ↦ rw e (omega (arith, rw e at (counts s)))
    | inl (list, t, e) ↦
        let once = rw e at (counts s) in
        rw e (
          attempted_le (poll p container_id left) (search p container_id false list) t
            (count s + suc left + 1) (omega (arith, once))
            (omega (arith, once, poll_le container_id left t)))
  ]

  -- An attestation asks the kubelet for the pods at most as often as the setting allows, once at
  -- least where it allows nothing.
  pub attest-polls_le :
      (path : String) (s : W) → count (attest p path s).1 ≤ count s + (p.max_poll_attempts - 1) + 1
  unfolding attest get_cgroups
  attest-polls_le path s = elim (Call-cases (p.read_lines path s)) [
    | inr (why, t, e) ↦ rw e (omega (arith, rw e at (reads path s)))
    | inl (file, t, e) ↦
        let none_yet = rw e at (reads path s) in
        elim (Result-cases (scanned p file.1 (split_lines p file.0))) [
          | inr (why, bad) ↦ rw (e, bad) (omega (arith, none_yet))
          | inl (cgroups, good) ↦ elim (Bool-cases (container_of p cgroups == "")) [
            | inl no_pod ↦ rw (e, good, no_pod) (omega (arith, none_yet))
            | inr pod ↦
                rw (e, good, pod)
                  (omega
                    (arith, none_yet, poll_le (container_of p cgroups) (p.max_poll_attempts - 1) t))
          ]
        ]
  ]

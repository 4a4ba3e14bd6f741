-- ===== src/Agent/K8sPlugin/Found.antt =====
-- Whose selectors the Kubernetes plugin answers.
use mathlib.Core.List.Memᴰ
use spiffe_spire.Prelude.{
  ℕ, zero, suc, ◌-◌, ◌≡◌, ◌⊎◌, refl, sym, ap, inl, inr, ◌∙◌, String, Bool, true, false, Option,
  none, some, List, [], ◌∷◌, ◌++◌, Memᴰ, ◌==◌, string_comparable, beq→eq, Bool-cases,
}
use spiffe_spire.Prelude.Action.{Action, ok, fail, Call-cases, answer-injective}
use spiffe_spire.Common.Selector.{Selector}
use spiffe_spire.Agent.K8sPlugin.{
  Plugin, PodInfo, PodStatus, ContainerLookup, container_in_pod, container_maybe_in_pod,
  container_not_in_pod, Scan, hit, missed, Search, found, not_found, scan, is_host, after_both,
  look_up_container_in_pod, search, attempted, poll, container_of, get_cgroups,
  get_selectors_from_pod_info, attest,
}

Lookup-cases :
    (l : ContainerLookup)
    → (l ≡ container_in_pod) ⊎ (l ≡ container_maybe_in_pod) ⊎ (l ≡ container_not_in_pod)
Lookup-cases container_in_pod = inl refl
Lookup-cases container_maybe_in_pod = inr (inl refl)
Lookup-cases container_not_in_pod = inr (inr refl)

Search-cases :
    (r : Search) → ((item : PodInfo) × (r ≡ found item)) ⊎ ((b : Bool) × (r ≡ not_found b))
Search-cases (found item) = inl (item, refl)
Search-cases (not_found b) = inr (b, refl)

Scan-cases : (r : Scan) → (r ≡ hit) ⊎ ((b : Bool) × (r ≡ missed b))
Scan-cases hit = inl refl
Scan-cases (missed b) = inr (b, refl)

same_pod : (x item : PodInfo) → found x ≡ found item → x ≡ item
same_pod x item e = cc e

after_both-in : (r : Scan) → after_both r ≡ container_in_pod → r ≡ hit
after_both-in hit e = refl
after_both-in (missed true) e = cc e
after_both-in (missed false) e = cc e

module _ {W : Type 0} (p : Plugin W) where
  -- A status of the pod has the id of the container.
  abbrev pub InPod : String → PodStatus → Type 0
  InPod container_id status =
      (id : String) × Memᴰ id (status.container_statuses ++ status.init_container_statuses)
      × (p.parse_host id ≡ some container_id)

  is_host-some :
      (container_id : String) (host : Option String)
      → is_host p container_id host ≡ true
      → host ≡ some container_id
  is_host-some container_id none h = cc h
  is_host-some container_id (some host) h = ap some (sym (beq→eq container_id host h))

  scan-hit :
      (container_id : String) (not_ready : Bool) (ids : List String)
      → scan p container_id not_ready ids ≡ hit
      → (id : String) × Memᴰ id ids × (p.parse_host id ≡ some container_id)
  unfolding scan
  scan-hit container_id not_ready [] h = cc h
  scan-hit container_id not_ready (id ∷ rest) h = elim (Bool-cases (id == "")) [
    | inl empty ↦
        let (i, m, e) = scan-hit container_id true rest (rw empty at h) in (i, Memᴰ.tail m, e)
    | inr named ↦ elim (Bool-cases (is_host p container_id (p.parse_host id))) [
      | inl here ↦ (id, Memᴰ.head refl, is_host-some container_id (p.parse_host id) here)
      | inr other ↦
          let (i, m, e) = scan-hit container_id not_ready rest (rw (named, other) at h) in
          (i, Memᴰ.tail m, e)
    ]
  ]

  look_up-InPod :
      (container_id : String) (status : PodStatus)
      → look_up_container_in_pod p container_id status ≡ container_in_pod
      → InPod container_id status
  unfolding look_up_container_in_pod
  look_up-InPod container_id status h =
      elim (Scan-cases (scan p container_id false status.container_statuses)) [
        | inl here ↦
            let (id, m, e) = scan-hit container_id false status.container_statuses here in
            (id, Memᴰ.append_left status.init_container_statuses m, e)
        | inr (b, e) ↦
            let (id, m, f) =
              scan-hit container_id b status.init_container_statuses (
                after_both-in (scan p container_id b status.init_container_statuses) (rw e at h)) in
            (id, Memᴰ.append_right status.container_statuses m, f)
      ]

  search-InPod :
      (container_id : String) (not_ready : Bool) (list : List PodInfo) (item : PodInfo)
      → search p container_id not_ready list ≡ found item
      → Memᴰ item list × InPod container_id item.status
  unfolding search
  search-InPod container_id not_ready [] item h = cc h
  search-InPod container_id not_ready (x ∷ rest) item h =
      elim (Lookup-cases (look_up_container_in_pod p container_id x.status)) [
        | inl here ↦
            let same = same_pod x item (rw (search, here) at h) in
            (Memᴰ.head (sym same), rw (sym same) (look_up-InPod container_id x.status here))
        | inr (inl maybe) ↦
            let (m, e) = search-InPod container_id true rest item (rw (search, maybe) at h) in
            (Memᴰ.tail m, e)
        | inr (inr other) ↦
            let (m, e) = search-InPod container_id not_ready rest item (rw (search, other) at h) in
            (Memᴰ.tail m, e)
      ]

  -- The pod that an answer of the kubelet had, at the end of the polls.
  pub record FromPod (container_id : String) (t : W) (selectors : List Selector) : Type 0 where
    pub before : W
    pub list : List PodInfo
    pub item : PodInfo
    pub answered : p.get_pod_list before ≡ (ok list, t)
    pub listed : Memᴰ item list
    pub in_pod : InPod container_id item.status
    pub same : selectors ≡ get_selectors_from_pod_info item

  attempt-FromPod :
      (again : Action W (List Selector)) (container_id : String) (x t : W) (list : List PodInfo)
      (u : W) (selectors : List Selector)
      → p.get_pod_list x ≡ (ok list, u)
      → attempted p again (search p container_id false list) u ≡ (ok selectors, t)
      → (again u ≡ (ok selectors, t) → FromPod container_id t selectors)
      → FromPod container_id t selectors
  attempt-FromPod again container_id x t list u selectors answered e otherwise =
      elim (Search-cases (search p container_id false list)) [
        | inl (item, f) ↦
            let (same, last) =
              answer-injective (get_selectors_from_pod_info item) selectors u t (rw f at e) in
            let (m, inside) = search-InPod container_id false list item f in
            record {
              before = x;
              list = list;
              item = item;
              answered = answered ∙ ap (λ v. (ok list, v)) last;
              listed = m;
              in_pod = inside;
              same = sym same;
            }
        | inr (true, f) ↦ otherwise (rw f at e)
        | inr (false, f) ↦ cc (rw f at e)
      ]

  poll-FromPod :
      (container_id : String) (left : ℕ) (s t : W) (selectors : List Selector)
      → poll p container_id left s ≡ (ok selectors, t)
      → FromPod container_id t selectors
  unfolding poll
  poll-FromPod container_id zero s t selectors e = elim (Call-cases (p.get_pod_list s)) [
    | inr (why, u, f) ↦ cc (rw f at e)
    | inl (list, u, f) ↦
        attempt-FromPod (fail "no selectors found") container_id s t list u selectors f (rw f at e)
          (λ no. cc no)
  ]
  poll-FromPod container_id (suc left) s t selectors e = elim (Call-cases (p.get_pod_list s)) [
    | inr (why, u, f) ↦ cc (rw f at e)
    | inl (list, u, f) ↦
        attempt-FromPod (poll p container_id left) container_id s t list u selectors f (rw f at e)
          (poll-FromPod container_id left u t selectors)
  ]

  -- When the plugin answers, either no cgroup of the process names a container and it answers no
  -- selector, or it answers the service account and the namespace of a pod that the kubelet listed
  -- in its last answer and that has the container of the process.
  pub attest-FromPod :
      (path : String) (s t : W) (selectors : List Selector)
      → attest p path s ≡ (ok selectors, t)
      → (cgroups : List (List String)) × (u : W) × (get_cgroups p path s ≡ (ok cgroups, u))
        × (((container_of p cgroups ≡ "") × (selectors ≡ []))
            ⊎ FromPod (container_of p cgroups) t selectors)
  unfolding attest
  attest-FromPod path s t selectors e = elim (Call-cases (get_cgroups p path s)) [
    | inr (why, u, f) ↦ cc (rw f at e)
    | inl (cgroups, u, f) ↦ elim (Bool-cases (container_of p cgroups == "")) [
      | inl no_pod ↦
          let (same, _) = answer-injective [] selectors u t (rw (f, no_pod) at e) in
          (cgroups, u, f, inl (beq→eq (container_of p cgroups) "" no_pod, sym same))
      | inr pod ↦ (
        cgroups,
        u,
        f,
        inr (
            poll-FromPod (container_of p cgroups) (p.max_poll_attempts - 1) u t selectors
              (rw (f, pod) at e)),
      )
    ]
  ]

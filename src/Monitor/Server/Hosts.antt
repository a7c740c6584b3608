-- ===== src/Monitor/Server/Hosts.antt =====
-- The list of hosts after a report of `set_host_utility`.
use hpv_c.Base.{
  Text, ℕ, ◌+◌, ◌≡◌, ◌≢◌, refl, ap, ◌⊎◌, inl, inr, Bool-cases, Option-cases, Option, none, some,
  List, [], ◌∷◌, ◌++◌, arith, ◌==◌, length, set, get_elem?, get_elem?-set, get_elem?_bound,
  get_elem?-append_one, >>=-eq-some,
}
use hpv_c.Double.{Double}
use hpv_c.Monitor.Server.{HostMetric, find_host, update_host, update_found, set_host_utility}
use hpv_c.Monitor.Server.Lookup.{find_host_found, find_host-append, find_host-longer}
use hpv_c.Monitor.Server.Report.{update_host_ip}

-- The IP of the host at a place.
abbrev pub ip_at : {D : Type 0} → List (HostMetric D) → ℕ → Option (Option Text)
ip_at hosts j = elim (get_elem? hosts j) [ none ↦ none | some host ↦ some host.ip ]

ip_at-set :
    {D : Type 0} (hosts : List (HostMetric D)) (k : ℕ) (old new : HostMetric D)
    → get_elem? hosts k ≡ some old
    → new.ip ≡ old.ip
    → (j : ℕ) → ip_at (set hosts k new) j ≡ ip_at hosts j
ip_at-set hosts k old new got same j =
    let at = get_elem?-set hosts k j new (get_elem?_bound hosts k got) in
    elim (Bool-cases (k == j)) [
      | inl here ↦
          let place : k ≡ j = ground arith in
          rw (ip_at, at, here, ← place, got) (ap (λ i. some i) same)
      | inr other ↦ rw (ip_at, at, other) refl
    ]

module _ {D : Type 0} ⦃d : Double D⦄ (usable : ℕ → ℕ) where
  -- When a report is taken without a fault, either its IP was unknown and the report is added as
  -- the last host, or it was that of a host, and then no IP and no other host changes.
  set_host_utility_lem :
      (host : HostMetric D) (hosts hosts' : List (HostMetric D))
      → set_host_utility usable (some host) hosts ≡ some hosts'
      → ((find_host 0 hosts host.ip ≡ some none) × (hosts' ≡ hosts ++ host ∷ []))
        ⊎ ((k : ℕ) × (find_host 0 hosts host.ip ≡ some (some k))
            × ((j : ℕ) → ip_at hosts' j ≡ ip_at hosts j)
            × ((j : ℕ) → j ≢ k → get_elem? hosts' j ≡ get_elem? hosts j))
  unfolding set_host_utility update_found
  set_host_utility_lem host hosts hosts' h =
      let (found, e, h1) = >>=-eq-some (find_host 0 hosts host.ip) _ h in
      elim (Option-cases found) [
        | inl new ↦ inl (rw new at e, cc (rw new at h1))
        | inr (k, known) ↦
            let (j, first, at, got_j, same) = find_host_found 0 hosts host.ip k (rw known at e) in
            let (stored, got, h2) = >>=-eq-some (get_elem? hosts k) _ (rw known at h1) in
            let (stored', made, h3) = >>=-eq-some (update_host usable host stored) _ h2 in
            let place : j ≡ k = omega arith in
            let is_first : first ≡ stored = cc in
            let keeps = update_host_ip usable host stored stored' (rw is_first at same) made in
            let result : set hosts k stored' ≡ hosts' = cc in
            inr (
              k,
              rw known at e,
              rw (← result) (ip_at-set hosts k stored stored' got keeps),
              rw (← result) (λ i ne.
                  ground (arith, get_elem?-set hosts k i stored' (get_elem?_bound hosts k got))),
            )
      ]

  -- A report of an IP that no host has is taken without a fault and becomes the last host: it is
  -- found under its IP, and whoever was found before is found in the same place. (The IPs of all
  -- the hosts are set, or else the lookup faults.)
  pub set_host_utility-find_host :
      (host : HostMetric D) (hosts : List (HostMetric D)) (t : Text)
      → host.ip ≡ some t
      → find_host 0 hosts (some t) ≡ some none
      → (set_host_utility usable (some host) hosts ≡ some (hosts ++ host ∷ []))
        × (find_host 0 (hosts ++ host ∷ []) (some t) ≡ some (some (length hosts)))
        × (get_elem? (hosts ++ host ∷ []) (length hosts) ≡ some host)
        × ((u : Option Text) (k : ℕ)
            → find_host 0 hosts u ≡ some (some k)
            → find_host 0 (hosts ++ host ∷ []) u ≡ some (some k))
  unfolding set_host_utility update_found
  set_host_utility-find_host host hosts t e new =
      let start : 0 + length hosts ≡ length hosts = omega arith in
      (
        rw (e, new) refl,
        rw start at (find_host-append 0 hosts host t new e),
        ground (arith, get_elem?-append_one hosts host (length hosts)),
        λ u k. find_host-longer 0 hosts host u k,
      )

-- ===== src/Monitor/Server/Map.antt =====
-- The list of hosts as a map from IPs to hosts.
use hpv_c.Base.{
  Text, same_text, same_text_self, same_text-eq, ℕ, suc, ◌+◌, ◌≡◌, refl, ap, ◌∙◌, ◌⊎◌, inl, inr,
  false, Bool-cases, Option, none, some, List, [], ◌∷◌, ◌++◌, arith, All, All-append, set,
  get_elem?, if◌then◌else◌,
}
use hpv_c.Double.{Double}
use hpv_c.Monitor.Server.{HostMetric, find_host, update_host, update_found, set_host_utility}
use hpv_c.Monitor.Server.Report.{update_host_ip}

module _ {D : Type 0} where
  abbrev pub IsNamed : HostMetric D → Type 0
  IsNamed host = (t : Text) × (host.ip ≡ some t)

  abbrev pub has_ip :
      Option Text → Text → HostMetric D → Option (HostMetric D) → Option (HostMetric D)
  has_ip none t host rest = rest
  has_ip (some s) t host rest = if same_text s t then some host else rest

  -- The host of an IP.
  abbrev pub view : List (HostMetric D) → Text → Option (HostMetric D)
  view [] t = none
  view (host ∷ hosts) t = has_ip host.ip t host (view hosts t)

  view-append :
      (hosts : List (HostMetric D)) (host : HostMetric D) (t u : Text)
      → All IsNamed hosts
      → host.ip ≡ some t
      → view hosts t ≡ none
      → view (hosts ++ host ∷ []) u ≡ (if same_text t u then some host else view hosts u)
  view-append [] host t u named e absent = rw e refl
  view-append (first ∷ hosts) host t u ((s, first_e), named) e absent =
      elim (Bool-cases (same_text s t)) [
        | inl same ↦ cc (rw (first_e, same) at absent)
        | inr other ↦
            let later = view-append hosts host t u named e (rw (first_e, other) at absent) in
            elim (Bool-cases (same_text s u)) [
              | inl here ↦
                  let it = same_text-eq s u here in
                  elim (Bool-cases (same_text t u)) [
                    | inl both ↦
                        let same : t ≡ u = same_text-eq t u both in
                        cc (rw (it, ← same, same_text_self t) at other)
                    | inr apart ↦ rw (first_e, here, apart) refl
                  ]
              | inr apart ↦ rw (first_e, apart) later
            ]
      ]

  IsNamed-append :
      (hosts : List (HostMetric D)) (host : HostMetric D) (t : Text)
      → All IsNamed hosts
      → host.ip ≡ some t
      → All IsNamed (hosts ++ host ∷ [])
  IsNamed-append hosts host t named e = All-append IsNamed hosts (host ∷ []) named ((t, e), tt)

  -- Where the lookup finds a host, it is that of the map, and to replace it changes the map there.
  record Found (i : ℕ) (hosts : List (HostMetric D)) (t : Text) : Type 0 where
    pub place : ℕ
    pub host : HostMetric D
    pub found : find_host i hosts (some t) ≡ some (some (i + place))
    pub got : get_elem? hosts place ≡ some host
    pub seen : view hosts t ≡ some host
    pub ip : host.ip ≡ some t
    pub named : (new : HostMetric D) → new.ip ≡ some t → All IsNamed (set hosts place new)
    pub replaced :
        (new : HostMetric D) (u : Text)
        → new.ip ≡ some t
        → view (set hosts place new) u ≡ (if same_text t u then some new else view hosts u)

  Found-later :
      (i : ℕ) (first : HostMetric D) (hosts : List (HostMetric D)) (s t : Text)
      → first.ip ≡ some s
      → same_text s t ≡ false
      → Found (i + 1) hosts t
      → Found i (first ∷ hosts) t
  unfolding find_host
  Found-later i first hosts s t e other f = record {
    place = suc f.place;
    host = f.host;
    found =
        let next : i + suc f.place ≡ i + 1 + f.place = omega arith in rw (e, other, next) f.found;
    got = f.got;
    seen = rw (e, other) f.seen;
    ip = f.ip;
    named = λ new ip. ((s, e), f.named new ip);
    replaced = λ new u ip. elim (Bool-cases (same_text s u)) [
      | inl here ↦
          let it : s ≡ u = same_text-eq s u here in
          elim (Bool-cases (same_text t u)) [
            | inl both ↦
                let same : t ≡ u = same_text-eq t u both in
                cc (rw (it, ← same, same_text_self t) at other)
            | inr apart ↦ rw (e, here, apart) refl
          ]
      | inr apart ↦ rw (e, apart) (f.replaced new u ip)
    ];
  }

  find_host-view :
      (i : ℕ) (hosts : List (HostMetric D)) (t : Text)
      → All IsNamed hosts
      → ((find_host i hosts (some t) ≡ some none) × (view hosts t ≡ none)) ⊎ Found i hosts t
  unfolding find_host
  find_host-view i [] t named = inl (refl, refl)
  find_host-view i (first ∷ hosts) t ((s, e), named) = elim (Bool-cases (same_text s t)) [
    | inl here ↦
        let same : s ≡ t = same_text-eq s t here in
        inr (record {
          place = 0;
          host = first;
          found =
              let start : i ≡ i + 0 = omega arith in rw (e, here) (ap (λ k. some (some k)) start);
          got = refl;
          seen = rw (e, here) refl;
          ip = e ∙ ap some same;
          named = λ new ip. ((t, ip), named);
          replaced = λ new u ip. elim (Bool-cases (same_text t u)) [
            | inl it ↦ rw (ip, it) refl
            | inr apart ↦ rw (ip, e, same, apart) refl
          ];
        })
    | inr other ↦ elim (find_host-view (i + 1) hosts t named) [
      | inl (absent, unseen) ↦ inl (rw (e, other) absent, rw (e, other) unseen)
      | inr f ↦ inr (Found-later i first hosts s t e other f)
    ]
  ]

module _ {D : Type 0} ⦃d : Double D⦄ (usable : ℕ → ℕ) where
  -- The host after a report: the report, or what was known brought up to date.
  abbrev pub merged : Option (HostMetric D) → HostMetric D → Option (HostMetric D)
  merged none host = some host
  merged (some stored) host = update_host usable host stored

  -- The list of hosts, all with an IP, is a map from IPs to hosts: a report on the IP `t` sets the
  -- host of `t`, to the report itself if there was none and else to what was known brought up to date
  -- by it, and no other; it faults exactly if bringing it up to date faults.
  pub set_host_utility-view :
      (hosts : List (HostMetric D)) (host : HostMetric D) (t : Text)
      → All IsNamed hosts
      → host.ip ≡ some t
      → (merged (view hosts t) host ≡ none → set_host_utility usable (some host) hosts ≡ none)
        × ((new : HostMetric D)
            → merged (view hosts t) host ≡ some new
            → (hosts' : List (HostMetric D)) × (set_host_utility usable (some host) hosts
                ≡ some hosts')
              × All IsNamed hosts'
              × ((u : Text) → view hosts' u ≡ (if same_text t u then some new else view hosts u)))
  unfolding set_host_utility update_found
  set_host_utility-view hosts host t named e = elim (find_host-view 0 hosts t named) [
    | inl (absent, unseen) ↦ (
      λ fault. cc (rw unseen at fault),
      λ new made.
          let it : host ≡ new = cc (rw unseen at made) in
          (
            hosts ++ host ∷ [],
            rw (e, absent) refl,
            IsNamed-append hosts host t named e,
            λ u. rw (← it) (view-append hosts host t u named e unseen),
          ),
    )
    | inr f ↦
        let start : 0 + f.place ≡ f.place = omega arith in
        let place = ap (λ x. find_host 0 hosts x) e ∙ rw start at f.found in
        (
          λ fault.
              let stuck : update_host usable host f.host ≡ none = rw f.seen at fault in
              rw (place, f.got, stuck) refl,
          λ new made.
              let updated : update_host usable host f.host ≡ some new = rw f.seen at made in
              let ip : new.ip ≡ some t =
                update_host_ip usable host f.host new (rw (f.ip, e, same_text_self t) refl) updated
                ∙ f.ip in
              (
                set hosts f.place new,
                rw (place, f.got, updated) refl,
                f.named new ip,
                λ u. f.replaced new u ip,
              ),
        )
  ]

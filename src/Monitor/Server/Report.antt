-- ===== src/Monitor/Server/Report.antt =====
-- What a report does to the list of hosts.
use hpv_c.Base.{
  not, ◌==◌, str_equal, ℕ, ◌+◌, ◌*◌, ◌≡◌, ap, sym, ◌∙◌, inl, inr, true, Option-cases, some, List,
  [], ◌∷◌, leb, length, get_elem?, >>=-eq-some, require,
}
use hpv_c.Double.{Double}
use hpv_c.Monitor.Server.{
  MachineMetric, HostMetric, machine_index, copy_text, average_usage, append_machine,
  update_machine, update_machines, update_host,
}

some_ip : {D : Type 0} (a out : HostMetric D) → some a ≡ some out → out.ip ≡ a.ip
some_ip a out h = let same : a ≡ out = cc in ap (λ r. r.ip) (sym same)

module _ {D : Type 0} ⦃d : Double D⦄ (usable : ℕ → ℕ) where
  append_machine_ip :
      (host stored out : HostMetric D)
      → append_machine usable host stored ≡ some out
      → out.ip ≡ stored.ip
  unfolding append_machine
  append_machine_ip host stored out h =
      let (t, allocated, rest) = >>=-eq-some (require (not (stored.allocated == 0))) _ h in
      let (u, room, made) =
        >>=-eq-some
          (require (leb (8 * (length stored.machines + 1)) (usable (8 * stored.allocated)))) _
          rest in
      some_ip _ out made

  update_machine_ip :
      (index : ℕ) (host stored out : HostMetric D)
      → update_machine usable index host stored ≡ some out
      → out.ip ≡ stored.ip
  unfolding update_machine
  update_machine_ip index host stored out h =
      let (new, e1, h1) = >>=-eq-some (get_elem? host.machines index) _ h in
      let (old, e2, h2) = >>=-eq-some (get_elem? stored.machines index) _ h1 in
      let (usage, e3, h3) =
        >>=-eq-some (average_usage new.ram_usage_total_average old.ram_usage_total_average) _ h2 in
      let (ip, e4, h4) = >>=-eq-some (copy_text usable new.ip) _ h3 in some_ip _ out h4

  update_machines_ip :
      (left : List (MachineMetric D)) (host stored out : HostMetric D)
      → update_machines usable left host stored ≡ some out
      → out.ip ≡ stored.ip
  unfolding update_machines
  update_machines_ip [] host stored out h = some_ip stored out h
  update_machines_ip (m ∷ left) host stored out h =
      let (found, e1, h1) = >>=-eq-some (machine_index 0 m.uuid stored.machines) _ h in
      elim (Option-cases found) [
        | inl e ↦
            let (next, e2, h2) = >>=-eq-some (append_machine usable host stored) _ (rw e at h1) in
            update_machines_ip left host next out h2 ∙ append_machine_ip host stored next e2
        | inr (index, e) ↦
            let (next, e2, h2) =
              >>=-eq-some (update_machine usable index host stored) _ (rw e at h1) in
            update_machines_ip left host next out h2 ∙ update_machine_ip index host stored next e2
      ]

  pub update_host_ip :
      (host stored out : HostMetric D)
      → str_equal stored.ip host.ip ≡ some true
      → update_host usable host stored ≡ some out
      → out.ip ≡ stored.ip
  unfolding update_host
  update_host_ip host stored out same h =
      let (usage, e, h1) =
        >>=-eq-some (average_usage host.ram_usage_total_average stored.ram_usage_total_average) _
          (rw same at h) in
      update_machines_ip host.machines host _ out h1

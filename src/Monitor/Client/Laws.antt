-- ===== src/Monitor/Client/Laws.antt =====
-- When the report of a host can be packed, and what it says of the machine.
use hpv_c.Base.{Text, ℕ, ◌≡◌, true, false, Option, none, some, List, [], ◌∷◌, ◌>>=◌}
use hpv_c.Double.{Double}
use hpv_c.Monitor.Server.{HostMetric}
use hpv_c.Monitor.Client.{Sampled, Sample, Machine, pack_report, collect_object, collect}
use hpv_c.Monitor.Client.Items.{all_same, reported, with_machines}

module _ {D : Type 0} ⦃d : Double D⦄ (usable : ℕ → ℕ) where
  -- Where the samples that are left name machines `vs`, and `u` was named before.
  abbrev Outcome : Text → List Text → Option (HostMetric D) → Type 0
  Outcome u vs result =
      (all_same u vs ≡ true
        → (r : HostMetric D) × (result ≡ some r) × (r.machines ≡ reported u ∷ []))
      × (all_same u vs ≡ false → result ≡ none)

  abbrev collected :
      List ℕ → List Sample → List (Machine D) → D → HostMetric D → Option (HostMetric D)
  collected values samples machines res h =
      collect usable values samples (with_machines res machines h) >>= pack_report

  -- The sample's object, and the samples after it.
  abbrev collected_from :
      List ℕ
      → List Sample
      → Text
      → D
      → D
      → HostMetric D
      → List (Machine D)
      → Sampled
      → Option (HostMetric D)
  collected_from values samples name before res h machines o =
      collect_object usable name res o (with_machines before machines h)
      >>= (λ c. collect usable values samples c)
      >>= pack_report

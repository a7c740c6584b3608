-- ===== src/Monitor/Server/Reply.antt =====
-- A report and the reply to a request for one of its machines.
use hpv_c.Base.{
  Text, ℕ, ◌≡◌, ◌≢◌, refl, inl, inr, false, Option-cases, Option, none, some, List, [], ◌∷◌, ◌++◌,
  arith, ◌==◌, >>=-eq-some,
}
use hpv_c.Double.{Double}
use hpv_c.Monitor.Server.{
  MachineMetric, HostMetric, find_host, find_in, find_machine, response_to_api, set_host_utility,
}
use hpv_c.Monitor.Server.Hosts.{set_host_utility-find_host}

find_machine-append :
    {D : Type 0} (hosts : List (HostMetric D)) (host : HostMetric D) (u : Option Text)
    (m : MachineMetric D)
    → find_machine hosts u ≡ some none
    → find_in host.machines u ≡ some (some m)
    → find_machine (hosts ++ host ∷ []) u ≡ some (some m)
unfolding find_machine
find_machine-append [] host u m h got = rw got refl
find_machine-append (first ∷ hosts) host u m h got =
    let (found, known, rest) = >>=-eq-some (find_in first.machines u) _ h in
    elim (Option-cases found) [
      | inl other ↦ rw (known, other) (find_machine-append hosts host u m (rw other at rest) got)
      | inr (m', it) ↦ cc (rw it at rest)
    ]

-- After the report of a host with an unknown IP, a request for a machine that no host had before is
-- answered by the first machine of that IP in the report.
pub response_to_api-set_host_utility :
    {D : Type 0} ⦃d : Double D⦄ (usable : ℕ → ℕ) (hosts : List (HostMetric D)) (host : HostMetric D)
    (t : Text) (is_host : ℕ) (u : Option Text) (m : MachineMetric D)
    → host.ip ≡ some t
    → find_host 0 hosts (some t) ≡ some none
    → is_host ≢ 1
    → find_machine hosts u ≡ some none
    → find_in host.machines u ≡ some (some m)
    → (hosts' : List (HostMetric D)) × (set_host_utility usable (some host) hosts ≡ some hosts')
      × (response_to_api is_host u hosts' ≡ some m)
unfolding response_to_api
response_to_api-set_host_utility usable hosts host t is_host u m e new machine none_yet got =
    let (taken, there, at, kept) = set_host_utility-find_host usable host hosts t e new in
    let a_machine : (is_host == 1) ≡ false = ground arith in
    (
      hosts ++ host ∷ [],
      taken,
      rw (a_machine, find_machine-append hosts host u m none_yet got) refl,
    )

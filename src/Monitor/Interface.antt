-- ===== src/Monitor/Interface.antt =====
-- c/monitor/interface.c: a request to the server of the monitor. protobuf is a parameter: `seen` is
-- the field is_host of a message after it was packed and unpacked.
use hpv_c.Base.{
  Text, ℕ, ◌≡◌, ◌≢◌, refl, false, Bool, Option, none, some, List, arith, ◌==◌, if◌then◌else◌, ◌>>=◌,
}
use hpv_c.Double.{Double}
use hpv_c.Monitor.Server.{
  MachineMetric, HostMetric, find_host, find_in, find_machine, response_to_api, set_host_utility,
}
use hpv_c.Monitor.Server.Reply.{response_to_api-set_host_utility}

-- An optional number is packed only if its flag is set.
pub record InterfaceMessage : Type 0 where
  pub has_is_host : Bool
  pub is_host : ℕ
  pub ip : Option Text

-- interface_message__init clears the flag, and it stays clear.
abbrev pub interface_message : ℕ → Option Text → InterfaceMessage
interface_message is_host ip = record { has_is_host = false; is_host = is_host; ip = ip }

module _ {D : Type 0} (seen : InterfaceMessage → ℕ) where
  -- The reply of a server with these hosts, and NULL as `some none`: what is unpacked for a host goes
  -- to the wrong variable.
  unfoldable pub get_metric_packed_message_from_server :
      List (HostMetric D) → ℕ → Option Text → Option (Option (MachineMetric D))
  get_metric_packed_message_from_server hosts is_host ip = do
    reply ← response_to_api (seen (interface_message is_host ip)) ip hosts
    some (if is_host == 0 then some reply else none)

  -- If an optional number whose flag is clear is 0 when it is unpacked, then after the report of a host
  -- with an unknown IP a request for a machine that no host had before gets the first machine of that
  -- IP in the report. A request for a host with the same IP is answered by the same machine, and the
  -- caller gets NULL.
  pub get_metric_packed_message_from_server-set_host_utility :
      ⦃d : Double D⦄ (usable : ℕ → ℕ) (hosts : List (HostMetric D)) (host : HostMetric D) (t : Text)
      (u : Option Text) (m : MachineMetric D)
      → ((message : InterfaceMessage) → message.has_is_host ≡ false → seen message ≡ 0)
      → host.ip ≡ some t
      → find_host 0 hosts (some t) ≡ some none
      → find_machine hosts u ≡ some none
      → find_in host.machines u ≡ some (some m)
      → (hosts' : List (HostMetric D)) × (set_host_utility usable (some host) hosts ≡ some hosts')
        × (get_metric_packed_message_from_server hosts' 0 u ≡ some (some m))
        × ((is_host : ℕ)
            → is_host ≢ 0
            → get_metric_packed_message_from_server hosts' is_host u ≡ some none)
  unfolding get_metric_packed_message_from_server
  get_metric_packed_message_from_server-set_host_utility usable hosts host t u m default e new
        none_yet got =
      let (hosts', taken, answered) =
        response_to_api-set_host_utility usable hosts host t 0 u m e new (omega arith) none_yet
          got in
      (
        hosts',
        taken,
        rw (default (interface_message 0 u) refl, answered) refl,
        λ is_host some_host.
            let a_host : (is_host == 0) ≡ false = ground arith in
            rw (default (interface_message is_host u) refl, answered, a_host) refl,
      )

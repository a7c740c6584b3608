-- ===== src/Executer/Network/Tests.antt =====
-- Three hosts, of which the first has a VM.
use native.Mathlib.Decide.{ℕ_discrete}
use hpv_c.Base.{
  ℕ, zero, suc, ◌==◌, ◌≡◌, ◌≢◌, refl, arith, ◌⊎◌, true, false, Text, same_text, some, none, [], ◌∷◌,
  ◌++◌, get_elem?, if◌then◌else◌,
}
use hpv_c.Executer.{VmMetadata, no_metadatas, find_metadata, teleport_target}
use hpv_c.Executer.Teleport.{HasRoom}
use hpv_c.Executer.Network.{
  polling, waiting, gone, Actor, closed, Network, request, start_vm, accept,
}
use hpv_c.Executer.Network.Steps.{Reach, here, later, to_request, to_accept, to_start}
use hpv_c.Executer.Network.Kept.{IsDeaf}
use hpv_c.Executer.Network.Stuck.{unanswered_teleport}
use hpv_c.Executer.Network.Mutual.{asking, mutual_teleports}
use hpv_c.Executer.Network.Guests.{guests}
use hpv_c.Executer.Network.Taken.{Reach-TookOne}
use hpv_c.Executer.Network.Handover.{handover}
use hpv_c.Daemon.{start_word, teleport_word}
use hpv_c.Executer.Network.Commands.{Commanded, obey_words, start_then_home}

abbrev home_word : Text
home_word = 104 ∷ 111 ∷ 109 ∷ 101 ∷ []

abbrev one_word : Text
one_word = 49 ∷ []

abbrev ip_of : ℕ → Text
ip_of i = 0 ∷ i ∷ []

abbrev vm : Text
vm = 7 ∷ 7 ∷ []

abbrev other_vm : Text
other_vm = 8 ∷ []

abbrev vm_md : VmMetadata
vm_md = record {
  name = some vm;
  home = ip_of 0;
  history = ip_of 0 ∷ [];
  is_teleported = false;
  guest = false;
}

abbrev idle : Actor
idle = record {
  metadatas = no_metadatas;
  vm_name = none;
  sender = none;
  owes = false;
  turn = polling;
}

abbrev hosts : ℕ → Actor
hosts zero = record idle { metadatas = record no_metadatas { items = vm_md ∷ [] } }
hosts (suc i) = idle

abbrev at_first : Network
at_first = record { actor = hosts; link = λ k. record { owner = 0; to = []; stage = closed } }

same_ip : (t u : ℕ) → ip_of t ≡ ip_of u → t ≡ u
same_ip t u e = cc

no_home : (t : ℕ) → same_text (ip_of t) home_word ≡ false
no_home t = refl

no_metadatas-HasRoom : HasRoom no_metadatas
no_metadatas-HasRoom = record { fives = refl; fits = omega arith }

handover_example :
    (s' : Network) × (e' : VmMetadata) × (j : ℕ) × Reach home_word one_word ip_of at_first s'
    × ((s'.actor 0).turn ≡ polling)
    × ((s'.actor 1).turn ≡ polling)
    × ((s'.actor 1).owes ≡ true)
    × (find_metadata vm 0 (s'.actor 1).metadatas.items none ≡ some (some j))
    × (get_elem? (s'.actor 1).metadatas.items j ≡ some e')
    × (e'.home ≡ ip_of 0)
    × (e'.history ≡ (ip_of 0 ∷ []) ++ ip_of 1 ∷ [])
unfolding find_metadata
handover_example =
    handover at_first 0 1 5 0 vm vm_md (omega arith) refl refl refl refl refl refl refl refl
      no_metadatas-HasRoom

-- The second host owes a reply.
abbrev owing : Network
owing = record at_first { actor = λ i. if i == 1 then record idle { owes = true } else hosts i }

-- The first host has asked it.
abbrev asked_owing : Network
asked_owing = asking 0 5 (ip_of 1) vm owing

polls_on : polling ≢ gone
polls_on e = cc

unanswered_teleport_example :
    (((start_vm ip_of 2 other_vm asked_owing).actor 0).turn ≡ waiting)
    ⊎ (((start_vm ip_of 2 other_vm asked_owing).actor 0).turn ≡ gone)
unfolding ℕ_discrete
unanswered_teleport_example =
    unanswered_teleport {home_word = home_word} {one_word = one_word} {host_ip = ip_of}
      {s = asked_owing} 0 1 5 (same_ip 1) refl refl (refl, refl) refl
      (later here (to_start 2 other_vm polls_on))

abbrev crossed : Network
crossed = request home_word 1 6 (ip_of 0) other_vm (request home_word 0 5 (ip_of 1) vm at_first)

crossed_third : (crossed.actor 2).turn ≢ gone
unfolding request teleport_target ℕ_discrete
crossed_third e = polls_on e

mutual_teleports_example :
    ((((start_vm ip_of 2 other_vm crossed).actor 0).turn ≡ waiting)
      ⊎ (((start_vm ip_of 2 other_vm crossed).actor 0).turn ≡ gone))
    × ((((start_vm ip_of 2 other_vm crossed).actor 1).turn ≡ waiting)
        ⊎ (((start_vm ip_of 2 other_vm crossed).actor 1).turn ≡ gone))
mutual_teleports_example =
    mutual_teleports {home_word = home_word} {one_word = one_word} {host_ip = ip_of} at_first 0 1 5
      6 vm other_vm same_ip no_home (omega arith) (omega arith)
      (later here (to_start 2 other_vm crossed_third))

Reach-TookOne_example :
    (guests ((accept 1 5 (request home_word 0 5 (ip_of 1) vm at_first)).actor 1).metadatas.items
      ≡ 0)
    ⊎ ((guests ((accept 1 5 (request home_word 0 5 (ip_of 1) vm at_first)).actor 1).metadatas.items
          ≡ 1)
        × IsDeaf ((accept 1 5 (request home_word 0 5 (ip_of 1) vm at_first)).actor 1))
unfolding request guests teleport_target ℕ_discrete
Reach-TookOne_example =
    Reach-TookOne {home_word = home_word} {one_word = one_word} {host_ip = ip_of} {s = at_first} 1
      refl
      (later (later here (to_request 0 5 (ip_of 1) vm refl refl))
        (to_accept 1 5 refl refl refl refl))

start_then_home_example :
    (c : Commanded) × (obey_words home_word ip_of 1 5
        (start_word ∷ other_vm ∷ teleport_word ∷ vm ∷ home_word ∷ (7 ∷ []) ∷ [])
        at_first
      ≡ some c)
    × ((c.network.actor 1).turn ≡ gone)
start_then_home_example =
    start_then_home home_word ip_of 1 5 at_first other_vm vm (7 ∷ []) [] refl no_metadatas-HasRoom
      (omega arith) (omega arith) (omega arith) refl refl (omega arith)

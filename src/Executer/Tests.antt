-- ===== src/Executer/Tests.antt =====
-- Five VMs in a full array.
use hpv_c.Base.{◌≡◌, refl, arith, true, false, Text, some, none, [], ◌∷◌, ◌++◌}
use hpv_c.Executer.{VmMetadata, Metadatas, add_metadata, find_metadata}
use hpv_c.Executer.Teleport.{HasRoom, add_metadata-HasRoom}

abbrev first_host : Text
first_host = 1 ∷ []

abbrev second_host : Text
second_host = 2 ∷ []

abbrev vm : Text
vm = 7 ∷ 7 ∷ []

abbrev guest_md : VmMetadata
guest_md = record {
  name = some vm;
  home = first_host;
  history = first_host ∷ second_host ∷ [];
  is_teleported = false;
  guest = true;
}

abbrev five : Metadatas
five = record { items = guest_md ∷ guest_md ∷ guest_md ∷ guest_md ∷ guest_md ∷ []; room = 5 }

five-HasRoom : HasRoom five
five-HasRoom = record { fives = refl; fits = omega arith }

add_metadata-HasRoom_example :
    (m' : Metadatas) × (add_metadata guest_md five ≡ some m')
    × (m'.items ≡ five.items ++ guest_md ∷ [])
    × HasRoom m'
add_metadata-HasRoom_example = add_metadata-HasRoom guest_md five five-HasRoom

last_of_five : find_metadata vm 0 five.items none ≡ some (some 4)
unfolding find_metadata
last_of_five = refl

unknown_yet : find_metadata vm 0 [] none ≡ some none
unfolding find_metadata
unknown_yet = refl

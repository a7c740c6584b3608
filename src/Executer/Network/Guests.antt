-- ===== src/Executer/Network/Guests.antt =====
-- c/executer/executer.c: the VMs that a host has taken over.
use hpv_c.Base.{
  ap_some, ℕ, true, Text, Option, none, some, List, ◌≡◌, refl, subst, arith, zero, suc, ◌+◌, List,
  [], ◌∷◌, ◌++◌, if◌then◌else◌, get_elem?, set, >>=-eq-some, require, ltb, length,
}
use hpv_c.Executer.{Metadatas, TeleportMetadata, start_message, leave, arrive}
use hpv_c.Executer.{VmMetadata, add_metadata, find_metadata, leave_found, started_here}

-- The number of items that came from another host.
unfoldable pub guests : List VmMetadata → ℕ
guests [] = 0
guests (md ∷ items) = (if md.guest then 1 else 0) + guests items

guests-append :
    (items : List VmMetadata) (md : VmMetadata)
    → guests (items ++ md ∷ []) ≡ guests items + (if md.guest then 1 else 0)
unfolding guests
guests-append [] md = omega arith
guests-append (first ∷ items) md = omega (arith, guests-append items md)

guests-set :
    (items : List VmMetadata) (i : ℕ) (md new : VmMetadata)
    → get_elem? items i ≡ some md
    → new.guest ≡ md.guest
    → guests (set items i new) ≡ guests items
unfolding guests
guests-set [] i md new got same = absurd (ground arith)
guests-set (first ∷ items) zero md new got same = ground arith
guests-set (first ∷ items) (suc i) md new got same =
    omega (arith, guests-set items i md new got same)

guests-add_metadata :
    (md : VmMetadata) (m : Metadatas) {m' : Metadatas}
    → add_metadata md m ≡ some m'
    → guests m'.items ≡ guests m.items + (if md.guest then 1 else 0)
unfolding add_metadata
guests-add_metadata md m {m'} h =
    let (_, fits, made) = >>=-eq-some (require (ltb (length m.items) _)) _ h in
    let appended : m.items ++ md ∷ [] ≡ m'.items = ap_some (λ x. x.items) made in
    subst (λ items. guests items ≡ guests m.items + (if md.guest then 1 else 0)) appended
      (guests-append m.items md)

pub guests-arrive :
    (host_ip vm_name : Text) (md : TeleportMetadata) (m : Metadatas) {m' : Metadatas}
    → arrive host_ip vm_name md m ≡ some m'
    → guests m'.items ≡ guests m.items + 1
unfolding arrive
guests-arrive host_ip vm_name md m h = guests-add_metadata _ m h

pub guests-start_message :
    (host_ip vm_name : Text) (m : Metadatas) {m' : Metadatas}
    → start_message host_ip vm_name m ≡ some m'
    → guests m'.items ≡ guests m.items + 0
unfolding start_message
guests-start_message host_ip vm_name m h = guests-add_metadata _ m h

guests-leave_found :
    (host_ip vm_name : Text) (found : Option ℕ) (m : Metadatas) {md : TeleportMetadata}
    {m' : Metadatas}
    → leave_found host_ip vm_name found m ≡ some (md, m')
    → guests m'.items ≡ guests m.items
unfolding leave_found
guests-leave_found host_ip vm_name none m h =
    let (m1, added, made) = >>=-eq-some (add_metadata (started_here host_ip vm_name) m) _ h in
    let same = ap_some (λ x. guests x.1.items) made in
    omega (arith, guests-add_metadata _ m added, same)
guests-leave_found host_ip vm_name (some i) m h =
    let (md, got, made) = >>=-eq-some (get_elem? m.items i) _ h in
    let same = ap_some (λ x. guests x.1.items) made in
    omega (arith, guests-set m.items i md (record md { is_teleported = true }) got refl, same)

pub guests-leave :
    (host_ip vm_name : Text) (m : Metadatas) {md : TeleportMetadata} {m' : Metadatas}
    → leave host_ip vm_name m ≡ some (md, m')
    → guests m'.items ≡ guests m.items
unfolding leave
guests-leave host_ip vm_name m h =
    let (found, _, made) = >>=-eq-some (find_metadata vm_name 0 m.items none) _ h in
    guests-leave_found host_ip vm_name found m made

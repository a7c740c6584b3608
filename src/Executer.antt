-- ===== src/Executer.antt =====
-- c/executer/executer.c: the metadata of the VMs that a host has started or taken over, and the
-- parts of `comm_actor` that teleport a VM. VirtualBox does the teleport itself; the calls are taken
-- to succeed, for else the program ends.
pub mod Network
pub mod Teleport
mod Tests
use hpv_c.Base.{
  ℕ, zero, suc, ◌+◌, ◌%◌, Bool, true, false, Text, same_text, str_equal, Option, none, some, List,
  [], ◌∷◌, ◌++◌, ltb, ◌==◌, length, set, get_elem?, if◌then◌else◌, ◌>>=◌, ◌>>◌, require,
}

-- `name` is `none` once it is freed. `n_history` is the length of `history`; `is_teleported` is the state `vmstate_teleported`.
pub record VmMetadata : Type 0 where
  pub name : Option Text
  pub home : Text
  pub history : List Text
  pub is_teleported : Bool
  pub guest : Bool

-- The array `metadatas` with its `metadatas_len` items, and the number that it is allocated for.
pub record Metadatas : Type 0 where
  pub items : List VmMetadata
  pub room : ℕ

-- What is sent with the VM.
pub record TeleportMetadata : Type 0 where
  pub home : Text
  pub history : List Text

-- The array that `main` begins with.
abbrev pub no_metadatas : Metadatas
no_metadatas = record { items = []; room = 5 }

-- At each multiple of 5 the array is made longer by 5.
unfoldable pub add_metadata : VmMetadata → Metadatas → Option Metadatas
add_metadata vm_md m =
    let n = length m.items in
    let room = if n % 5 == 0 then n + 5 else m.room in
    do require (ltb n room); some (record { items = m.items ++ vm_md ∷ []; room = room })

-- The loops over the array, from item `i` on: the last item of the name counts.
unfoldable pub find_metadata : Text → ℕ → List VmMetadata → Option ℕ → Option (Option ℕ)
find_metadata vm_name i [] found = some found
find_metadata vm_name i (md ∷ items) found =
    let it = find_metadata vm_name (i + 1) items (some i) in
    let rest = find_metadata vm_name (i + 1) items found in
    do is_it ← str_equal md.name (some vm_name); if is_it then it else rest

-- The metadata of a VM that is started here, by `main` or by `comm_actor`.
abbrev pub started_here : Text → Text → VmMetadata
started_here host_ip vm_name = record {
  name = some vm_name;
  home = host_ip;
  history = host_ip ∷ [];
  is_teleported = false;
  guest = false;
}

-- The message "start" of the organizer. `main` frees the name after it is in the array.
unfoldable pub start_message : Text → Text → Metadatas → Option Metadatas
start_message host_ip vm_name m =
    add_metadata (record (started_here host_ip vm_name) { name = none }) m

-- The message "1" at the listener: the VM arrives, and after it its metadata.
unfoldable pub arrive : Text → Text → TeleportMetadata → Metadatas → Option Metadatas
arrive host_ip vm_name md m =
    add_metadata
      (record {
        name = some vm_name;
        home = md.home;
        history = md.history ++ host_ip ∷ [];
        is_teleported = false;
        guest = true;
      })
      m

-- The message "2" from the target: the VM leaves, and its metadata is sent. A VM that has none is
-- started first.
leave_found : Text → Text → Option ℕ → Metadatas → Option (TeleportMetadata × Metadatas)
leave_found host_ip vm_name none m = do
  m' ← add_metadata (started_here host_ip vm_name) m
  some (record { home = host_ip; history = host_ip ∷ [] }, m')
leave_found host_ip vm_name (some i) m = do
  md ← get_elem? m.items i
  some (
    record { home = md.home; history = md.history },
    record m { items = set m.items i (record md { is_teleported = true }) },
  )

unfoldable pub leave : Text → Text → Metadatas → Option (TeleportMetadata × Metadatas)
unfolding leave_found
leave host_ip vm_name m = do
  found ← find_metadata vm_name 0 m.items none
  leave_found host_ip vm_name found m

-- The home of the VM, if it has metadata.
home_of : Option ℕ → Metadatas → Option (Option Text)
home_of none m = some none
home_of (some i) m = do md ← get_elem? m.items i; some (some md.home)

-- The target of a teleport request, where the word "home" stands for the home of the VM.
unfoldable pub teleport_target : Text → Text → Text → Metadatas → Option (Option Text)
unfolding home_of
teleport_target home_word target_ip vm_name m =
    let home = find_metadata vm_name 0 m.items none >>= λ found. home_of found m in
    if same_text target_ip home_word then home else some (some target_ip)

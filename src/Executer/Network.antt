-- ===== src/Executer/Network.antt =====
-- c/executer/executer.c: `comm_actor` of the executers of several hosts, and the messages between
-- them. A host is a number, and so is a socket that `zsock_new_req` makes. VirtualBox may fail: then
-- `err_exit` ends the program.
pub mod Steps
pub mod Kept
pub mod Waits
pub mod Asked
pub mod Stuck
pub mod Mutual
pub mod Guests
pub mod Taken
pub mod Seen
pub mod Handover
pub mod Commands
mod Tests
use mathlib.Core.Logic.{ite}
use native.Mathlib.Decide.{ℕ_discrete}
use hpv_c.Base.{ℕ, Bool, true, false, Text, Option, none, some, ◌≡◌, ◌≢◌, ◌>>=◌}
use hpv_c.Executer.{Metadatas, TeleportMetadata, start_message, arrive, leave, teleport_target}

-- Where the actor is: in `zpoller_wait`, in `zmsg_recv(pipe)`, in `zsock_wait(sender)`, before the
-- receipt of the name of a VM, after the "2" for the VM, or at the end of the program.
pub data Turn : Type 0 where
  polling : Turn
  piping : Turn
  waiting : Turn
  naming : Turn
  taking : Text → Turn
  gone : Turn

-- `vm_name` and `sender` are `none` while they are not set. The listener is a reply socket: after
-- each message that it receives it owes a reply, and gives no message before that.
pub record Actor : Type 0 where
  pub metadatas : Metadatas
  pub vm_name : Option Text
  pub sender : Option ℕ
  pub owes : Bool
  pub turn : Turn

-- What the last message of a socket is: the "1", its signal, the name of the VM, the "2", the
-- metadata of the VM; `received` when the target has the last.
pub data Stage : Type 0 where
  closed : Stage
  asked : Stage
  signalled : Stage
  named : Text → Stage
  answered : Stage
  described : TeleportMetadata → Stage
  received : Stage

-- A socket of the host `owner`, connected to the listener at the address `to`.
pub record Link : Type 0 where
  pub owner : ℕ
  pub to : Text
  pub stage : Stage

pub record Network : Type 0 where
  pub actor : ℕ → Actor
  pub link : ℕ → Link

abbrev pub update : {A : Type 0} → (ℕ → A) → ℕ → A → ℕ → A
update f i a j = ite (ℕ_discrete i j) a (f j)

abbrev pub set_actor : ℕ → Actor → Network → Network
set_actor a act s = record s { actor = update s.actor a act }

abbrev pub set_turn : ℕ → Turn → Network → Network
set_turn a turn s = set_actor a (record (s.actor a) { turn = turn }) s

abbrev pub set_stage : ℕ → Stage → Network → Network
set_stage k stage s = record s { link = update s.link k (record (s.link k) { stage = stage }) }

-- The first message of the listener's other end, where a name is awaited: the "1" of another host
-- is taken for a name.
abbrev pub name_in : Text → Stage → Option Text
name_in one_word asked = some one_word
name_in one_word (named vm_name) = some vm_name
name_in one_word _ = none

-- The same, where metadata is awaited: what is no metadata is `none`, for `unpack` gives NULL.
abbrev pub frame_in : Stage → Option (Option TeleportMetadata)
frame_in asked = some none
frame_in (named vm_name) = some none
frame_in (described md) = some (some md)
frame_in _ = none

-- A request that came by the pipe, with the address that was found for it.
connect : ℕ → ℕ → Text → Option (Option Text) → Network → Network
connect a k vm_name none s = set_turn a gone s
connect a k vm_name (some none) s =
    set_actor a (record (s.actor a) { vm_name = some vm_name; turn = polling }) s
connect a k vm_name (some (some ip)) s = record {
  actor =
      update s.actor a
        (record (s.actor a) { vm_name = some vm_name; sender = some k; turn = waiting });
  link = update s.link k (record { owner = a; to = ip; stage = asked });
}

unfoldable pub request : Text → ℕ → ℕ → Text → Text → Network → Network
unfolding connect
request home_word a k target_ip vm_name s =
    connect a k vm_name (teleport_target home_word target_ip vm_name (s.actor a).metadatas) s

-- The listener's message "1" of socket `k`.
unfoldable pub accept : ℕ → ℕ → Network → Network
accept t k s = set_stage k signalled (set_turn t naming s)

-- After the signal, the name of the VM goes to the target.
proceed_named : ℕ → ℕ → Option Text → Network → Network
proceed_named a k none s = set_turn a gone s
proceed_named a k (some vm_name) s = set_stage k (named vm_name) (set_turn a polling s)

unfoldable pub proceed : ℕ → ℕ → Network → Network
unfolding proceed_named
proceed a k s = proceed_named a k (s.actor a).vm_name s

-- The name of the VM arrives, the VM is made ready and the "2" is sent.
unfoldable pub take_name : ℕ → ℕ → Text → Network → Network
take_name t k vm_name s = set_stage k answered (set_turn t (taking vm_name) s)

-- The message "2" from the target, and the metadata for it.
answer_with : ℕ → ℕ → Option (TeleportMetadata × Metadatas) → Network → Network
answer_with a k none s = set_turn a gone s
answer_with a k (some (md, m)) s =
    set_stage k (described md) (set_actor a (record (s.actor a) { metadatas = m }) s)

unfoldable pub answer : (ℕ → Text) → ℕ → ℕ → Network → Network
unfolding answer_with
answer host_ip a k s =
    let left = (s.actor a).vm_name >>= λ vm_name. leave (host_ip a) vm_name (s.actor a).metadatas in
    answer_with a k left s

-- The frame after the VM has arrived. No reply is sent for it.
finish_with : ℕ → ℕ → Option Metadatas → Network → Network
finish_with t k none s = set_turn t gone s
finish_with t k (some m) s =
    set_stage k received
      (set_actor t (record (s.actor t) { metadatas = m; owes = true; turn = polling }) s)

unfoldable pub finish : (ℕ → Text) → ℕ → ℕ → Text → Option TeleportMetadata → Network → Network
unfolding finish_with
finish host_ip t k vm_name frame s =
    let arrived = frame >>= λ md. arrive (host_ip t) vm_name md (s.actor t).metadatas in
    finish_with t k arrived s

-- A message "start" in `main`, which runs beside the actor; `add_metadata` is taken to be atomic.
start_with : ℕ → Option Metadatas → Network → Network
start_with a none s = set_turn a gone s
start_with a (some m) s = set_actor a (record (s.actor a) { metadatas = m }) s

unfoldable pub start_vm : (ℕ → Text) → ℕ → Text → Network → Network
unfolding start_with
start_vm host_ip a vm_name s =
    start_with a (start_message (host_ip a) vm_name (s.actor a).metadatas) s

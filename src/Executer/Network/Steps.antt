-- ===== src/Executer/Network/Steps.antt =====
-- c/executer/executer.c: the loop of `comm_actor` on several hosts, as steps in any order.
use hpv_c.Base.{ℕ, Bool, true, false, Text, Option, some, ◌≡◌, ◌≢◌}
use hpv_c.Executer.{TeleportMetadata}
use hpv_c.Executer.Network.{
  Turn, polling, piping, waiting, naming, taking, gone, closed, asked, signalled, answered, Network,
  set_turn, name_in, frame_in, request, accept, proceed, take_name, answer, finish, start_vm,
}

abbrev pub takes_request : Turn → Bool
takes_request polling = true
takes_request piping = true
takes_request _ = false

-- In the listener's part of the loop.
abbrev pub is_listening : Turn → Bool
is_listening naming = true
is_listening (taking vm_name) = true
is_listening _ = false

-- One step of one host, in any order of the hosts. A socket that is not `sender` any more and has
-- its "2" sends the actor to the pipe. A listener that owes a reply gives NULL if it is read.
pub data Step (home_word one_word : Text) (host_ip : ℕ → Text) (s : Network)
    : Network → Type 0 where
  to_start :
      (a : ℕ) (vm_name : Text)
      → (s.actor a).turn ≢ gone
      → Step home_word one_word host_ip s (start_vm host_ip a vm_name s)
  to_request :
      (a k : ℕ) (target_ip vm_name : Text)
      → takes_request (s.actor a).turn ≡ true
      → (s.link k).stage ≡ closed
      → Step home_word one_word host_ip s (request home_word a k target_ip vm_name s)
  to_accept :
      (t k : ℕ)
      → (s.actor t).turn ≡ polling
      → (s.actor t).owes ≡ false
      → (s.link k).stage ≡ asked
      → (s.link k).to ≡ host_ip t
      → Step home_word one_word host_ip s (accept t k s)
  to_proceed :
      (a k : ℕ)
      → (s.actor a).turn ≡ waiting
      → (s.actor a).sender ≡ some k
      → (s.link k).stage ≡ signalled
      → Step home_word one_word host_ip s (proceed a k s)
  to_take_name :
      (t k : ℕ) (vm_name : Text)
      → (s.actor t).turn ≡ naming
      → (s.link k).to ≡ host_ip t
      → name_in one_word (s.link k).stage ≡ some vm_name
      → Step home_word one_word host_ip s (take_name t k vm_name s)
  to_answer :
      (a k : ℕ)
      → (s.actor a).turn ≡ polling
      → (s.actor a).sender ≡ some k
      → (s.link k).stage ≡ answered
      → Step home_word one_word host_ip s (answer host_ip a k s)
  to_finish :
      (t k : ℕ) (vm_name : Text) (frame : Option TeleportMetadata)
      → (s.actor t).turn ≡ taking vm_name
      → (s.link k).to ≡ host_ip t
      → frame_in (s.link k).stage ≡ some frame
      → Step home_word one_word host_ip s (finish host_ip t k vm_name frame s)
  to_pipe :
      (a k : ℕ)
      → (s.actor a).turn ≡ polling
      → (s.link k).owner ≡ a
      → (s.link k).stage ≡ answered
      → (s.actor a).sender ≢ some k
      → Step home_word one_word host_ip s (set_turn a piping s)
  to_fail_listening :
      (t : ℕ)
      → is_listening (s.actor t).turn ≡ true
      → Step home_word one_word host_ip s (set_turn t gone s)
  to_fail_answering :
      (a k : ℕ)
      → (s.actor a).turn ≡ polling
      → (s.actor a).sender ≡ some k
      → (s.link k).stage ≡ answered
      → Step home_word one_word host_ip s (set_turn a gone s)
  to_read_null :
      (t : ℕ)
      → (s.actor t).turn ≡ polling
      → (s.actor t).owes ≡ true
      → Step home_word one_word host_ip s (set_turn t gone s)

pub data Reach (home_word one_word : Text) (host_ip : ℕ → Text) (s : Network)
    : Network → Type 0 where
  here : Reach home_word one_word host_ip s s
  later :
      {t u : Network}
      → Reach home_word one_word host_ip s t
      → Step home_word one_word host_ip t u
      → Reach home_word one_word host_ip s u

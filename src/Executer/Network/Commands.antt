-- ===== src/Executer/Network/Commands.antt =====
-- c/organizer/organizer.c and c/executer/executer.c: what is typed at the daemon, carried out by the
-- executer of a host. `main` starts a VM itself and hands a teleport to `comm_actor`.
use hpv_c.Base.{
  true, Bool, ℕ, ◌+◌, ◌<◌, ◌≡◌, refl, ap, ◌∙◌, false, Text, same_text, Option, none, some, List, [],
  ◌∷◌, ◌++◌, length, ◌>>=◌,
}
use hpv_c.Daemon.{
  OeMsg, teleport, start, cmd, run_commands, words_of, teleport_word, start_word,
  run_commands-words_of,
}
use hpv_c.Executer.{Metadatas, start_message, teleport_target}
use hpv_c.Executer.Teleport.{HasRoom, start_message_freed}
use hpv_c.Executer.Network.Steps.{takes_request}
use hpv_c.Executer.Network.{
  Turn, polling, piping, waiting, naming, taking, Network, gone, set_turn, connect, request,
  start_with, start_vm,
}
use hpv_c.Executer.Network.Kept.{update_same}

-- The host's network, and the messages that wait in the pipe.
pub record Commanded : Type 0 where
  pub network : Network
  pub pipe : List OeMsg

-- `comm_actor` takes a message of the pipe only where it polls or waits for the pipe.
hand_over : Bool → Text → ℕ → ℕ → Text → Text → Commanded → Commanded
hand_over true home_word a k vm_name target_ip c = record c {
  network = request home_word a k target_ip vm_name c.network;
}
hand_over false home_word a k vm_name target_ip c = record c {
  pipe = c.pipe ++ teleport vm_name target_ip ∷ [];
}

-- A message is behind those that wait.
is_free : List OeMsg → Turn → Bool
is_free [] turn = takes_request turn
is_free (m ∷ ms) turn = false

-- Once the program has ended no message is carried out.
begin : Bool → (ℕ → Text) → ℕ → Text → Commanded → Commanded
begin true host_ip a vm_name c = c
begin false host_ip a vm_name c = record c { network = start_vm host_ip a vm_name c.network }

is_gone : Turn → Bool
is_gone gone = true
is_gone _ = false

-- The messages in their order; each teleport opens the next socket.
unfoldable pub obey : Text → (ℕ → Text) → ℕ → ℕ → List OeMsg → Commanded → Commanded
unfolding hand_over is_free begin is_gone
obey home_word host_ip a k [] c = c
obey home_word host_ip a k (teleport vm_name target_ip ∷ messages) c =
    obey home_word host_ip a (k + 1) messages
      (hand_over (is_free c.pipe (c.network.actor a).turn) home_word a k vm_name target_ip c)
obey home_word host_ip a k (start vm_name ∷ messages) c =
    obey home_word host_ip a k messages
      (begin (is_gone (c.network.actor a).turn) host_ip a vm_name c)

-- What is typed is sent, and then carried out.
unfoldable pub obey_words : Text → (ℕ → Text) → ℕ → ℕ → List Text → Network → Option Commanded
obey_words home_word host_ip a k words s = run_commands cmd words >>= λ messages.
    some (obey home_word host_ip a k messages (record { network = s; pipe = [] }))

takes-is_gone : (t : Turn) → takes_request t ≡ true → is_gone t ≡ false
unfolding is_gone
takes-is_gone polling takes = refl
takes-is_gone piping takes = refl
takes-is_gone waiting takes = cc
takes-is_gone naming takes = cc
takes-is_gone (taking vm_name) takes = cc
takes-is_gone gone takes = cc

request_fault :
    (home_word : Text) (a k : ℕ) (target_ip vm_name : Text) (s : Network)
    → teleport_target home_word target_ip vm_name (s.actor a).metadatas ≡ none
    → request home_word a k target_ip vm_name s ≡ set_turn a gone s
unfolding request connect
request_fault home_word a k target_ip vm_name s fault = rw fault refl

start_vm-metadatas :
    (host_ip : ℕ → Text) (a : ℕ) (vm_name : Text) (s : Network) {m : Metadatas}
    → start_message (host_ip a) vm_name (s.actor a).metadatas ≡ some m
    → ((start_vm host_ip a vm_name s).actor a).metadatas ≡ m
unfolding start_vm start_with
start_vm-metadatas host_ip a vm_name s started =
    rw started (ap (λ act. act.metadatas) (update_same s.actor a _))

start_vm-turn :
    (host_ip : ℕ → Text) (a : ℕ) (vm_name : Text) (s : Network) {m : Metadatas}
    → start_message (host_ip a) vm_name (s.actor a).metadatas ≡ some m
    → ((start_vm host_ip a vm_name s).actor a).turn ≡ (s.actor a).turn
unfolding start_vm start_with
start_vm-turn host_ip a vm_name s started =
    rw started (ap (λ act. act.turn) (update_same s.actor a _))

-- When it is typed to start a VM and then to teleport any VM home, in words of 49 letters at most,
-- before a word that is no command, on a host whose actor takes the messages of its pipe and whose
-- array of metadata has room, the executer ends with a fault, since `main` has freed the name that
-- `comm_actor` compares.
pub start_then_home :
    (home_word : Text) (host_ip : ℕ → Text) (a k : ℕ) (s : Network) (vm_name other_name word : Text)
    (rest : List Text)
    → takes_request (s.actor a).turn ≡ true
    → HasRoom (s.actor a).metadatas
    → length vm_name < 50
    → length other_name < 50
    → length home_word < 50
    → same_text word teleport_word ≡ false
    → same_text word start_word ≡ false
    → length word < 50
    → (c : Commanded) × (obey_words home_word host_ip a k
          (words_of (start vm_name ∷ teleport other_name home_word ∷ []) ++ word ∷ rest)
          s
        ≡ some c)
      × ((c.network.actor a).turn ≡ gone)
unfolding obey_words obey
start_then_home home_word host_ip a k s vm_name other_name word rest takes room fits other_fits
      home_fits no_teleport no_start short =
    let messages : List OeMsg = start vm_name ∷ teleport other_name home_word ∷ [] in
    let sent =
      (run_commands-words_of messages word rest (fits, ((other_fits, home_fits), tt))).0 no_teleport
        no_start short in
    let (m, started, _, fault) =
      start_message_freed (host_ip a) vm_name other_name (host_ip a) home_word (s.actor a).metadatas
        room in
    let s1 = start_vm host_ip a vm_name s in
    let runs = takes-is_gone (s.actor a).turn takes in
    let still : takes_request (s1.actor a).turn ≡ true =
      ap takes_request (start_vm-turn host_ip a vm_name s started) ∙ takes in
    let ends = request_fault home_word a k home_word other_name s1 (
      ap (teleport_target home_word home_word other_name)
        (start_vm-metadatas host_ip a vm_name s started)
      ∙ fault) in
    (
      record { network = request home_word a k home_word other_name s1; pipe = [] },
      rw (sent, runs, still) refl,
      ap (λ t. (t.actor a).turn) ends ∙ ap (λ act. act.turn) (update_same s1.actor a _),
    )

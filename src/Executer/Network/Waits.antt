-- ===== src/Executer/Network/Waits.antt =====
-- c/executer/executer.c: a host in `zsock_wait`, and the "1" that it waits for.
use hpv_c.Base.{ℕ, true, Text, Option, none, some, ◌≡◌, refl, ◌⊎◌, inr, arith}
use hpv_c.Executer.{Metadatas, TeleportMetadata}
use hpv_c.Executer.Network.{
  waiting, taking, gone, Actor, asked, signalled, Link, Network, connect, request, accept,
  proceed_named, proceed, take_name, answer_with, answer, finish_with, finish, start_with, start_vm,
}
use hpv_c.Executer.Network.Steps.{
  takes_request, Step, to_start, to_request, to_accept, to_proceed, to_take_name, to_answer,
  to_finish, to_pipe, to_fail_listening, to_fail_answering, to_read_null,
}
use hpv_c.Executer.Network.Kept.{update-keeps}

-- It waits for an answer of the socket, or its program has ended.
abbrev pub Waits : ℕ → Actor → Type 0
Waits k act = ((act.turn ≡ waiting) × (act.sender ≡ some k)) ⊎ (act.turn ≡ gone)

abbrev pub IsAsked : Text → Link → Type 0
IsAsked ip l = (l.stage ≡ asked) × (l.to ≡ ip)

module _ (s : Network) (a b k j : ℕ) (waits : Waits k (s.actor a)) where
  connect-Waits :
      (vm_name : Text) (target : Option (Option Text))
      → takes_request (s.actor b).turn ≡ true
      → Waits k ((connect b j vm_name target s).actor a)
  unfolding connect
  connect-Waits vm_name none takes = update-keeps (Waits k) s.actor b _ a (λ h. inr refl) waits
  connect-Waits vm_name (some none) takes =
      update-keeps (Waits k) s.actor b _ a (λ h. ground arith) waits
  connect-Waits vm_name (some (some ip)) takes =
      update-keeps (Waits k) s.actor b _ a (λ h. ground arith) waits

  start_with-Waits : (m : Option Metadatas) → Waits k ((start_with b m s).actor a)
  unfolding start_with
  start_with-Waits none = update-keeps (Waits k) s.actor b _ a (λ h. inr refl) waits
  start_with-Waits (some m) = update-keeps (Waits k) s.actor b _ a (λ h. h) waits

  answer_with-Waits :
      (left : Option (TeleportMetadata × Metadatas)) → Waits k ((answer_with b j left s).actor a)
  unfolding answer_with
  answer_with-Waits none = update-keeps (Waits k) s.actor b _ a (λ h. inr refl) waits
  answer_with-Waits (some (md, m)) = update-keeps (Waits k) s.actor b _ a (λ h. h) waits

  proceed_named-Waits :
      (name : Option Text)
      → (s.link k).stage ≡ asked
      → (s.actor b).turn ≡ waiting
      → (s.actor b).sender ≡ some j
      → (s.link j).stage ≡ signalled
      → Waits k ((proceed_named b j name s).actor a)
  unfolding proceed_named
  proceed_named-Waits none is_asked at from is_signalled =
      update-keeps (Waits k) s.actor b _ a (λ h. inr refl) waits
  proceed_named-Waits (some name) is_asked at from is_signalled =
      update-keeps (Waits k) s.actor b _ a (λ h. ground arith) waits

  finish_with-Waits :
      (arrived : Option Metadatas) (vm_name : Text)
      → (s.actor b).turn ≡ taking vm_name
      → Waits k ((finish_with b j arrived s).actor a)
  unfolding finish_with
  finish_with-Waits none vm_name at = update-keeps (Waits k) s.actor b _ a (λ h. inr refl) waits
  finish_with-Waits (some m) vm_name at =
      update-keeps (Waits k) s.actor b _ a (λ h. ground arith) waits

module _ {home_word one_word : Text} {host_ip : ℕ → Text} {s : Network} where
  -- A host that waits for the answer to its "1" waits on, while the "1" is not received.
  pub Step-Waits :
      {s' : Network} (a k : ℕ)
      → Waits k (s.actor a)
      → (s.link k).stage ≡ asked
      → Step home_word one_word host_ip s s'
      → Waits k (s'.actor a)
  unfolding start_vm request accept proceed take_name answer finish
  Step-Waits a k w is_asked (to_start b vm_name alive) = start_with-Waits s a b k 0 w _
  Step-Waits a k w is_asked (to_request b j target_ip vm_name takes fresh) =
      connect-Waits s a b k j w vm_name _ takes
  Step-Waits a k w is_asked (to_accept t j at free it addressed) =
      update-keeps (Waits k) s.actor t _ a (λ h. ground arith) w
  Step-Waits a k w is_asked (to_proceed b j at from it) =
      proceed_named-Waits s a b k j w _ is_asked at from it
  Step-Waits a k w is_asked (to_take_name t j vm_name at addressed it) =
      update-keeps (Waits k) s.actor t _ a (λ h. ground arith) w
  Step-Waits a k w is_asked (to_answer b j at from it) = answer_with-Waits s a b k j w _
  Step-Waits a k w is_asked (to_finish t j vm_name frame at addressed it) =
      finish_with-Waits s a t k j w _ vm_name at
  Step-Waits a k w is_asked (to_pipe b j at owner it other) =
      update-keeps (Waits k) s.actor b _ a (λ h. ground arith) w
  Step-Waits a k w is_asked (to_fail_listening t at) =
      update-keeps (Waits k) s.actor t _ a (λ h. inr refl) w
  Step-Waits a k w is_asked (to_fail_answering b j at from it) =
      update-keeps (Waits k) s.actor b _ a (λ h. inr refl) w
  Step-Waits a k w is_asked (to_read_null t at owes) =
      update-keeps (Waits k) s.actor t _ a (λ h. inr refl) w

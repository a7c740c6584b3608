-- ===== src/Executer/Network/Asked.antt =====
-- c/executer/executer.c: a "1" that nobody receives.
use hpv_c.Base.{ℕ, Text, Option, none, some, ◌≡◌, sym, ◌∙◌, ◌⊎◌, arith}
use hpv_c.Executer.{Metadatas, TeleportMetadata}
use hpv_c.Executer.Network.{
  waiting, Actor, closed, signalled, answered, Network, connect, request, accept, proceed_named,
  proceed, take_name, answer_with, answer, finish_with, finish, start_with, start_vm,
}
use hpv_c.Executer.Network.Steps.{
  Step, to_start, to_request, to_accept, to_proceed, to_take_name, to_answer, to_finish, to_pipe,
  to_fail_listening, to_fail_answering, to_read_null,
}
use hpv_c.Executer.Network.Kept.{update-keeps, IsDeaf}
use hpv_c.Executer.Network.Waits.{IsAsked}

-- It takes no message at the listener now.
abbrev pub IsUnheard : Actor → Type 0
IsUnheard act = (act.turn ≡ waiting) ⊎ IsDeaf act

module _ (s : Network) (k b j : ℕ) {ip : Text} (it : IsAsked ip (s.link k)) where
  connect-IsAsked :
      (vm_name : Text) (target : Option (Option Text))
      → (s.link j).stage ≡ closed
      → IsAsked ip ((connect b j vm_name target s).link k)
  unfolding connect
  connect-IsAsked vm_name none fresh = it
  connect-IsAsked vm_name (some none) fresh = it
  connect-IsAsked vm_name (some (some to)) fresh =
      update-keeps (IsAsked ip) s.link j _ k (λ h. ground arith) it

  start_with-IsAsked : (m : Option Metadatas) → IsAsked ip ((start_with b m s).link k)
  unfolding start_with
  start_with-IsAsked none = it
  start_with-IsAsked (some m) = it

  answer_with-IsAsked :
      (left : Option (TeleportMetadata × Metadatas))
      → (s.link j).stage ≡ answered
      → IsAsked ip ((answer_with b j left s).link k)
  unfolding answer_with
  answer_with-IsAsked none other = it
  answer_with-IsAsked (some (md, m)) other =
      update-keeps (IsAsked ip) s.link j _ k (λ h. ground arith) it

  proceed_named-IsAsked :
      (name : Option Text)
      → (s.link j).stage ≡ signalled
      → IsAsked ip ((proceed_named b j name s).link k)
  unfolding proceed_named
  proceed_named-IsAsked none other = it
  proceed_named-IsAsked (some name) other =
      update-keeps (IsAsked ip) s.link j _ k (λ h. ground arith) it

  finish_with-IsAsked :
      (arrived : Option Metadatas)
      → (IsAsked ip (s.link j) → ⊥)
      → IsAsked ip ((finish_with b j arrived s).link k)
  unfolding finish_with
  finish_with-IsAsked none other = it
  finish_with-IsAsked (some m) other =
      update-keeps (IsAsked ip) s.link j _ k (λ h. absurd (other h)) it

module _ {home_word one_word : Text} {host_ip : ℕ → Text} {s : Network} where
  -- A "1" to an address whose hosts take no message stays unanswered.
  pub Step-IsAsked :
      {s' : Network} (k : ℕ) {ip : Text}
      → ((t : ℕ) → ip ≡ host_ip t → IsUnheard (s.actor t))
      → IsAsked ip (s.link k)
      → Step home_word one_word host_ip s s'
      → IsAsked ip (s'.link k)
  unfolding start_vm request accept proceed take_name answer finish
  Step-IsAsked k unheard it (to_start b vm_name alive) = start_with-IsAsked s k b 0 it _
  Step-IsAsked k unheard it (to_request b j target_ip vm_name takes fresh) =
      connect-IsAsked s k b j it vm_name _ fresh
  Step-IsAsked k {ip} unheard it (to_accept t j at free other addressed) =
      update-keeps (IsAsked ip) s.link j _ k
        (λ h. absurd (ground (arith, unheard t (sym h.1 ∙ addressed)))) it
  Step-IsAsked k unheard it (to_proceed b j at from other) =
      proceed_named-IsAsked s k b j it _ other
  Step-IsAsked k {ip} unheard it (to_take_name t j vm_name at addressed other) =
      update-keeps (IsAsked ip) s.link j _ k
        (λ h. absurd (ground (arith, unheard t (sym h.1 ∙ addressed)))) it
  Step-IsAsked k unheard it (to_answer b j at from other) = answer_with-IsAsked s k b j it _ other
  Step-IsAsked k unheard it (to_finish t j vm_name frame at addressed other) =
      finish_with-IsAsked s k t j it _ (λ h. ground (arith, unheard t (sym h.1 ∙ addressed)))
  Step-IsAsked k unheard it (to_pipe b j at owner other stale) = it
  Step-IsAsked k unheard it (to_fail_listening t at) = it
  Step-IsAsked k unheard it (to_fail_answering b j at from other) = it
  Step-IsAsked k unheard it (to_read_null t at owes) = it

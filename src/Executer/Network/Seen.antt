-- ===== src/Executer/Network/Seen.antt =====
-- c/executer/executer.c: what the steps of a teleport do at its two hosts and its socket.
use hpv_c.Base.{ℕ, true, false, Text, some, ◌≡◌, ◌≢◌, sym, subst, ap, ◌∙◌}
use hpv_c.Executer.{Metadatas, TeleportMetadata, leave, arrive}
use hpv_c.Executer.Network.{
  polling, waiting, naming, taking, Actor, asked, signalled, named, described, received, answered,
  Link, Network, update, request, accept, proceed_named, proceed, take_name, answer_with, answer,
  finish_with, finish,
}
use hpv_c.Base.{Text, same_text, false, ◌>>=◌}
use hpv_c.Executer.Network.Kept.{update_same, update_other}
use hpv_c.Executer.Network.Mutual.{request_address}

-- The source `a`, the target `t` and the socket `k` in the state `s`.
pub record Seen (a t k : ℕ) (s : Network) (source target : Actor) (socket : Link) : Type 0 where
  pub at_source : s.actor a ≡ source
  pub at_target : s.actor t ≡ target
  pub at_socket : s.link k ≡ socket

in_state :
    {a t k : ℕ} {s s' : Network} {source target : Actor} {socket : Link}
    → s ≡ s'
    → Seen a t k s' source target socket
    → Seen a t k s source target socket
in_state {a} {t} {k} {source} {target} {socket} e seen =
    subst (λ u. Seen a t k u source target socket) (sym e) seen

module _ {a t k : ℕ} (apart : a ≢ t) {s : Network} {source target : Actor} {socket : Link}
    (seen : Seen a t k s source target socket) where
  at_source_moved :
      (f : Actor → Actor) (g : Link → Link)
      → Seen a t k
          (record {
            actor = update s.actor a (f (s.actor a));
            link = update s.link k (g (s.link k));
          })
          (f source)
          target
          (g socket)
  at_source_moved f g = record {
    at_source = update_same s.actor a _ ∙ ap f seen.at_source;
    at_target = update_other s.actor a _ t apart ∙ seen.at_target;
    at_socket = update_same s.link k _ ∙ ap g seen.at_socket;
  }

  at_target_moved :
      (f : Actor → Actor) (g : Link → Link)
      → Seen a t k
          (record {
            actor = update s.actor t (f (s.actor t));
            link = update s.link k (g (s.link k));
          })
          source
          (f target)
          (g socket)
  at_target_moved f g = record {
    at_source = update_other s.actor t _ a (λ e. apart (sym e)) ∙ seen.at_source;
    at_target = update_same s.actor t _ ∙ ap f seen.at_target;
    at_socket = update_same s.link k _ ∙ ap g seen.at_socket;
  }

  pub request-Seen :
      (home_word ip vm_name : Text)
      → same_text ip home_word ≡ false
      → Seen a t k
          (request home_word a k ip vm_name s)
          (record source { vm_name = some vm_name; sender = some k; turn = waiting })
          target
          (record { owner = a; to = ip; stage = asked })
  request-Seen home_word ip vm_name no_word =
      in_state (request_address home_word a k ip vm_name s no_word) (
        at_source_moved
          (λ act. record act { vm_name = some vm_name; sender = some k; turn = waiting })
          (λ l. record { owner = a; to = ip; stage = asked }))

  pub accept-Seen :
      Seen a t k
        (accept t k s)
        source
        (record target { turn = naming })
        (record socket { stage = signalled })
  unfolding accept
  accept-Seen =
      at_target_moved (λ act. record act { turn = naming }) (λ l. record l { stage = signalled })

  pub proceed-Seen :
      (vm_name : Text)
      → source.vm_name ≡ some vm_name
      → Seen a t k
          (proceed a k s)
          (record source { turn = polling })
          target
          (record socket { stage = named vm_name })
  unfolding proceed proceed_named
  proceed-Seen vm_name name =
      in_state (ap (λ o. proceed_named a k o s) (ap (λ act. act.vm_name) seen.at_source ∙ name)) (
        at_source_moved (λ act. record act { turn = polling })
          (λ l. record l { stage = named vm_name }))

  pub take_name-Seen :
      (vm_name : Text)
      → Seen a t k
          (take_name t k vm_name s)
          source
          (record target { turn = taking vm_name })
          (record socket { stage = answered })
  unfolding take_name
  take_name-Seen vm_name =
      at_target_moved (λ act. record act { turn = taking vm_name })
        (λ l. record l { stage = answered })

  pub answer-Seen :
      (host_ip : ℕ → Text) (vm_name : Text) {md : TeleportMetadata} {m : Metadatas}
      → source.vm_name ≡ some vm_name
      → leave (host_ip a) vm_name source.metadatas ≡ some (md, m)
      → Seen a t k
          (answer host_ip a k s)
          (record source { metadatas = m })
          target
          (record socket { stage = described md })
  unfolding answer answer_with
  answer-Seen host_ip vm_name {md} {m} name left =
      in_state
        (ap (λ o. answer_with a k o s)
          (ap (λ act. act.vm_name >>= λ name'. leave (host_ip a) name' act.metadatas) seen.at_source
            ∙ ap (λ o. o >>= λ name'. leave (host_ip a) name' source.metadatas) name
            ∙ left))
        (at_source_moved (λ act. record act { metadatas = m })
          (λ l. record l { stage = described md }))

  pub finish-Seen :
      (host_ip : ℕ → Text) (vm_name : Text) (md : TeleportMetadata) {m : Metadatas}
      → arrive (host_ip t) vm_name md target.metadatas ≡ some m
      → Seen a t k
          (finish host_ip t k vm_name (some md) s)
          source
          (record target { metadatas = m; owes = true; turn = polling })
          (record socket { stage = received })
  unfolding finish finish_with
  finish-Seen host_ip vm_name md {m} arrived =
      in_state
        (ap (λ o. finish_with t k o s)
          (ap (λ act. arrive (host_ip t) vm_name md act.metadatas) seen.at_target ∙ arrived))
        (at_target_moved (λ act. record act { metadatas = m; owes = true; turn = polling })
          (λ l. record l { stage = received }))

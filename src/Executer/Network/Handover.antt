-- ===== src/Executer/Network/Handover.antt =====
-- c/executer/executer.c: a teleport from its request to the receipt of the metadata.
use hpv_c.Base.{ℕ, true, false, Text, Option, none, some, ◌≡◌, ◌≢◌, refl, ap, ◌∙◌}
use hpv_c.Executer.{Metadatas, TeleportMetadata, leave, arrive}
use hpv_c.Executer.Network.{polling, closed, received, Network, name_in, frame_in}
use hpv_c.Executer.Network.Steps.{
  takes_request, to_request, to_accept, to_proceed, to_take_name, to_answer, to_finish, Reach, here,
  later,
}
use hpv_c.Base.{same_text, length, get_elem?, ◌++◌, [], ◌∷◌}
use hpv_c.Executer.{VmMetadata, find_metadata}
use hpv_c.Executer.Teleport.{HasRoom, leave-arrive}
use hpv_c.Executer.Network.Seen.{
  Seen, request-Seen, accept-Seen, proceed-Seen, take_name-Seen, answer-Seen, finish-Seen,
}

-- The steps of a teleport, one after the other.
Reach-finish :
    {home_word one_word : Text} {host_ip : ℕ → Text} (s : Network) (a t k : ℕ) (vm_name : Text)
    {md : TeleportMetadata} {m n : Metadatas}
    → a ≢ t
    → takes_request (s.actor a).turn ≡ true
    → (s.link k).stage ≡ closed
    → (s.actor t).turn ≡ polling
    → (s.actor t).owes ≡ false
    → same_text (host_ip t) home_word ≡ false
    → leave (host_ip a) vm_name (s.actor a).metadatas ≡ some (md, m)
    → arrive (host_ip t) vm_name md (s.actor t).metadatas ≡ some n
    → (s' : Network) × Reach home_word one_word host_ip s s'
      × Seen a t k s'
          (record (s.actor a) {
            metadatas = m;
            vm_name = some vm_name;
            sender = some k;
            turn = polling;
          })
          (record (s.actor t) { metadatas = n; owes = true; turn = polling })
          (record { owner = a; to = host_ip t; stage = received })
Reach-finish {home_word} {one_word} {host_ip} s a t k vm_name {md} {m} {n} apart takes fresh polls
      free no_word left arrived =
    let seen : Seen a t k s (s.actor a) (s.actor t) (s.link k) = record {
      at_source = refl;
      at_target = refl;
      at_socket = refl;
    } in
    let is_requested = request-Seen apart seen home_word (host_ip t) vm_name no_word in
    let is_accepted = accept-Seen apart is_requested in
    let is_named = proceed-Seen apart is_accepted vm_name refl in
    let is_taken = take_name-Seen apart is_named vm_name in
    let is_answered = answer-Seen apart is_taken host_ip vm_name refl left in
    (
      _,
      later
          (later
            (later
              (later
                (later (later here (to_request a k (host_ip t) vm_name takes fresh)) (
                  to_accept t k (ap (λ x. x.turn) is_requested.at_target ∙ polls)
                    (ap (λ x. x.owes) is_requested.at_target ∙ free)
                    (ap (λ x. x.stage) is_requested.at_socket)
                    (ap (λ x. x.to) is_requested.at_socket)))
                (to_proceed a k (ap (λ x. x.turn) is_accepted.at_source)
                  (ap (λ x. x.sender) is_accepted.at_source)
                  (ap (λ x. x.stage) is_accepted.at_socket)))
              (to_take_name t k vm_name (ap (λ x. x.turn) is_named.at_target)
                (ap (λ x. x.to) is_named.at_socket)
                (ap (λ x. name_in one_word x.stage) is_named.at_socket)))
            (to_answer a k (ap (λ x. x.turn) is_taken.at_source)
              (ap (λ x. x.sender) is_taken.at_source) (ap (λ x. x.stage) is_taken.at_socket)))
          (to_finish t k vm_name (some md) (ap (λ x. x.turn) is_answered.at_target)
            (ap (λ x. x.to) is_answered.at_socket)
            (ap (λ x. frame_in x.stage) is_answered.at_socket)),
      finish-Seen apart is_answered host_ip vm_name md arrived,
    )

-- A host that takes requests is asked to teleport a VM to the address, not "home", of another that
-- polls and owes no reply; a new socket is used, and the target has room and no freed name. Then
-- steps of the two lead to a state in which the VM's metadata, last on the source as `e`, is the
-- last on the target, with the home of `e` and the history of `e` with the target added; both poll
-- again, and the target owes a reply.
pub handover :
    {home_word one_word : Text} {host_ip : ℕ → Text} (s : Network) (a t k i : ℕ) (vm_name : Text)
    (e : VmMetadata) {r : Option ℕ}
    → a ≢ t
    → takes_request (s.actor a).turn ≡ true
    → (s.link k).stage ≡ closed
    → (s.actor t).turn ≡ polling
    → (s.actor t).owes ≡ false
    → same_text (host_ip t) home_word ≡ false
    → find_metadata vm_name 0 (s.actor a).metadatas.items none ≡ some (some i)
    → get_elem? (s.actor a).metadatas.items i ≡ some e
    → find_metadata vm_name 0 (s.actor t).metadatas.items none ≡ some r
    → HasRoom (s.actor t).metadatas
    → (s' : Network) × (e' : VmMetadata) × (j : ℕ) × Reach home_word one_word host_ip s s'
      × ((s'.actor a).turn ≡ polling)
      × ((s'.actor t).turn ≡ polling)
      × ((s'.actor t).owes ≡ true)
      × (find_metadata vm_name 0 (s'.actor t).metadatas.items none ≡ some (some j))
      × (get_elem? (s'.actor t).metadatas.items j ≡ some e')
      × (e'.home ≡ e.home)
      × (e'.history ≡ e.history ++ host_ip t ∷ [])
handover {home_word} {host_ip} s a t k i vm_name e apart takes fresh polls free no_word at got known
      room =
    let (md, m, n, e', left, arrived, found, there, home, history, _, _) =
      leave-arrive (host_ip a) (host_ip t) home_word vm_name (s.actor a).metadatas
        (s.actor t).metadatas i e at got known room in
    let (s', reach, seen) =
      Reach-finish s a t k vm_name apart takes fresh polls free no_word left arrived in
    (
      s',
      e',
      length (s.actor t).metadatas.items,
      reach,
      ap (λ x. x.turn) seen.at_source,
      ap (λ x. x.turn) seen.at_target,
      ap (λ x. x.owes) seen.at_target,
      ap (λ x. find_metadata vm_name 0 x.metadatas.items none) seen.at_target ∙ found,
      ap (λ x. get_elem? x.metadatas.items (length (s.actor t).metadatas.items)) seen.at_target
          ∙ there,
      home,
      history,
    )

-- ===== src/Executer/Network/Taken.antt =====
-- c/executer/executer.c: how many VMs a host takes over.
use hpv_c.Base.{ℕ, true, Text, Option, none, some, ◌≡◌, refl, ◌⊎◌, inl, inr, arith}
use hpv_c.Executer.{Metadatas, TeleportMetadata}
use hpv_c.Executer.Network.{
  polling, waiting, taking, gone, Actor, Network, set_turn, connect, request, accept, proceed_named,
  proceed, take_name, answer_with, answer, finish_with, finish, start_with, start_vm,
}
use hpv_c.Executer.Network.Steps.{
  takes_request, Step, to_start, to_request, to_accept, to_proceed, to_take_name, to_answer,
  to_finish, to_pipe, to_fail_listening, to_fail_answering, to_read_null, Reach, here, later,
}
use hpv_c.Base.{>>=-eq-some, ◌+◌}
use hpv_c.Executer.Network.Kept.{update-keeps, IsDeaf, polling_deaf}
use hpv_c.Executer.Network.Guests.{guests, guests-arrive, guests-leave, guests-start_message}

-- No VM was taken over, or one was, and the listener is not read again.
abbrev pub TookOne : Actor → Type 0
TookOne act = (guests act.metadatas.items ≡ 0) ⊎ ((guests act.metadatas.items ≡ 1) × IsDeaf act)

-- The end of the program.
ended-TookOne : (act : Actor) → TookOne act → TookOne (record act { turn = gone })
ended-TookOne act (inl none_yet) = inl none_yet
ended-TookOne act (inr (one, deaf)) = inr (one, refl)

requested-TookOne :
    (act : Actor) (name : Text) (sender : Option ℕ)
    → takes_request act.turn ≡ true
    → TookOne act
    → TookOne (record act { vm_name = some name; sender = sender; turn = waiting })
      × TookOne (record act { vm_name = some name; turn = polling })
requested-TookOne act name sender takes (inl none_yet) = (inl none_yet, inl none_yet)
requested-TookOne act name sender takes (inr (one, deaf)) =
    let still = polling_deaf act.owes act.turn takes deaf in (inr (one, still), inr (one, still))

module _ (s : Network) (a b k : ℕ) (took : TookOne (s.actor a)) where
  ends : TookOne ((set_turn b gone s).actor a)
  ends = update-keeps TookOne s.actor b _ a (ended-TookOne (s.actor b)) took

  connect-TookOne :
      (vm_name : Text) (target : Option (Option Text))
      → takes_request (s.actor b).turn ≡ true
      → TookOne ((connect b k vm_name target s).actor a)
  unfolding connect
  connect-TookOne vm_name none takes = ends
  connect-TookOne vm_name (some none) takes =
      update-keeps TookOne s.actor b _ a
        (λ h. (requested-TookOne (s.actor b) vm_name none takes h).1) took
  connect-TookOne vm_name (some (some ip)) takes =
      update-keeps TookOne s.actor b _ a
        (λ h. (requested-TookOne (s.actor b) vm_name (some k) takes h).0) took

  start_with-TookOne :
      (m : Option Metadatas)
      → ((m' : Metadatas) → m ≡ some m' → guests m'.items ≡ guests (s.actor b).metadatas.items + 0)
      → TookOne ((start_with b m s).actor a)
  unfolding start_with
  start_with-TookOne none same = ends
  start_with-TookOne (some m) same =
      update-keeps TookOne s.actor b _ a (λ h. ground (arith, same m refl)) took

  answer_with-TookOne :
      (left : Option (TeleportMetadata × Metadatas))
      → ((md : TeleportMetadata) (m' : Metadatas)
          → left ≡ some (md, m')
          → guests m'.items ≡ guests (s.actor b).metadatas.items)
      → TookOne ((answer_with b k left s).actor a)
  unfolding answer_with
  answer_with-TookOne none same = ends
  answer_with-TookOne (some (md, m)) same =
      update-keeps TookOne s.actor b _ a (λ h. ground (arith, same md m refl)) took

  proceed_named-TookOne :
      (name : Option Text)
      → (s.actor b).turn ≡ waiting
      → TookOne ((proceed_named b k name s).actor a)
  unfolding proceed_named
  proceed_named-TookOne none at = ends
  proceed_named-TookOne (some name) at = update-keeps TookOne s.actor b _ a (λ h. ground arith) took

  finish_with-TookOne :
      (arrived : Option Metadatas) (vm_name : Text)
      → (s.actor b).turn ≡ taking vm_name
      → ((m' : Metadatas)
          → arrived ≡ some m'
          → guests m'.items ≡ guests (s.actor b).metadatas.items + 1)
      → TookOne ((finish_with b k arrived s).actor a)
  unfolding finish_with
  finish_with-TookOne none vm_name at more = ends
  finish_with-TookOne (some m) vm_name at more =
      update-keeps TookOne s.actor b _ a (λ h. ground (arith, more m refl)) took

module _ {home_word one_word : Text} {host_ip : ℕ → Text} {s : Network} where
  Step-TookOne :
      {s' : Network} (a : ℕ)
      → TookOne (s.actor a)
      → Step home_word one_word host_ip s s'
      → TookOne (s'.actor a)
  unfolding start_vm request accept proceed take_name answer finish
  Step-TookOne a took (to_start b vm_name alive) =
      start_with-TookOne s a b 0 took _ (λ m'. guests-start_message _ vm_name _)
  Step-TookOne a took (to_request b k target_ip vm_name takes fresh) =
      connect-TookOne s a b k took vm_name _ takes
  Step-TookOne a took (to_accept t k at free is_asked addressed) =
      update-keeps TookOne s.actor t _ a (λ h. ground arith) took
  Step-TookOne a took (to_proceed b k at from is_signalled) =
      proceed_named-TookOne s a b k took _ at
  Step-TookOne a took (to_take_name t k vm_name at addressed it) =
      update-keeps TookOne s.actor t _ a (λ h. ground arith) took
  Step-TookOne a took (to_answer b k at from is_answered) =
      answer_with-TookOne s a b k took _ (λ md m' left.
        let (name, _, it) = >>=-eq-some (s.actor b).vm_name _ left in guests-leave _ name _ it)
  Step-TookOne a took (to_finish t k vm_name frame at addressed it) =
      finish_with-TookOne s a t k took _ vm_name at (λ m' arrived.
        let (md, _, made) = >>=-eq-some frame _ arrived in guests-arrive _ vm_name md _ made)
  Step-TookOne a took (to_pipe b k at owner is_answered other) =
      update-keeps TookOne s.actor b _ a (λ h. ground arith) took
  Step-TookOne a took (to_fail_listening t at) = ends s a t 0 took
  Step-TookOne a took (to_fail_answering b k at from is_answered) = ends s a b k took
  Step-TookOne a took (to_read_null t at owes) = ends s a t 0 took

-- A host that has taken over no VM takes over one at most, in any order of the steps of all hosts;
-- once it has, its listener owes a reply or its program has ended, and it takes no message again.
pub Reach-TookOne :
    {home_word one_word : Text} {host_ip : ℕ → Text} {s s' : Network} (a : ℕ)
    → guests (s.actor a).metadatas.items ≡ 0
    → Reach home_word one_word host_ip s s'
    → (guests (s'.actor a).metadatas.items ≡ 0)
      ⊎ ((guests (s'.actor a).metadatas.items ≡ 1) × IsDeaf (s'.actor a))
Reach-TookOne a none_yet here = inl none_yet
Reach-TookOne a none_yet (later r step) = Step-TookOne a (Reach-TookOne a none_yet r) step

-- ===== src/Executer/Network/Kept.antt =====
-- c/executer/executer.c: what every step of `comm_actor` keeps, and a listener that is never read again.
use mathlib.Core.Logic.{dite}
use native.Mathlib.Decide.{ℕ_discrete}
use hpv_c.Base.{ℕ, Bool, true, false, Text, Option, none, some, ◌≡◌, ◌≢◌, refl, sym, subst, arith}
use hpv_c.Executer.{Metadatas, TeleportMetadata}
use hpv_c.Executer.Network.{
  Turn, polling, piping, waiting, naming, taking, gone, Actor, Network, update, connect, request,
  accept, proceed_named, proceed, take_name, answer_with, answer, finish_with, finish, start_with,
  start_vm,
}
use hpv_c.Executer.Network.Steps.{
  takes_request, Step, to_start, to_request, to_accept, to_proceed, to_take_name, to_answer,
  to_finish, to_pipe, to_fail_listening, to_fail_answering, to_read_null,
}

-- No message of a listener is received any more.
abbrev pub is_deaf : Bool → Turn → Bool
is_deaf owes gone = true
is_deaf owes naming = false
is_deaf owes (taking vm_name) = false
is_deaf owes _ = owes

pub update_same : {A : Type 0} (f : ℕ → A) (i : ℕ) (v : A) → update f i v i ≡ v
update_same f i v = elim (ℕ_discrete i i) as (λ d. dite d (λ x. v) (λ x. f i) ≡ v) [
  | yes e ↦ refl
  | no differs ↦ absurd (differs refl)
]

pub update_other : {A : Type 0} (f : ℕ → A) (i : ℕ) (v : A) (j : ℕ) → i ≢ j → update f i v j ≡ f j
update_other f i v j differs = elim (ℕ_discrete i j) as (λ d. dite d (λ x. v) (λ x. f j) ≡ f j) [
  | yes e ↦ absurd (differs e)
  | no _ ↦ refl
]

-- What the value at an index passes on to its update, is kept at each index.
pub update-keeps :
    {A : Type 0} (Q : A → Type 0) (f : ℕ → A) (i : ℕ) (v : A) (j : ℕ)
    → (Q (f i) → Q v)
    → Q (f j)
    → Q (update f i v j)
update-keeps Q f i v j keeps h = elim (ℕ_discrete i j) as (λ d. Q (dite d (λ x. v) (λ x. f j))) [
  | yes e ↦ keeps (subst (λ x. Q (f x)) (sym e) h)
  | no _ ↦ h
]

abbrev pub IsDeaf : Actor → Type 0
IsDeaf act = is_deaf act.owes act.turn ≡ true

pub polling_deaf :
    (owes : Bool) (t : Turn)
    → takes_request t ≡ true
    → is_deaf owes t ≡ true
    → is_deaf owes polling ≡ true
polling_deaf owes polling takes deaf = deaf
polling_deaf owes piping takes deaf = deaf
polling_deaf owes waiting takes deaf = absurd (ground arith)
polling_deaf owes naming takes deaf = absurd (ground arith)
polling_deaf owes (taking x) takes deaf = absurd (ground arith)
polling_deaf owes gone takes deaf = absurd (ground arith)

module _ (s : Network) (a b k : ℕ) (deaf : IsDeaf (s.actor a)) where
  connect-IsDeaf :
      (vm_name : Text) (target : Option (Option Text))
      → takes_request (s.actor b).turn ≡ true
      → IsDeaf ((connect b k vm_name target s).actor a)
  unfolding connect
  connect-IsDeaf vm_name none takes = update-keeps IsDeaf s.actor b _ a (λ h. refl) deaf
  connect-IsDeaf vm_name (some none) takes =
      update-keeps IsDeaf s.actor b _ a (polling_deaf _ _ takes) deaf
  connect-IsDeaf vm_name (some (some ip)) takes =
      update-keeps IsDeaf s.actor b _ a (polling_deaf _ _ takes) deaf

  start_with-IsDeaf : (m : Option Metadatas) → IsDeaf ((start_with b m s).actor a)
  unfolding start_with
  start_with-IsDeaf none = update-keeps IsDeaf s.actor b _ a (λ h. refl) deaf
  start_with-IsDeaf (some m) = update-keeps IsDeaf s.actor b _ a (λ h. h) deaf

  answer_with-IsDeaf :
      (left : Option (TeleportMetadata × Metadatas)) → IsDeaf ((answer_with b k left s).actor a)
  unfolding answer_with
  answer_with-IsDeaf none = update-keeps IsDeaf s.actor b _ a (λ h. refl) deaf
  answer_with-IsDeaf (some (md, m)) = update-keeps IsDeaf s.actor b _ a (λ h. h) deaf

  proceed_named-IsDeaf :
      (name : Option Text)
      → (s.actor b).turn ≡ waiting
      → IsDeaf ((proceed_named b k name s).actor a)
  unfolding proceed_named
  proceed_named-IsDeaf none at = update-keeps IsDeaf s.actor b _ a (λ h. refl) deaf
  proceed_named-IsDeaf (some name) at = update-keeps IsDeaf s.actor b _ a (λ h. ground arith) deaf

  finish_with-IsDeaf : (arrived : Option Metadatas) → IsDeaf ((finish_with b k arrived s).actor a)
  unfolding finish_with
  finish_with-IsDeaf none = update-keeps IsDeaf s.actor b _ a (λ h. refl) deaf
  finish_with-IsDeaf (some m) = update-keeps IsDeaf s.actor b _ a (λ h. refl) deaf

module _ {home_word one_word : Text} {host_ip : ℕ → Text} {s : Network} where
  -- A host whose listener is never read again stays so.
  pub Step-IsDeaf :
      {s' : Network} (a : ℕ)
      → IsDeaf (s.actor a)
      → Step home_word one_word host_ip s s'
      → IsDeaf (s'.actor a)
  unfolding start_vm request accept proceed take_name answer finish
  Step-IsDeaf a deaf (to_start b vm_name alive) = start_with-IsDeaf s a b 0 deaf _
  Step-IsDeaf a deaf (to_request b k target_ip vm_name takes fresh) =
      connect-IsDeaf s a b k deaf vm_name _ takes
  Step-IsDeaf a deaf (to_accept t k at free is_asked addressed) =
      update-keeps IsDeaf s.actor t _ a (λ h. ground arith) deaf
  Step-IsDeaf a deaf (to_proceed b k at from is_signalled) = proceed_named-IsDeaf s a b k deaf _ at
  Step-IsDeaf a deaf (to_take_name t k vm_name at addressed it) =
      update-keeps IsDeaf s.actor t _ a (λ h. ground arith) deaf
  Step-IsDeaf a deaf (to_answer b k at from is_answered) = answer_with-IsDeaf s a b k deaf _
  Step-IsDeaf a deaf (to_finish t k vm_name frame at addressed it) =
      finish_with-IsDeaf s a t k deaf _
  Step-IsDeaf a deaf (to_pipe b k at owner is_answered other) =
      update-keeps IsDeaf s.actor b _ a (λ h. ground arith) deaf
  Step-IsDeaf a deaf (to_fail_listening t at) = update-keeps IsDeaf s.actor t _ a (λ h. refl) deaf
  Step-IsDeaf a deaf (to_fail_answering b k at from is_answered) =
      update-keeps IsDeaf s.actor b _ a (λ h. refl) deaf
  Step-IsDeaf a deaf (to_read_null t at owes) = update-keeps IsDeaf s.actor t _ a (λ h. refl) deaf

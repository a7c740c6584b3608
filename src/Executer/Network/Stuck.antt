-- ===== src/Executer/Network/Stuck.antt =====
-- c/executer/executer.c: hosts that wait for each other, or for a host that owes a reply.
use hpv_c.Base.{ℕ, Bool, true, Text, some, ◌≡◌, refl, sym, subst, ◌⊎◌, ◌||◌, ◌==◌, inl, inr, arith}
use hpv_c.Executer.Network.{waiting, gone, Network}
use hpv_c.Executer.Network.Steps.{Step, Reach, here, later}
use hpv_c.Executer.Network.Kept.{IsDeaf}
use hpv_c.Executer.Network.Waits.{IsAsked, Waits, Step-Waits}
use hpv_c.Executer.Network.Kept.{Step-IsDeaf}
use hpv_c.Executer.Network.Asked.{IsUnheard, Step-IsAsked}

-- A host whose "1" can be received by hosts of the set `in_set` only.
pub record Asleep (host_ip : ℕ → Text) (in_set : ℕ → Bool) (s : Network) (a : ℕ) : Type 0 where
  pub socket : ℕ
  pub ip : Text
  pub turn : (s.actor a).turn ≡ waiting
  pub sender : (s.actor a).sender ≡ some socket
  pub one : IsAsked ip (s.link socket)
  pub hearers : (t : ℕ) → ip ≡ host_ip t → in_set t ≡ true

-- Each host of the set waits for hosts of the set, or is never heard of again.
abbrev pub Stuck : (ℕ → Text) → (ℕ → Bool) → Network → Type 0
Stuck host_ip in_set s = (a : ℕ) → in_set a ≡ true → Asleep host_ip in_set s a ⊎ IsDeaf (s.actor a)

hearers-IsUnheard :
    {host_ip : ℕ → Text} {in_set : ℕ → Bool} {s : Network} {ip : Text}
    → Stuck host_ip in_set s
    → ((t : ℕ) → ip ≡ host_ip t → in_set t ≡ true)
    → (t : ℕ) → ip ≡ host_ip t
    → IsUnheard (s.actor t)
hearers-IsUnheard stuck hearers t e = elim (stuck t (hearers t e)) [
  | inl asleep ↦ inl asleep.turn
  | inr deaf ↦ inr deaf
]

module _ {home_word one_word : Text} {host_ip : ℕ → Text} (in_set : ℕ → Bool) where
  -- A host of such a set goes on waiting, unless its program ends.
  Step-Asleep :
      {s s' : Network} (a : ℕ)
      → Stuck host_ip in_set s
      → Asleep host_ip in_set s a
      → Step home_word one_word host_ip s s'
      → Asleep host_ip in_set s' a ⊎ ((s'.actor a).turn ≡ gone)
  Step-Asleep a stuck asleep step =
      let one =
        Step-IsAsked asleep.socket (hearers-IsUnheard stuck asleep.hearers) asleep.one step in
      elim (Step-Waits a asleep.socket (inl (asleep.turn, asleep.sender)) asleep.one.0 step) [
        | inl (turn, sender) ↦ inl (record {
          socket = asleep.socket;
          ip = asleep.ip;
          turn = turn;
          sender = sender;
          one = one;
          hearers = asleep.hearers;
        })
        | inr ended ↦ inr ended
      ]

  Step-Stuck :
      {s s' : Network}
      → Stuck host_ip in_set s
      → Step home_word one_word host_ip s s'
      → Stuck host_ip in_set s'
  Step-Stuck stuck step a member = elim (stuck a member) [
    | inl asleep ↦ elim (Step-Asleep a stuck asleep step) [
      | inl still ↦ inl still
      | inr ended ↦ inr (rw ended refl)
    ]
    | inr deaf ↦ inr (Step-IsDeaf a deaf step)
  ]

  pub Reach-Stuck :
      {s s' : Network}
      → Stuck host_ip in_set s
      → Reach home_word one_word host_ip s s'
      → Stuck host_ip in_set s'
  Reach-Stuck stuck here = stuck
  Reach-Stuck stuck (later r step) = Step-Stuck (Reach-Stuck stuck r) step

  Reach-Waits :
      {s s' : Network} (a : ℕ)
      → Stuck host_ip in_set s
      → (asleep : Asleep host_ip in_set s a) → Reach home_word one_word host_ip s s'
      → Waits asleep.socket (s'.actor a) × IsAsked asleep.ip (s'.link asleep.socket)
  Reach-Waits a stuck asleep here = (inl (asleep.turn, asleep.sender), asleep.one)
  Reach-Waits a stuck asleep (later r step) =
      let (waits, one) = Reach-Waits a stuck asleep r in
      (
        Step-Waits a asleep.socket waits one.0 step,
        Step-IsAsked asleep.socket (hearers-IsUnheard (Reach-Stuck stuck r) asleep.hearers) one
            step,
      )

  -- While the hosts of a set wait for each other, or are never heard of again, one that waits goes
  -- on waiting, in any order of the steps, unless its program ends.
  pub Reach-waiting :
      {s s' : Network} (a : ℕ)
      → Stuck host_ip in_set s
      → Asleep host_ip in_set s a
      → Reach home_word one_word host_ip s s'
      → ((s'.actor a).turn ≡ waiting) ⊎ ((s'.actor a).turn ≡ gone)
  Reach-waiting a stuck asleep r = elim (Reach-Waits a stuck asleep r).0 [
    | inl still ↦ inl still.0
    | inr ended ↦ inr ended
  ]

-- The two hosts.
abbrev pub pair : ℕ → ℕ → ℕ → Bool
pair a t u = (u == a) || (u == t)

pub pair-first : (a t u : ℕ) → a ≡ u → pair a t u ≡ true
pair-first a t u e = ground arith

pub pair-second : (a t u : ℕ) → t ≡ u → pair a t u ≡ true
pair-second a t u e = ground arith

pub pair-cases : (a t u : ℕ) → pair a t u ≡ true → (u ≡ a) ⊎ (u ≡ t)
pair-cases a t u member = ground arith

-- A host that asks for a teleport to a host that owes a reply, as each host does that has taken
-- over a VM, waits for ever in `zsock_wait`, unless its program ends: no other host has the address.
pub unanswered_teleport :
    {home_word one_word : Text} {host_ip : ℕ → Text} {s s' : Network} (a t k : ℕ)
    → ((u : ℕ) → host_ip t ≡ host_ip u → t ≡ u)
    → (s.actor a).turn ≡ waiting
    → (s.actor a).sender ≡ some k
    → IsAsked (host_ip t) (s.link k)
    → IsDeaf (s.actor t)
    → Reach home_word one_word host_ip s s'
    → ((s'.actor a).turn ≡ waiting) ⊎ ((s'.actor a).turn ≡ gone)
unanswered_teleport {host_ip} {s} a t k only turn sender one deaf r =
    Reach-waiting (pair a t) a stuck asleep r
  where
    asleep : Asleep host_ip (pair a t) s a
    asleep = record {
      socket = k;
      ip = host_ip t;
      turn = turn;
      sender = sender;
      one = one;
      hearers = λ u e. pair-second a t u (only u e);
    }

    stuck : Stuck host_ip (pair a t) s
    stuck u member = elim (pair-cases a t u member) [
      | inl e ↦ inl (subst (Asleep host_ip (pair a t) s) (sym e) asleep)
      | inr e ↦ inr (subst (λ v. IsDeaf (s.actor v)) (sym e) deaf)
    ]

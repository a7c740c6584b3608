-- ===== src/Executer/Network/Mutual.antt =====
-- c/executer/executer.c: two hosts that are to teleport a VM to each other.
use hpv_c.Base.{same_text, ℕ, false, Text, some, ◌≡◌, ◌≢◌, refl, sym, subst, ap, ◌∙◌, ◌⊎◌, inl, inr}
use hpv_c.Executer.{teleport_target}
use hpv_c.Executer.Network.{waiting, gone, asked, Network, update, connect, request}
use hpv_c.Executer.Network.Steps.{Reach}
use hpv_c.Executer.Network.Kept.{update_same, update_other}
use hpv_c.Executer.Network.Stuck.{
  Asleep, Stuck, Reach-waiting, pair, pair-first, pair-second, pair-cases,
}

-- The state after a request whose address is found.
abbrev pub asking : ℕ → ℕ → Text → Text → Network → Network
asking a k ip vm_name s = record {
  actor =
      update s.actor a
        (record (s.actor a) { vm_name = some vm_name; sender = some k; turn = waiting });
  link = update s.link k (record { owner = a; to = ip; stage = asked });
}

pub request_address :
    (home_word : Text) (a k : ℕ) (ip vm_name : Text) (s : Network)
    → same_text ip home_word ≡ false
    → request home_word a k ip vm_name s ≡ asking a k ip vm_name s
unfolding request connect teleport_target
request_address home_word a k ip vm_name s no_word = rw no_word refl

-- Two hosts that are asked to teleport a VM to each other, the second before it has received the
-- "1" of the first, both wait for ever in `zsock_wait`, in any order of the later steps, unless
-- their programs end: no other host has their addresses, and these are not the word "home".
pub mutual_teleports :
    {home_word one_word : Text} {host_ip : ℕ → Text} (s : Network) {s' : Network} (a b k j : ℕ)
    (vm_name other_name : Text)
    → ((t u : ℕ) → host_ip t ≡ host_ip u → t ≡ u)
    → ((t : ℕ) → same_text (host_ip t) home_word ≡ false)
    → a ≢ b
    → k ≢ j
    → Reach home_word one_word host_ip
        (request home_word b j (host_ip a) other_name (request home_word a k (host_ip b) vm_name s))
        s'
    → (((s'.actor a).turn ≡ waiting) ⊎ ((s'.actor a).turn ≡ gone))
      × (((s'.actor b).turn ≡ waiting) ⊎ ((s'.actor b).turn ≡ gone))
mutual_teleports {home_word} {one_word} {host_ip} s {s'} a b k j vm_name other_name only no_word
      hosts sockets r =
    (Reach-waiting (pair a b) a stuck first reach, Reach-waiting (pair a b) b stuck second reach)
  where
    once : Network
    once = asking a k (host_ip b) vm_name s

    twice : Network
    twice = asking b j (host_ip a) other_name once

    requests :
        request home_word b j (host_ip a) other_name (request home_word a k (host_ip b) vm_name s)
        ≡ twice
    requests =
        ap (request home_word b j (host_ip a) other_name)
          (request_address home_word a k (host_ip b) vm_name s (no_word b))
        ∙ request_address home_word b j (host_ip a) other_name once (no_word a)

    reach : Reach home_word one_word host_ip twice s'
    reach = subst (λ t. Reach home_word one_word host_ip t s') requests r

    at_first : twice.actor a ≡ once.actor a
    at_first = update_other once.actor b _ a (λ e. hosts (sym e))

    first_turn :
        once.actor a
        ≡ record (s.actor a) { vm_name = some vm_name; sender = some k; turn = waiting }
    first_turn = update_same s.actor a _

    first_link : twice.link k ≡ record { owner = a; to = host_ip b; stage = asked }
    first_link = update_other once.link j _ k (λ e. sockets (sym e)) ∙ update_same s.link k _

    second_link : twice.link j ≡ record { owner = b; to = host_ip a; stage = asked }
    second_link = update_same once.link j _

    second_turn :
        twice.actor b
        ≡ record (once.actor b) { vm_name = some other_name; sender = some j; turn = waiting }
    second_turn = update_same once.actor b _

    first : Asleep host_ip (pair a b) twice a
    first = record {
      socket = k;
      ip = host_ip b;
      turn = ap (λ act. act.turn) (at_first ∙ first_turn);
      sender = ap (λ act. act.sender) (at_first ∙ first_turn);
      one = (ap (λ l. l.stage) first_link, ap (λ l. l.to) first_link);
      hearers = λ u e. pair-second a b u (only b u e);
    }

    second : Asleep host_ip (pair a b) twice b
    second = record {
      socket = j;
      ip = host_ip a;
      turn = ap (λ act. act.turn) second_turn;
      sender = ap (λ act. act.sender) second_turn;
      one = (ap (λ l. l.stage) second_link, ap (λ l. l.to) second_link);
      hearers = λ u e. pair-first a b u (only a u e);
    }

    stuck : Stuck host_ip (pair a b) twice
    stuck u member = elim (pair-cases a b u member) [
      | inl e ↦ inl (subst (Asleep host_ip (pair a b) twice) (sym e) first)
      | inr e ↦ inl (subst (Asleep host_ip (pair a b) twice) (sym e) second)
    ]

-- ===== src/Guest/Balance.antt =====
-- The assignment of a new process to a VM: a request served by `guest_load_balance`.
pub mod Least
use hpv_c.Base.{
  ℕ, zero, suc, ◌+◌, ◌*◌, Bool, Option, none, some, List, [], ◌∷◌, leb, length, get_elem?,
  if◌then◌else◌, ◌>>=◌,
}
use hpv_c.Double.{Double}
use hpv_c.Utility.{checked_int}

-- What the balancer reads of a VM: its properties "mem" and "net", and the size of its process list.
pub record Load (D : Type 0) : Type 0 where
  pub mem : D
  pub net : D
  pub jobs : ℕ

-- The doubles that the request's fields hold.
pub record LoadBalanceRequest (D : Type 0) : Type 0 where
  pub memory : D
  pub net : D

-- What the balancer keeps between two requests.
pub record Balancer : Type 0 where
  pub max_guest_job : ℕ
  pub selected_vm_number : ℕ

-- What the loop over the VMs changes.
pub record Scan (D : Type 0) : Type 0 where
  pub min_cost : D
  pub selected_vm_number : ℕ
  pub new_load : ℕ

module _ {D : Type 0} ⦃d : Double D⦄ (vms : List (Load D)) (max_guest_job : ℕ)
    (request : LoadBalanceRequest D) where
  -- The powers with the process, less those without.
  unfoldable pub marginal_cost : Load D → D
  marginal_cost vm =
      let n = d.of_int (length vms) in
      let jobs = d.of_int max_guest_job in
      let max_memory = d.lit 1000000000 0 in
      let max_net = d.lit 125000000 0 in
      let more_jobs = d.pow n (d.div (d.of_int (vm.jobs + 1)) jobs) in
      let more_memory = d.pow n (d.share vm.mem request.memory max_memory) in
      let more_net = d.pow n (d.share vm.net request.net max_net) in
      let after = d.add (d.add more_jobs more_memory) more_net in
      let less_jobs = d.sub after (d.pow n (d.div (d.of_int vm.jobs) jobs)) in
      let less_memory = d.sub less_jobs (d.pow n (d.div vm.mem max_memory)) in
      d.sub less_memory (d.pow n (d.div vm.net max_net))

-- The loop over VMs of any kind, by their cost and the size of their process lists.
module _ {D V : Type 0} ⦃d : Double D⦄ (cost : V → D) (jobs : V → ℕ) where
  -- The body of the loop, at VM `i`.
  unfoldable pub visit : ℕ → V → Scan D → Scan D
  visit i vm s =
      if d.lt (cost vm) s.min_cost
      then record { min_cost = cost vm; selected_vm_number = i; new_load = jobs vm + 1 }
      else s

  -- The loop with `left` VMs to visit; after the last VM comes the first.
  unfoldable pub scan : List V → ℕ → ℕ → Scan D → Option (Scan D)
  scan vms zero i s = some s
  scan vms (suc left) i s =
      let i' = if leb (length vms) i then 0 else i in
      do vm ← get_elem? vms i'; scan vms left (i' + 1) (visit i' vm s)

-- The variables before the loop.
abbrev pub before_scan : {D : Type 0} → D → Balancer → Scan D
before_scan dbl_max b = record {
  min_cost = dbl_max;
  selected_vm_number = b.selected_vm_number;
  new_load = 0;
}

-- DBL_MAX is a parameter, and so is the cost of a VM under a limit. The answer is
-- `selected_vm_number`.
unfoldable pub assign_by :
    {D V : Type 0} ⦃d : Double D⦄ → (ℕ → V → D) → (V → ℕ) → D → List V → Balancer → Option Balancer
unfolding scan
assign_by cost jobs dbl_max vms b = do
  s ←
      scan (cost b.max_guest_job) jobs vms (length vms) (b.selected_vm_number + 1)
        (before_scan dbl_max b)
  max ←
      if leb b.max_guest_job s.new_load
      then checked_int (b.max_guest_job * 2)
      else some b.max_guest_job
  some (record { max_guest_job = max; selected_vm_number = s.selected_vm_number })

unfoldable pub assign :
    {D : Type 0} ⦃d : Double D⦄
    → D
    → List (Load D)
    → LoadBalanceRequest D
    → Balancer
    → Option Balancer
unfolding assign_by
assign dbl_max vms request b =
    assign_by (λ max. marginal_cost vms max request) (λ vm. vm.jobs) dbl_max vms b

-- ===== src/Project/Balance.antt =====
-- `guest_load_balance` of simgrid-project/hpvc.c: the costs count the cores of a VM, and the loop over
-- the VMs is that of simgrid/organizer (Guest/Balance).
use hpv_c.Base.{
  Bool, true, ltb, ◌&&◌, [], ◌∷◌, ◌>>◌, require, ℕ, ◌+◌, ◌*◌, ◌<◌, ◌≡◌, refl, Option, none, some,
  List, ◌==◌, length, if◌then◌else◌, ◌>>=◌,
}
use hpv_c.Double.{Double, IsOrdered}
use hpv_c.Utility.{int_bound}
use hpv_c.Guest.Balance.{LoadBalanceRequest, Balancer, assign_by}
use hpv_c.Guest.Balance.Least.{AssignedBy, assign_by-Assigned}
use hpv_c.Project.Pool.{GuestVm}

-- The numbers of jobs that the cores of the VMs take are ints.
unfoldable pub cores_fit : {D : Type 0} → ℕ → List (GuestVm D) → Bool
cores_fit max_guest_job [] = true
cores_fit max_guest_job (vm ∷ vms) =
    ltb (vm.cores * max_guest_job) int_bound && cores_fit max_guest_job vms

module _ {D : Type 0} ⦃d : Double D⦄ where
  -- The powers with the process, less those without. The product is an int, by `cores_fit`.
  unfoldable pub marginal_cost : List (GuestVm D) → LoadBalanceRequest D → ℕ → GuestVm D → D
  marginal_cost vms request max_guest_job vm =
      let n = d.of_int (length vms) in
      let jobs = d.of_int (vm.cores * max_guest_job) in
      let max_memory = d.lit 1000000000 0 in
      let max_net = d.lit 125000000 0 in
      let more_jobs = d.pow n (d.div (d.of_int (vm.jobs + 1)) jobs) in
      let more_memory = d.pow n (d.share vm.mem request.memory max_memory) in
      let more_net = d.pow n (d.share vm.net request.net max_net) in
      let after = d.add (d.add more_jobs more_memory) more_net in
      let less_jobs = d.sub after (d.pow n (d.div (d.of_int vm.jobs) jobs)) in
      let less_memory = d.sub less_jobs (d.pow n (d.div vm.mem max_memory)) in
      d.sub less_memory (d.pow n (d.div vm.net max_net))

  -- The message of a request: 0 asks for a VM, 1 is not served, and any other ends the balancer, which
  -- is `none` inside.
  unfoldable pub serve_request :
      D → List (GuestVm D) → ℕ → LoadBalanceRequest D → Balancer → Option (Option Balancer)
  serve_request dbl_max vms kind request b =
      let answered =
        require (cores_fit b.max_guest_job vms)
        >> assign_by (λ max. marginal_cost vms request max) (λ vm. vm.jobs) dbl_max vms b
        >>= λ b'. some (some b') in
      if kind == 0 then answered else if kind == 1 then some (some b) else some none

  -- A request for a VM is answered as in simgrid/organizer, at the costs that count the cores.
  pub serve_request-AssignedBy :
      (dbl_max : D) (vms : List (GuestVm D)) (request : LoadBalanceRequest D) (b : Balancer)
      → IsOrdered D
      → b.selected_vm_number < length vms
      → cores_fit b.max_guest_job vms ≡ true
      → 0 < b.max_guest_job
      → b.max_guest_job * 2 < int_bound
      → (b' : Balancer) × (serve_request dbl_max vms 0 request b ≡ some (some b'))
        × AssignedBy dbl_max (λ max. marginal_cost vms request max) (λ vm. vm.jobs) vms b b'
  unfolding serve_request
  serve_request-AssignedBy dbl_max vms request b laws in_vms fits limit room =
      let (b', e, a) =
        assign_by-Assigned (λ max. marginal_cost vms request max) (λ vm. vm.jobs) dbl_max vms b laws
          in_vms limit room in
      (b', rw (fits, e) refl, a)

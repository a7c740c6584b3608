-- ===== src/Guest/Run/Live.antt =====
-- What holds at every point of the run: the invariant, and that it holds at the start.
use hpv_c.Base.{
  ℕ, zero, suc, ◌+◌, ◌*◌, ◌≤◌, ◌<◌, ◌≡◌, refl, List, [], ◌∷◌, some, arith, ltb, ◌==◌, if◌then◌else◌,
  length, get_elem?, replicate, get_elem?-replicate, get_elem?_bound, length-replicate, without,
  All,
}
use hpv_c.Double.{Double}
use hpv_c.Guest.Balance.{Load}
use hpv_c.Guest.Tasks.{ProcessArgv, Setup}
use hpv_c.Guest.Run.{Simulation, ready, idle_vm}

-- How many of the processes run on the VM.
abbrev pub running_on : ℕ → List ProcessArgv → ℕ
running_on v [] = 0
running_on v (a ∷ rest) = (if a.home_vm == v then 1 else 0) + running_on v rest

pub running_on-length : (v : ℕ) (running : List ProcessArgv) → running_on v running ≤ length running
running_on-length v [] = omega arith
running_on-length v (a ∷ rest) = ground (arith, running_on-length v rest)

pub running_on-without :
    (v q : ℕ) (running : List ProcessArgv) {a : ProcessArgv}
    → get_elem? running q ≡ some a
    → running_on v running ≡ (if a.home_vm == v then 1 else 0) + running_on v (without q running)
running_on-without v q [] h = cc
running_on-without v zero (x ∷ rest) {a} h = let same : x ≡ a = cc in rw same refl
running_on-without v (suc q) (x ∷ rest) h = omega (arith, running_on-without v q rest h)

module _ {D : Type 0} (s : Setup D) where
  -- The home and the target exist, and `slow_down` has a place for the process.
  abbrev pub IsWell : ProcessArgv → Type 0
  IsWell a =
      (a.home_vm < s.number_of_vms)
      × (a.target_mailbox < s.number_of_vms)
      × (a.process_sequence < s.number_of_processes)

  -- The processes on each VM are those that run there, and its mailbox process until it is closed.
  abbrev pub Jobs : List (Load D) → List ProcessArgv → ℕ → Type 0
  Jobs vms running closed =
      (v : ℕ) (vm : Load D)
      → get_elem? vms v ≡ some vm
      → vm.jobs ≡ (if ltb v closed then 0 else 1) + running_on v running

  pub record IsLive (m : Simulation D) : Type 0 where
    pub size : length m.guest.vms ≡ s.number_of_vms
    pub slots : length m.guest.slow_down ≡ s.number_of_processes
    pub jobs : Jobs m.guest.vms m.guest.running m.closed
    pub well : All IsWell m.guest.running
    pub balance : m.created ≡ m.received + length m.guest.running
    pub all : m.created ≤ s.number_of_processes
    pub selected : m.guest.balancer.selected_vm_number < s.number_of_vms
    pub limit : 0 < m.guest.balancer.max_guest_job
    pub doubled : m.guest.balancer.max_guest_job ≤ 2 * m.created + 2
    pub closing : 0 < m.closed → m.received ≡ s.number_of_processes

module _ {D : Type 0} ⦃d : Double D⦄ (s : Setup D) where
  idle_jobs :
      (v : ℕ) (vm : Load D)
      → get_elem? (replicate s.number_of_vms (idle_vm s)) v ≡ some vm
      → vm.jobs ≡ 1
  idle_jobs v vm at =
      let lt = get_elem?_bound (replicate s.number_of_vms (idle_vm s)) v at in
      let got =
        get_elem?-replicate s.number_of_vms (idle_vm s) v
          (omega (arith, lt, length-replicate s.number_of_vms (idle_vm s))) in
      let same : idle_vm s ≡ vm = cc in rw (← same) refl

  pub ready-IsLive : 0 < s.number_of_vms → IsLive s (ready s)
  ready-IsLive some_vm = record {
    size = length-replicate s.number_of_vms _;
    slots = length-replicate s.number_of_processes _;
    jobs = λ v vm at. ground (arith, idle_jobs v vm at);
    well = tt;
    balance = refl;
    all = omega arith;
    selected = some_vm;
    limit = omega arith;
    doubled = omega arith;
    closing = λ h. absurd (omega arith);
  }

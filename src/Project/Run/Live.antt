-- ===== src/Project/Run/Live.antt =====
-- What holds at every point of the run of the two clusters.
use hpv_c.Base.{
  ℕ, zero, suc, ◌+◌, ◌*◌, ◌≤◌, ◌<◌, ◌≡◌, refl, sym, ◌∙◌, inl, inr, Bool, true, false, not, ◌&&◌,
  Option, none, some, List, [], ◌∷◌, arith, lt→ltb, ltb, ◌==◌, if◌then◌else◌, length, set,
  length-set, get_elem?, get_elem?-set, without, All, Bool-cases,
}
use native.Mathlib.Nat.{mul-le-mul_left}
use hpv_c.Project.Pool.{GuestVm}
use hpv_c.Double.{Double}
use hpv_c.Project.Tasks.{target_of, Draw, ProcessArgv, Cluster, Setup}
use hpv_c.Project.Balance.{cores_fit}
use hpv_c.Utility.{int_bound}
use hpv_c.Project.Run.{Simulation}

module _ {D : Type 0} where
  -- Whether the process is one of the VM of the cluster.
  abbrev pub on : Bool → ℕ → ProcessArgv D → ℕ
  on true v a = if (a.cluster_id == 0) && (a.home_vm == v) then 1 else 0
  on false v a = if not (a.cluster_id == 0) && (a.home_vm == v) then 1 else 0

  -- How many of the processes run on the VM.
  abbrev pub running_on : Bool → ℕ → List (ProcessArgv D) → ℕ
  running_on is_first v [] = 0
  running_on is_first v (a ∷ rest) = on is_first v a + running_on is_first v rest

  pub running_on-length :
      (is_first : Bool) (v : ℕ) (running : List (ProcessArgv D))
      → running_on is_first v running ≤ length running
  running_on-length is_first v [] = omega arith
  running_on-length true v (a ∷ rest) = ground (arith, running_on-length true v rest)
  running_on-length false v (a ∷ rest) = ground (arith, running_on-length false v rest)

  pub running_on-without :
      (is_first : Bool) (v q : ℕ) (running : List (ProcessArgv D)) {a : ProcessArgv D}
      → get_elem? running q ≡ some a
      → running_on is_first v running ≡ on is_first v a + running_on is_first v (without q running)
  running_on-without is_first v q [] h = cc
  running_on-without is_first v zero (x ∷ rest) {a} h = let same : x ≡ a = cc in rw same refl
  running_on-without is_first v (suc q) (x ∷ rest) h =
      omega (arith, running_on-without is_first v q rest h)

  -- The processes on a VM: its mailbox process until it is closed, and those that have it as home.
  abbrev pub load : Bool → List (ProcessArgv D) → ℕ → ℕ → ℕ
  load is_first running closed v = (if ltb v closed then 0 else 1) + running_on is_first v running

  abbrev pub JobsAre : (ℕ → ℕ) → List (GuestVm D) → Type 0
  JobsAre jobs vms = (v : ℕ) (vm : GuestVm D) → get_elem? vms v ≡ some vm → vm.jobs ≡ jobs v

  -- Only the jobs of the VM at `h` change.
  pub JobsAre-set :
      (vms : List (GuestVm D)) (jobs jobs' : ℕ → ℕ) (h : ℕ) (vm' : GuestVm D)
      → h < length vms
      → JobsAre jobs vms
      → vm'.jobs ≡ jobs' h
      → ((v : ℕ) → ((h == v) ≡ false) → jobs v ≡ jobs' v)
      → JobsAre jobs' (set vms h vm')
  JobsAre-set vms jobs jobs' h vm' lt are here others v vm at = elim (Bool-cases (h == v)) [
    | inl e ↦
        let same : vm' ≡ vm = cc (rw e at (get_elem?-set vms h v vm' lt), at) in
        let place : h ≡ v = ground arith in rw (← same, ← place) here
    | inr ne ↦
        let got : get_elem? vms v ≡ some vm = sym (rw ne at (get_elem?-set vms h v vm' lt)) ∙ at in
        are v vm got ∙ others v ne
  ]

  -- A cluster with `number_of_vms` VMs, whose lists have a place for each process.
  pub record IsCluster (number_of_vms number_of_processes : ℕ) (jobs : ℕ → ℕ) (c : Cluster D)
      : Type 0 where
    pub size : length c.vms ≡ number_of_vms
    pub slots : length c.slow_down ≡ number_of_processes
    pub times : length c.finish_times ≡ number_of_processes
    pub are : JobsAre jobs c.vms

  pub IsCluster-jobs :
      {n p : ℕ} {jobs jobs' : ℕ → ℕ} {c : Cluster D}
      → ((v : ℕ) → jobs v ≡ jobs' v)
      → IsCluster n p jobs c
      → IsCluster n p jobs' c
  IsCluster-jobs same l = record {
    size = l.size;
    slots = l.slots;
    times = l.times;
    are = λ v vm at. l.are v vm at ∙ same v;
  }

  -- The VM at `h` is changed.
  pub IsCluster-set :
      {n p : ℕ} {jobs : ℕ → ℕ} (jobs' : ℕ → ℕ) (c : Cluster D) (h : ℕ) (vm' : GuestVm D)
      → h < n
      → IsCluster n p jobs c
      → vm'.jobs ≡ jobs' h
      → ((v : ℕ) → ((h == v) ≡ false) → jobs v ≡ jobs' v)
      → IsCluster n p jobs' (record c { vms = set c.vms h vm' })
  IsCluster-set {jobs} jobs' c h vm' lt l here others = record {
    size = length-set c.vms h vm' ∙ l.size;
    slots = l.slots;
    times = l.times;
    are = JobsAre-set c.vms jobs jobs' h vm' (omega (arith, l.size)) l.are here others;
  }

-- The process that is created in one cluster only.
abbrev pub half : {D : Type 0} → Option (Draw D) → ℕ
half none = 0
half (some x) = 1

module _ {D : Type 0} (s : Setup D) where
  -- Its cores take four times the processes as jobs.
  abbrev pub HasCores : GuestVm D → Type 0
  HasCores vm = vm.cores * (4 * s.number_of_processes) < int_bound

  pub HasCores-cores_fit :
      (max_guest_job : ℕ) (vms : List (GuestVm D))
      → max_guest_job ≤ 4 * s.number_of_processes
      → All (HasCores) vms
      → cores_fit max_guest_job vms ≡ true
  unfolding cores_fit
  HasCores-cores_fit max_guest_job [] le have = refl
  HasCores-cores_fit max_guest_job (vm ∷ vms) le have =
      let rest = HasCores-cores_fit max_guest_job vms le have.1 in
      let most : vm.cores * max_guest_job ≤ vm.cores * (4 * s.number_of_processes) =
        mul-le-mul_left vm.cores le in
      let fits = lt→ltb (vm.cores * max_guest_job) int_bound (omega (arith, most, have.0)) in
      rw (fits, rest) refl

  -- The home and the target exist, and there is a place for its times.
  abbrev pub IsWell : ProcessArgv D → Type 0
  IsWell a =
      (a.home_vm < s.number_of_vms)
      × (a.target_mailbox < s.number_of_vms)
      × (a.process_sequence < s.number_of_processes)

module _ {D : Type 0} ⦃d : Double D⦄ (s : Setup D) where
  pub record IsLive (m : Simulation D) : Type 0 where
    pub first :
        IsCluster s.number_of_vms s.number_of_processes
          (load true m.clusters.running m.closed_first)
          m.clusters.first
    pub second :
        IsCluster s.number_of_vms s.number_of_processes
          (load false m.clusters.running m.closed_second)
          m.clusters.second
    pub cores : All (HasCores s) m.clusters.first.vms
    pub well : All (IsWell s) m.clusters.running
    pub drawn :
        (x : Draw D)
        → m.pending ≡ some x
        → (target_of s x < s.number_of_vms) × (m.created < s.number_of_processes)
    pub balance : 2 * m.created + half m.pending ≡ m.received + length m.clusters.running
    pub all : m.created ≤ s.number_of_processes
    pub selected : m.clusters.balancer.selected_vm_number < s.number_of_vms
    pub limit : 0 < m.clusters.balancer.max_guest_job
    pub doubled : m.clusters.balancer.max_guest_job ≤ 4 * m.created + 4 * half m.pending + 2
    pub closing : 0 < m.closed_first + m.closed_second → m.received ≡ 2 * s.number_of_processes
    pub over :
        m.finish ≡ true → (m.closed_first ≡ s.number_of_vms) × (m.closed_second ≡ s.number_of_vms)
    pub told : m.serving ≡ false → m.closed_first ≡ s.number_of_vms

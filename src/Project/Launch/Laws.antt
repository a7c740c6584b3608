-- ===== src/Project/Launch/Laws.antt =====
-- What the cluster is after `launch_master`, and the first visit of the policy to a host.
use hpv_c.Base.{
  ℕ, zero, suc, ◌+◌, ◌*◌, ◌/◌, ◌%◌, ◌≤◌, ◌<◌, ◌≡◌, refl, inl, inr, true, false, not, Bool,
  Bool-cases, Option, none, some, List, [], ◌∷◌, arith, min, ltb, ◌==◌, length, length-replicate,
  get_elem?, get_elem?-replicate, get_elem?_out, replicate, if◌then◌else◌,
}
use hpv_c.Double.{Double}
use hpv_c.Project.Pool.{HostVmInfo, GuestVm, Pool, host_vm_info, max_vm_to_pm}
use hpv_c.Project.Place.Counts.{on_pm}
use hpv_c.Project.Period.Total.{IsTidy}
use hpv_c.Project.Launch.{Launched, empty_info, share_of, launched_pool, launched, launch_master}
use hpv_c.Project.Launch.Loop.{Lists, Starting, planned, launch_hosts-Starting}

host_vm_info-replicate : (hosts h : ℕ) → host_vm_info (replicate hosts none) h ≡ none
unfolding host_vm_info
host_vm_info-replicate hosts h = elim (Bool-cases (ltb h hosts)) [
  | inl lt ↦ rw (get_elem?-replicate {A = Option HostVmInfo} hosts none h (ground arith)) refl
  | inr ge ↦
      rw
        (get_elem?_out {A = Option HostVmInfo} (replicate hosts none) h
          (ground (arith, length-replicate {A = Option HostVmInfo} hosts none)))
        refl
]

module _ {D : Type 0} where
  on_pm-pos :
      (vms : List (GuestVm D)) (v : ℕ) (vm : GuestVm D)
      → get_elem? vms v ≡ some vm
      → 0 < on_pm vm.pm vms
  on_pm-pos [] v vm got = cc
  on_pm-pos (x ∷ vms) zero vm got = let same : x ≡ vm = cc in rw same (ground arith)
  on_pm-pos (x ∷ vms) (suc v) vm got = omega (arith, on_pm-pos vms v vm got)

  Starting-none :
      (hosts first : ℕ) → Starting {D = D} first first (replicate hosts none) empty_info []
  Starting-none hosts first = record {
    counts = λ h info got. cc (host_vm_info-replicate hosts h);
    known = λ h lo hi. absurd (omega arith);
    homes = λ v vm got. cc;
    below = λ v vm got. cc;
    fresh = λ h lt. refl;
    own = record { counted = refl; fits = omega arith; slots = refl };
    names = λ k lt. absurd (omega arith);
    listed = λ v vm info got at. cc;
    own_listed = λ v vm got here. cc;
  }

  -- The pool of a cluster whose hosts are those from `first` on, `involved` of them.
  pub record IsStarted (first involved : ℕ) (p : Pool D) : Type 0 where
    pub tidy : IsTidy p
    pub known :
        (h : ℕ)
        → first ≤ h
        → h < first + involved
        → (info : HostVmInfo) × (host_vm_info p.infos h ≡ some info)
    pub homes :
        (v : ℕ) (vm : GuestVm D)
        → get_elem? p.vms v ≡ some vm
        → (first ≤ vm.pm) × (vm.pm < first + involved)
    pub listed :
        (v : ℕ) (vm : GuestVm D)
        → get_elem? p.vms v ≡ some vm
        → (info : HostVmInfo) × (host_vm_info p.infos vm.pm ≡ some info) × Lists info v

  Starting-IsStarted :
      (first involved vm_to_host : ℕ) (infos : List (Option HostVmInfo)) (vms : List (GuestVm D))
      → Starting first (first + involved) infos empty_info vms
      → IsStarted first involved (launched_pool vm_to_host (infos, vms))
  Starting-IsStarted first involved vm_to_host infos vms s =
      let inside : (v : ℕ) (vm : GuestVm D) → get_elem? vms v ≡ some vm → vm.pm < first + involved =
        λ v vm got.
          let pos = on_pm-pos vms v vm got in
          elim (Bool-cases (vm.pm == first + involved)) [
            | inl last ↦
                let same : vm.pm ≡ first + involved = ground arith in
                let some_vm : 0 < on_pm (first + involved) vms = rw same at pos in
                absurd (omega (arith, s.own.counted))
            | inr other ↦ let le = s.below v vm got in ground arith
          ] in
      record {
        tidy = record {
          counted = record {
            counts = λ h info got. (s.counts h info got).1;
            homes = λ v vm got. s.known vm.pm (s.homes v vm got) (inside v vm got);
          };
          lists = λ h i info got lt. (s.counts h info got).2 i lt;
        };
        known = s.known;
        homes = λ v vm got. (s.homes v vm got, inside v vm got);
        listed = λ v vm got.
            let (info, at) = s.known vm.pm (s.homes v vm got) (inside v vm got) in
            (info, at, s.listed v vm info got at);
      }

planned_odd :
    (vm_to_host left j : ℕ)
    → planned vm_to_host true left j ≡ left * vm_to_host + (left + j % 2) / 2
planned_odd vm_to_host zero j = omega arith
planned_odd vm_to_host (suc left) j = grind (arith, planned_odd vm_to_host left (j + 1))

planned_even : (vm_to_host left j : ℕ) → planned vm_to_host false left j ≡ left * vm_to_host
planned_even vm_to_host zero j = omega arith
planned_even vm_to_host (suc left) j = grind (arith, planned_even vm_to_host left (j + 1))

-- The number of VMs that the loops leave, in closed form.
launch_count :
    (no_vm involved first started : ℕ)
    → started
      ≡ min (0 + planned (no_vm / involved) (not (no_vm % involved == 0)) involved first) no_vm
    → started ≡ (
        if not (no_vm % involved == 0)
        then min (involved * (no_vm / involved) + (involved + first % 2) / 2) no_vm
        else no_vm)
launch_count no_vm involved first started all = elim (Bool-cases (no_vm % involved == 0)) [
  | inl even ↦
      let total = planned_even (no_vm / involved) involved first in
      let whole : no_vm % involved ≡ 0 = ground arith in
      let parts : involved * (no_vm / involved) + no_vm % involved ≡ no_vm = grind arith in
      let count = rw even at all in rw even (omega (arith, total, whole, parts, count))
  | inr odd ↦
      let total = planned_odd (no_vm / involved) involved first in
      let count = rw odd at all in rw odd (omega (arith, total, count))
]

share_of_le :
    (vm_to_host : ℕ) (vm_placement_method : Bool) (j : ℕ)
    → vm_to_host + (if vm_placement_method then 1 else 0) ≤ max_vm_to_pm
    → share_of vm_to_host vm_placement_method j ≤ max_vm_to_pm
share_of_le vm_to_host true j room = ground arith
share_of_le vm_to_host false j room = ground arith

module _ {D : Type 0} ⦃d : Double D⦄ (vm_cores hosts : ℕ) (host_speed : D)
    (involved total_cluster_host no_vm no_process cluster_id : ℕ) (some_hosts : 0 < involved)
    (platform : cluster_id * total_cluster_host + involved ≤ hosts) where
  -- Whether the number of VMs is no multiple of that of the hosts.
  abbrev uneven : Bool
  uneven = not (no_vm % involved == 0)

  -- A launch on the hosts of its cluster does not fault if the even share of the VMs, and one more
  -- where the share is not even, is 5 at most. Every host counts the VMs that were started on it
  -- and lists them, each VM at a place of its own host, all of them on hosts of the cluster. All VMs are started if their number is a multiple of
  -- that of the hosts. If it is not, those beyond one VM more than the share on every host with an odd
  -- number are left out.
  pub launch_master-IsStarted :
      no_vm / involved + (if uneven then 1 else 0) ≤ max_vm_to_pm
      → (l : Launched D) × (launch_master vm_cores hosts host_speed involved total_cluster_host
            no_vm no_process cluster_id
          ≡ some l)
        × IsStarted (cluster_id * total_cluster_host) involved l.pool
        × (length l.pool.vms ≡ (
            if uneven
            then min
                (involved * (no_vm / involved)
                  + (involved + cluster_id * total_cluster_host % 2) / 2)
                no_vm
            else no_vm))
        × (l.pool.max_pm_vm ≡ no_vm / involved + 1)
        × (l.pool.migration_count ≡ 0)
  unfolding launch_master
  launch_master-IsStarted room =
      let first = cluster_id * total_cluster_host in
      let (infos, vms, done, s, all) =
        launch_hosts-Starting vm_cores no_vm (no_vm / involved) uneven first
          (λ j. share_of_le (no_vm / involved) uneven j room) involved first 0
          (replicate hosts none) [] (Starting-none hosts first) (omega arith)
          (omega (arith, length-replicate {A = Option HostVmInfo} hosts none)) refl (omega arith) in
      let some_host : (involved == 0) ≡ false = ground arith in
      let count = launch_count no_vm involved first (length vms) all in
      (
        launched host_speed (no_vm / involved) no_process cluster_id first (infos, vms),
        rw (some_host, done) refl,
        Starting-IsStarted first involved (no_vm / involved) infos vms s,
        count,
        refl,
        refl,
      )

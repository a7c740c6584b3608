-- ===== src/Project/Launch/Idle.antt =====
-- What a launch of simgrid-project/hpvc.c leaves for the processes: VMs without any, and a place for the
-- times of each.
use hpv_c.Base.{
  not, ◌*◌, ◌/◌, ◌%◌, replicate, subst, ℕ, zero, suc, ◌+◌, ◌≡◌, refl, inl, inr, Bool, Bool-cases,
  Option, none, some, List, [], ◌∷◌, ◌++◌, ltb, ◌==◌, length, length-replicate, set, store, All,
  All-append, >>=-eq-some, require,
}
use hpv_c.Double.{Double}
use hpv_c.Placement.Launch.{dynar_set}
use hpv_c.Project.Pool.{HostVmInfo, GuestVm}
use hpv_c.Project.Launch.{
  Launched, empty_info, started_on, new_vm, start_vms, launch_hosts, launched, launch_master,
}

module _ {A : Type 0} (P : A → Type 0) where
  pub All-set : (xs : List A) (i : ℕ) (a : A) → P a → All P xs → All P (set xs i a)
  All-set [] i a p h = tt
  All-set (x ∷ xs) zero a p h = (p, h.1)
  All-set (x ∷ xs) (suc i) a p h = (h.0, All-set xs i a p h.1)

  All-dynar_set :
      (xs : List A) (i : ℕ) (a : A) {ys : List A}
      → P a
      → All P xs
      → dynar_set xs i a ≡ some ys
      → All P ys
  All-dynar_set xs i a {ys} p h made = elim (Bool-cases (ltb i (length xs))) [
    | inl lt ↦ let same : set xs i a ≡ ys = cc (rw lt at made) in rw (← same) (All-set xs i a p h)
    | inr ge ↦ elim (Bool-cases (i == length xs)) [
      | inl last ↦
          let same : xs ++ a ∷ [] ≡ ys = cc (rw (ge, last) at made) in
          rw (← same) (All-append P xs (a ∷ []) h (p, tt))
      | inr out ↦ let fault : none ≡ some ys = rw (ge, out) at made in absurd (cc fault)
    ]
  ]

module _ {D : Type 0} ⦃d : Double D⦄ (vm_cores : ℕ) where
  abbrev pub IsIdle : GuestVm D → Type 0
  IsIdle vm = (vm.jobs ≡ 0) × (vm.cores ≡ vm_cores)

  start_vms-IsIdle :
      (j n i : ℕ) (hvi : HostVmInfo) (vms : List (GuestVm D)) {r : HostVmInfo × List (GuestVm D)}
      → All IsIdle vms
      → start_vms vm_cores j n i hvi vms ≡ some r
      → All IsIdle r.1
  unfolding start_vms
  start_vms-IsIdle j zero i hvi vms {r} h made = let same : vms ≡ r.1 = cc in rw (← same) h
  start_vms-IsIdle j (suc n) i hvi vms h made =
      let (vms', added, rest) = >>=-eq-some (dynar_set vms i (new_vm vm_cores j)) _ made in
      let (index, stored, done) = >>=-eq-some (store hvi.vms_index hvi.number_of_vms i) _ rest in
      start_vms-IsIdle j n (i + 1) _ vms' (All-dynar_set IsIdle vms i _ (refl, refl) h added) done

  launch_hosts-IsIdle :
      (no_vm vm_to_host : ℕ) (vm_placement_method : Bool) (left j i : ℕ)
      (infos : List (Option HostVmInfo)) (vms : List (GuestVm D))
      {r : List (Option HostVmInfo) × List (GuestVm D)}
      → All IsIdle vms
      → launch_hosts vm_cores no_vm vm_to_host vm_placement_method left j i infos vms ≡ some r
      → All IsIdle r.1
  unfolding launch_hosts
  launch_hosts-IsIdle no_vm vm_to_host vm_placement_method zero j i infos vms {r} h made =
      let same : vms ≡ r.1 = cc in rw (← same) h
  launch_hosts-IsIdle no_vm vm_to_host vm_placement_method (suc left) j i infos vms h made =
      let started = started_on no_vm vm_to_host vm_placement_method j i in
      let (_, host, rest) = >>=-eq-some (require (ltb j (length infos))) _ made in
      let (r, ran, done) = >>=-eq-some (start_vms vm_cores j started i empty_info vms) _ rest in
      launch_hosts-IsIdle no_vm vm_to_host vm_placement_method left (j + 1) (i + started) _ r.1
        (start_vms-IsIdle j started i empty_info vms h ran) done

  -- After a launch no VM has a process, all have the cores asked for, and the lists of times have an entry for each process.
  pub launch_master-IsIdle :
      (hosts : ℕ) (host_speed : D) (involved total_cluster_host no_vm no_process cluster_id : ℕ)
      {l : Launched D}
      → launch_master vm_cores hosts host_speed involved total_cluster_host no_vm no_process
          cluster_id
        ≡ some l
      → All IsIdle l.pool.vms
        × (length l.slow_down ≡ no_process)
        × (length l.finish_times ≡ no_process)
  unfolding launch_master
  launch_master-IsIdle hosts host_speed involved total_cluster_host no_vm no_process cluster_id {l}
        made =
      let (_, some_host, rest) = >>=-eq-some (require (not (involved == 0))) _ made in
      let (placed, ran, done) =
        >>=-eq-some
          (launch_hosts vm_cores no_vm (no_vm / involved) (not (no_vm % involved == 0)) involved
            (cluster_id * total_cluster_host) 0 (replicate hosts none) [])
          _ rest in
      let idle = launch_hosts-IsIdle no_vm (no_vm / involved) _ involved _ 0 _ [] tt ran in
      let same : launched host_speed (no_vm / involved) no_process cluster_id
            (cluster_id * total_cluster_host) placed
          ≡ l =
        cc in
      subst
        (λ x.
          All IsIdle x.pool.vms
          × (length x.slow_down ≡ no_process)
          × (length x.finish_times ≡ no_process))
        same (idle, length-replicate no_process _, length-replicate no_process _)

-- ===== src/Placement/Tests.antt =====
-- A platform of two involved hosts with two VMs each, and one host for the load balancer.
use hpv_c.Base.{
  ℕ, ◌+◌, ◌/◌, ◌<◌, ◌≡◌, refl, subst, [], ◌∷◌, some, none, arith, length, get_elem?, ◌==◌,
  if◌then◌else◌,
}
use hpv_c.Utility.{remove_item_from_array}
use hpv_c.Double.{Milli, milli_double}
use hpv_c.Placement.Platform.{Platform, DataOfPm, Vm, Cluster, NamesDiffer}
use hpv_c.Placement.Invariant.{IsPlaced, owner}
use hpv_c.Placement.Launch.{Launched, launched, add_vm, place_vm, place_vms, launch_master}
use hpv_c.Placement.Launch.Laws.{launch_master-IsPlaced, launch_master_remainder}
use hpv_c.Placement.Migrate.{find_slot, remove_slot, migrate_vm}
use hpv_c.Placement.Migrate.Laws.{migrate_vm-IsPlaced}

abbrev pub platform : Platform
platform = record { number_of_hosts = 3; host_name = λ i. i + 100; scan_number = λ n. some n }

pub names_differ : NamesDiffer platform
names_differ i j e = omega arith

abbrev pub first_pm : DataOfPm
first_pm = record { pm_name = some 100; number_of_vms = 2; vms = 0 ∷ 1 ∷ 0 ∷ 0 ∷ 0 ∷ [] }

abbrev pub second_pm : DataOfPm
second_pm = record { pm_name = some 101; number_of_vms = 2; vms = 2 ∷ 3 ∷ 0 ∷ 0 ∷ 0 ∷ [] }

abbrev pub idle : ℕ → Vm Milli
idle host = record { pm = host; mem = 0; net = 0 }

abbrev pub four_vms : Cluster Milli
four_vms = record {
  data_of_pms = first_pm ∷ second_pm ∷ [];
  vm_list = idle 0 ∷ idle 0 ∷ idle 1 ∷ idle 1 ∷ [];
}

launch_four : launch_master {D = Milli} platform 5 2 4 3 ≡ some (launched platform 5 2 3 four_vms 1)
unfolding launch_master place_vms place_vm add_vm
launch_four = refl

-- VM 1 moves to the second host.
migrate_second :
    migrate_vm platform 2 1 1 1 1 four_vms
    ≡ some (record {
      data_of_pms =
          record first_pm { number_of_vms = 1 }
          ∷ record second_pm { number_of_vms = 3; vms = 2 ∷ 3 ∷ 1 ∷ 0 ∷ 0 ∷ [] }
          ∷ [];
      vm_list = idle 0 ∷ idle 1 ∷ idle 1 ∷ idle 1 ∷ [];
    })
unfolding migrate_vm find_slot remove_slot remove_item_from_array
migrate_second = refl

pub four_vms-IsPlaced : IsPlaced platform 2 four_vms
four_vms-IsPlaced =
    let (l, done, placed, owners, loads, vms, slow, balancer) =
      launch_master-IsPlaced {D = Milli} platform 5 2 2 3 (omega arith) (omega arith) (omega arith)
        (omega arith) in
    let same : l ≡ launched platform 5 2 3 four_vms 1 = cc launch_four in
    subst (λ (k : Launched Milli). IsPlaced platform 2 k.cluster) same placed

migrate_vm-IsPlaced_example :
    (c : Cluster Milli) × (migrate_vm platform 2 1 1 1 1 four_vms ≡ some c)
    × IsPlaced platform 2 c
    × ((v : ℕ) → owner c v ≡ (if 1 == v then some 1 else owner four_vms v))
    × (length c.vm_list ≡ 4)
migrate_vm-IsPlaced_example =
    migrate_vm-IsPlaced platform 2 four_vms 1 1 0 second_pm names_differ (omega arith)
      four_vms-IsPlaced refl refl (omega arith)

launch_master_remainder_example : launch_master {D = Milli} platform 5 2 5 3 ≡ none
launch_master_remainder_example =
    launch_master_remainder platform 5 2 5 3 (omega arith) (omega arith) (omega arith) (omega arith)
      (omega arith)

launch_master-IsPlaced_example :
    (l : Launched Milli) × (launch_master {D = Milli} platform 5 2 4 3 ≡ some l)
    × IsPlaced platform 2 l.cluster
    × ((v : ℕ) → v < 4 → owner l.cluster v ≡ some (v / 2))
    × ((i : ℕ) (pm : DataOfPm) → get_elem? l.cluster.data_of_pms i ≡ some pm → pm.number_of_vms ≡ 2)
    × (length l.cluster.vm_list ≡ 4)
    × (length l.slow_down ≡ 3)
    × (l.load_balancer_host ≡ 2)
launch_master-IsPlaced_example =
    launch_master-IsPlaced platform 5 2 2 3 (omega arith) (omega arith) (omega arith) (omega arith)

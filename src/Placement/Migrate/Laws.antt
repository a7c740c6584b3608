-- ===== src/Placement/Migrate/Laws.antt =====
-- `migrate_vm` keeps the placement consistent.
use hpv_c.Base.{
  ℕ, ◌+◌, ◌≤◌, ◌<◌, ◌≡◌, refl, inl, inr, Option, none, some, List, [], ◌∷◌, arith, get_elem?, set,
  length, count-append, if◌then◌else◌, ◌==◌, get_elem?-in, get_elem?-set, get_elem?_bound,
  length-set, take-set_end, Bool-cases,
}
use native.Mathlib.Numerals.{add-one}
use hpv_c.Placement.Platform.{Platform, DataOfPm, Vm, Cluster, NamesDiffer, pm_capacity}
use hpv_c.Placement.Invariant.{AllPms, AllPms-set, IsPm, IsPm-owns, IsPlaced, active, owner, pm_of}
use hpv_c.Placement.Migrate.{find_pm, remove_from, append_to, migrate_vm}
use hpv_c.Placement.Migrate.Removal.{remove_slot-Removed, find_pm_home}

-- A map of VMs to hosts with one entry changed.
abbrev pub assign : ℕ → Option ℕ → (ℕ → Option ℕ) → ℕ → Option ℕ
assign vm h owns v = if vm == v then h else owns v

module _ (p : Platform) (involved : ℕ) where
  record Slots (owns : ℕ → Option ℕ) (pms : List DataOfPm) : Type 0 where
    size : length pms ≡ involved
    known : AllPms (IsPm owns) pms
    named : AllPms (λ i pm. pm.pm_name ≡ some (p.host_name i)) pms

  module _ (owns : ℕ → Option ℕ) (pms : List DataOfPm) (s : Slots owns pms) (vm : ℕ) where
    remove_from-Slots :
        (h : ℕ)
        → owns vm ≡ some h
        → h < involved
        → (pms' : List DataOfPm) × (remove_from pms vm (some h) ≡ some pms')
          × Slots (assign vm none owns) pms'
          × ((k : ℕ) (pm : DataOfPm)
              → get_elem? pms' k ≡ some pm
              → (old : DataOfPm) × (get_elem? pms k ≡ some old)
                × (pm.number_of_vms ≤ old.number_of_vms))
    unfolding remove_from
    remove_from-Slots h own lt =
        let (pm, got) = get_elem?-in pms h (rw s.size lt) in
        let k : IsPm owns h pm = s.known h pm got in
        let (j, pm', found, done, r) =
          remove_slot-Removed vm pm (rw k.slots k.room) (rw (k.holds vm, own) (ground arith)) in
        (
          set pms h pm',
          rw (got, found, done),
          record {
            size = rw (length-set pms h pm') s.size;
            known =
                AllPms-set _ _ pms h pm' (rw s.size lt)
                  (record {
                    slots = rw r.slots k.slots;
                    room = omega (arith, r.fewer, k.room);
                    holds = λ v. ground (arith, r.count_less v, k.holds v);
                  })
                  (λ i q ne old. record {
                    slots = old.slots;
                    room = old.room;
                    holds = λ v. ground (arith, old.holds v);
                  })
                  s.known;
            named =
                AllPms-set _ _ pms h pm' (rw s.size lt) (rw r.name (s.named h pm got))
                  (λ i q ne old. old) s.named;
          },
          λ i q e. elim (Bool-cases (h == i)) [
            | inl same ↦ (
              pm,
              ground (arith),
              ground (arith, r.fewer, get_elem?-set pms h i pm' (rw s.size lt)),
            )
            | inr other ↦
                (q, ground (arith, get_elem?-set pms h i pm' (rw s.size lt)), ground arith)
          ],
        )

    append_to-Slots :
        (t : ℕ) (pm : DataOfPm)
        → owns vm ≡ none
        → get_elem? pms t ≡ some pm
        → pm.number_of_vms < pm_capacity
        → (pms' : List DataOfPm) × (append_to pms vm t ≡ some pms')
          × Slots (assign vm (some t) owns) pms'
    unfolding append_to
    append_to-Slots t pm own got lt =
        let k : IsPm owns t pm = s.known t pm got in
        let b : t < length pms = get_elem?_bound pms t got in
        let pm' : DataOfPm = record pm {
          vms = set pm.vms pm.number_of_vms vm;
          number_of_vms = pm.number_of_vms + 1;
        } in
        (
          set pms t pm',
          rw got (ground (arith, k.slots)),
          record {
            size = rw (length-set pms t pm') s.size;
            known =
                AllPms-set _ _ pms t pm' b
                  (record {
                    slots = rw (length-set pm.vms pm.number_of_vms vm) k.slots;
                    room = omega arith;
                    holds = λ v.
                        rw
                          (
                            add-one,
                            take-set_end pm.number_of_vms pm.vms vm (rw k.slots lt),
                            count-append v (active pm) (vm ∷ []),
                          )
                          (ground (arith, k.holds v));
                  })
                  (λ i q ne old. record {
                    slots = old.slots;
                    room = old.room;
                    holds = λ v. ground (arith, old.holds v);
                  })
                  s.known;
            named = AllPms-set _ _ pms t pm' b (s.named t pm got) (λ i q ne old. old) s.named;
          },
        )

pub owner_some :
    {D : Type 0} (o : Option (Vm D)) {h : ℕ}
    → pm_of o ≡ some h
    → (moved : Vm D) × (o ≡ some moved) × (moved.pm ≡ h)
owner_some none e = cc
owner_some (some moved) e = (moved, refl, ground arith)

owner-set :
    {D : Type 0} (vms : List (Vm D)) (vm v t : ℕ) (moved : Vm D)
    → get_elem? vms vm ≡ some moved
    → pm_of (get_elem? (set vms vm (record moved { pm = t })) v)
      ≡ (if vm == v then some t else pm_of (get_elem? vms v))
owner-set vms vm v t moved at =
    ground (arith, get_elem?-set vms vm v (record moved { pm = t }) (get_elem?_bound vms vm at))

-- In a consistent placement, moving a VM to a PM with a free place does not fault, leaves a
-- consistent placement, and makes the target the VM's host; every other VM keeps its host, and there are as many VMs as before. (The
-- handles and the indices name the same VM and PM, every PM is a host of the platform, and no two
-- hosts have one name.)
pub migrate_vm-IsPlaced :
    {D : Type 0} (p : Platform) (involved : ℕ) (c : Cluster D) (vm t h : ℕ) (pm : DataOfPm)
    → NamesDiffer p
    → involved ≤ p.number_of_hosts
    → IsPlaced p involved c
    → owner c vm ≡ some h
    → get_elem? c.data_of_pms t ≡ some pm
    → pm.number_of_vms < pm_capacity
    → (c' : Cluster D) × (migrate_vm p involved vm vm t t c ≡ some c')
      × IsPlaced p involved c'
      × ((v : ℕ) → owner c' v ≡ (if vm == v then some t else owner c v))
      × (length c'.vm_list ≡ length c.vm_list)
unfolding migrate_vm
migrate_vm-IsPlaced {D} p involved c vm t h pm diff hosts s own got room =
    let (moved, at, is_h) = owner_some (get_elem? c.vm_list vm) own in
    let lt : h < involved = s.in_range vm h own in
    let start : Slots p involved (owner c) c.data_of_pms = record {
      size = s.pms;
      known = s.known;
      named = s.named;
    } in
    let (pms1, done1, s1, smaller) =
      remove_from-Slots p involved (owner c) c.data_of_pms start vm h own lt in
    let (pm1, got1) = get_elem?-in pms1 t (rw s1.size (rw (← s.pms) (get_elem?_bound _ t got))) in
    let (old, got_old, le) = smaller t pm1 got1 in
    let (pms2, done2, s2) =
      append_to-Slots p involved (assign vm none (owner c)) pms1 s1 vm t pm1 (ground arith) got1
        (ground arith) in
    let c' : Cluster D = record {
      data_of_pms = pms2;
      vm_list = set c.vm_list vm (record moved { pm = t });
    } in
    let owner' : (v : ℕ) → owner c' v ≡ (if vm == v then some t else owner c v) =
      λ v. owner-set c.vm_list vm v t moved at in
    let home : find_pm (p.host_name moved.pm) involved 0 c.data_of_pms ≡ some (some h) = rw is_h (
      find_pm_home p h involved 0 involved c.data_of_pms diff s.named s.pms (omega arith)
        (omega arith) lt) in
    let t_lt : t < involved = rw (← s.pms) (get_elem?_bound _ t got) in
    (
      c',
      rw (at, home, done1, done2) (ground arith),
      record {
        pms = s2.size;
        known = λ i q e.
            IsPm-owns (assign vm (some t) (assign vm none (owner c))) (owner c') i q
              (λ v. ground (arith, owner' v)) (s2.known i q e);
        named = s2.named;
        in_range = λ v g e. ground (arith, owner' v, s.in_range v g);
      },
      owner',
      length-set c.vm_list vm (record moved { pm = t }),
    )

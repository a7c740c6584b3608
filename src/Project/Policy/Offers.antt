-- ===== src/Project/Policy/Offers.antt =====
-- The loops of the policy go through all offers, and select a cheapest one that is worth it.
pub mod Cheapest
use hpv_c.Base.{
  ℕ, zero, suc, ◌+◌, ◌*◌, lt→ltb, length-append, ◌≤◌, ◌<◌, ◌≡◌, refl, ap, sym, ◌∙◌, ◌⊎◌, inl, inr,
  true, false, Bool, Bool-cases, Option, none, some, List, [], ◌∷◌, ◌++◌, arith, All, All-append,
  All-map, ◌==◌, length, get_elem?, get_elem?-in, if◌then◌else◌, ◌>>=◌,
}
use hpv_c.Double.{Double}
use hpv_c.Utility.{int_bound}
use hpv_c.Project.Pool.{HostVmInfo, GuestVm, VmPlacement, Pool, host_vm_info}
use hpv_c.Project.Policy.{
  Usage, Bounds, Selection, sum_usage, no_usage, vm_load, usage_of, inhabitancy_cost,
  migration_cost, compare_costs, cost_to, compare_targets, compare_vms, select,
}
use hpv_c.Project.Policy.Light.{IsLight, usage_of_total, cost_to_total}
use hpv_c.Project.Policy.Lists.{
  FirstBelow, ListsVms, Stands, StandsFirst, Stands-left, Stands-right, sum_usage_total,
}

-- To move a VM to a target, with the costs of staying and of moving.
pub record Offer (D : Type 0) : Type 0 where
  pub vm : ℕ
  pub target : ℕ
  pub inhabitancy : D
  pub migration : D

module _ {D : Type 0} ⦃d : Double D⦄ where
  unfoldable pub consider : Offer D → Selection D → Selection D
  consider o s = compare_costs o.vm o.inhabitancy o.target o.migration s

  abbrev pub consider_all : List (Offer D) → Selection D → Selection D
  consider_all [] s = s
  consider_all (o ∷ offers) s = consider_all offers (consider o s)

  consider_all-append :
      (xs ys : List (Offer D)) (s : Selection D)
      → consider_all (xs ++ ys) s ≡ consider_all ys (consider_all xs s)
  consider_all-append [] ys s = refl
  consider_all-append (x ∷ xs) ys s = consider_all-append xs ys (consider x s)

  consider-decisions : (o : Offer D) (s : Selection D) → (consider o s).decisions ≤ s.decisions + 1
  unfolding consider compare_costs
  consider-decisions o s = ground arith

  consider_all-decisions :
      (offers : List (Offer D)) (s : Selection D)
      → (consider_all offers s).decisions ≤ s.decisions + length offers
  consider_all-decisions [] s = omega arith
  consider_all-decisions (o ∷ offers) s =
      omega (arith, consider_all-decisions offers (consider o s), consider-decisions o s)

  module _ (b : Bounds D) (p : Pool D) where
    -- An offer for the VM `v` of host `m` is to each host but `m`, at the costs of the two.
    pub record IsOffer (m : ℕ) (u : Usage D) (o : Offer D) : Type 0 where
      pub vm : GuestVm D
      pub known : get_elem? p.vms o.vm ≡ some vm
      pub stays : o.inhabitancy ≡ inhabitancy_cost b p m u vm
      pub moves : cost_to b p vm o.target ≡ some o.migration
      pub away : (o.target == m) ≡ false

    abbrev IsTarget : ℕ → Usage D → ℕ → ℕ → ℕ → Offer D → Type 0
    IsTarget m u v left k o = IsOffer m u o × (o.vm ≡ v) × (k ≤ o.target) × (o.target < k + left)

    -- The loop considers all the offers for the VM, and no others.
    record Targets (m : ℕ) (u : Usage D) (v left k : ℕ) (offers : List (Offer D)) : Type 0 where
      pub sound : All (IsTarget m u v left k) offers
      pub complete :
          (o : Offer D)
          → IsOffer m u o
          → o.vm ≡ v
          → k ≤ o.target
          → o.target < k + left
          → Stands o offers
      pub few : length offers ≤ left

    offer_only :
        (m : ℕ) (u : Usage D) (v k : ℕ) (vm : GuestVm D) (c : D) (o : Offer D)
        → get_elem? p.vms v ≡ some vm
        → cost_to b p vm k ≡ some c
        → IsOffer m u o
        → o.vm ≡ v
        → o.target ≡ k
        → record { vm = v; target = k; inhabitancy = inhabitancy_cost b p m u vm; migration = c }
          ≡ o
    offer_only m u v k vm c o got cost i e t =
        let same : i.vm ≡ vm = cc (rw e at i.known, got) in
        let stays : inhabitancy_cost b p m u vm ≡ o.inhabitancy =
          sym (i.stays ∙ ap (λ x. inhabitancy_cost b p m u x) same) in
        let moves : cost_to b p vm k ≡ some o.migration = rw (same, t) at i.moves in
        let cheap : c ≡ o.migration = cc in rw (← e, ← t, stays, cheap) refl

    IsTarget-earlier :
        (m : ℕ) (u : Usage D) (v left k : ℕ) (offers : List (Offer D))
        → All (IsTarget m u v left (k + 1)) offers
        → All (IsTarget m u v (suc left) k) offers
    IsTarget-earlier m u v left k offers h =
        All-map (IsTarget m u v left (k + 1)) (IsTarget m u v (suc left) k) offers
          (λ o t. (t.0, t.1, omega (arith, t.2), omega (arith, t.3))) h

    compare_targets_lem :
        (m : ℕ) (u : Usage D) (v : ℕ) (vm : GuestVm D) (left k : ℕ) (s : Selection D)
        → get_elem? p.vms v ≡ some vm
        → IsLight b p m
        → ((j : ℕ) → k ≤ j → j < k + left → ListsVms p j)
        → (offers : List (Offer D)) × (compare_targets b p m v vm
              (inhabitancy_cost b p m u vm)
              left
              k
              s
            ≡ some (consider_all offers s))
          × Targets m u v left k offers
    unfolding compare_targets consider
    compare_targets_lem m u v vm zero k s got light lists = (
      [],
      refl,
      record { sound = tt; complete = λ o i e lo hi. absurd (omega arith); few = omega arith },
    )
    compare_targets_lem m u v vm (suc left) k s got light lists = elim (Bool-cases (k == m)) [
      | inl home ↦
          let (offers, e, t) =
            compare_targets_lem m u v vm left (k + 1) s got light
              (λ j lo hi. lists j (omega arith) (omega arith)) in
          (
            offers,
            rw home e,
            record {
              sound = IsTarget-earlier m u v left k offers t.sound;
              complete = λ o i at lo hi. t.complete o i at (ground (arith, i.away)) (omega arith);
              few = omega (arith, t.few);
            },
          )
      | inr away ↦
          let (c, cost) =
            cost_to_total b p m v vm k light got (lists k (omega arith) (omega arith)) in
          let o : Offer D = record {
            vm = v;
            target = k;
            inhabitancy = inhabitancy_cost b p m u vm;
            migration = c;
          } in
          let (offers, e, t) =
            compare_targets_lem m u v vm left (k + 1) (consider o s) got light
              (λ j lo hi. lists j (omega arith) (omega arith)) in
          (
            o ∷ offers,
            rw (away, cost) e,
            record {
              sound = (
                (
                  record { vm = vm; known = got; stays = refl; moves = cost; away = away },
                  refl,
                  omega arith,
                  omega arith,
                ),
                IsTarget-earlier m u v left k offers t.sound,
              );
              complete = λ x i at lo hi. elim (Bool-cases (x.target == k)) [
                | inl here ↦ inl (offer_only m u v k vm c x got cost i at (ground arith))
                | inr later ↦ inr (t.complete x i at (ground arith) (omega arith))
              ];
              few = omega (arith, t.few);
            },
          )
    ]

    -- An offer for one of the first `n` VMs of the list, to a host of the cluster.
    abbrev pub IsListed : ℕ → Usage D → ℕ → List ℕ → Offer D → Type 0
    IsListed m u n listed o =
        IsOffer m u o
        × StandsFirst o.vm n listed
        × (b.host ≤ o.target)
        × (o.target < b.host + b.involved)

    -- All offers for the first `n` VMs of the list, and no others.
    pub record AllOffers (m : ℕ) (u : Usage D) (n : ℕ) (listed : List ℕ) (offers : List (Offer D))
        : Type 0 where
      pub sound : All (IsListed m u n listed) offers
      pub complete :
          (o : Offer D)
          → IsOffer m u o
          → StandsFirst o.vm n listed
          → b.host ≤ o.target
          → o.target < b.host + b.involved
          → Stands o offers
      pub few : length offers ≤ n * b.involved

    compare_vms_lem :
        (m : ℕ) (u : Usage D) (n : ℕ) (listed : List ℕ) (s : Selection D)
        → IsLight b p m
        → FirstBelow (length p.vms) n listed
        → ((j : ℕ) → b.host ≤ j → j < b.host + b.involved → ListsVms p j)
        → (offers : List (Offer D)) × (compare_vms b p m u n listed s
            ≡ some (consider_all offers s))
          × AllOffers m u n listed offers
    unfolding compare_vms
    compare_vms_lem m u zero listed s light f lists =
        ([], refl, record { sound = tt; complete = λ o i h lo hi. elim h [ ]; few = omega arith })
    compare_vms_lem m u (suc n) [] s light f lists = elim f [ ]
    compare_vms_lem m u (suc n) (v ∷ listed) s light f lists =
        let (vm, got) = get_elem?-in p.vms v f.0 in
        let (first, e1, t1) = compare_targets_lem m u v vm b.involved b.host s got light lists in
        let power = lt→ltb (p.max_pm_vm * b.cores m) int_bound (light.powers m) in
        let more : suc n * b.involved ≡ b.involved + n * b.involved = grind arith in
        let (others, e2, t2) =
          compare_vms_lem m u n listed (consider_all first s) light f.1 lists in
        (
          first ++ others,
          rw (got, power, e1, e2, consider_all-append first others s) refl,
          record {
            sound =
                All-append (IsListed m u (suc n) (v ∷ listed)) first others
                  (All-map (IsTarget m u v b.involved b.host) (IsListed m u (suc n) (v ∷ listed))
                    first (λ o h. (h.0, inl (sym h.1), h.2, h.3)) t1.sound)
                  (All-map (IsListed m u n listed) (IsListed m u (suc n) (v ∷ listed)) others
                    (λ o h. (h.0, inr h.1, h.2, h.3)) t2.sound);
            complete = λ o i h lo hi. elim h [
              | inl e ↦ Stands-left o first others (t1.complete o i (sym e) lo hi)
              | inr later ↦ Stands-right o first others (t2.complete o i later lo hi)
            ];
            few = omega (arith, length-append first others, t1.few, t2.few, more);
          },
        )

    abbrev pub no_selection : Selection D
    no_selection = record {
      min_cost = b.dbl_max;
      placement = none;
      decisions = p.migration_decision_count;
    }

    pub select_lem :
        (m : ℕ)
        → IsLight b p m
        → ListsVms p m
        → ((j : ℕ) → b.host ≤ j → j < b.host + b.involved → ListsVms p j)
        → (info : HostVmInfo) × (u : Usage D) × (offers : List (Offer D)) × (host_vm_info p.infos m
            ≡ some info)
          × (usage_of p info ≡ some u)
          × (select b p m ≡ some (consider_all offers no_selection))
          × AllOffers m u info.number_of_vms info.vms_index offers
    unfolding select
    select_lem m light (info, got, f) lists =
        let (u, used, _) = usage_of_total b p m m info light got f in
        let (offers, e, all) =
          compare_vms_lem m u info.number_of_vms info.vms_index no_selection light f lists in
        let counted = consider_all-decisions offers no_selection in
        let fits =
          lt→ltb (consider_all offers no_selection).decisions int_bound
            (omega (arith, counted, all.few, light.decisions info got)) in
        (info, u, offers, got, used, rw (got, used, e, fits) refl, all)

-- ===== src/Project/Policy/Offers/Cheapest.antt =====
-- The selection is a cheapest of the offers that cost less than half of staying.
use hpv_c.Base.{
  ℕ, ◌+◌, ◌≤◌, ◌<◌, ◌≡◌, refl, ◌⊎◌, inl, inr, true, false, Bool, Bool-cases, none, some, List, [],
  ◌∷◌, arith, All,
}
use hpv_c.Double.{Double, IsOrdered}
use hpv_c.Project.Pool.{HostVmInfo, VmPlacement, Pool, host_vm_info}
use hpv_c.Project.Policy.{Usage, Bounds, Selection, usage_of, compare_costs, select}
use hpv_c.Project.Policy.Light.{IsLight}
use hpv_c.Project.Policy.Lists.{ListsVms, Stands, StandsFirst}
use hpv_c.Project.Policy.Offers.{
  Offer, IsOffer, IsListed, consider, consider_all, no_selection, select_lem,
}

All-Stands : {A : Type 0} (P : A → Type 0) (a : A) (xs : List A) → All P xs → Stands a xs → P a
All-Stands P a [] h s = elim s [ ]
All-Stands P a (x ∷ xs) h (inl e) = rw e at h.0
All-Stands P a (x ∷ xs) h (inr s) = All-Stands P a xs h.1 s

module _ {D : Type 0} ⦃d : Double D⦄ where
  abbrev pub is_worth : Offer D → Bool
  is_worth o = d.lt o.migration (d.div o.inhabitancy (d.of_int 2))

  abbrev pub placement_of : Offer D → VmPlacement
  placement_of o = record { vm = o.vm; target_pm = o.target }

  record IsCheapest (offers : List (Offer D)) (s s' : Selection D) : Type 0 where
    pub falls : d.lt s.min_cost s'.min_cost ≡ false
    pub least :
        (o : Offer D) → Stands o offers → is_worth o ≡ true → d.lt o.migration s'.min_cost ≡ false
    pub chosen :
        ((s'.placement ≡ s.placement) × (s'.min_cost ≡ s.min_cost))
        ⊎ ((o : Offer D) × Stands o offers
            × (is_worth o ≡ true)
            × (s'.min_cost ≡ o.migration)
            × (s'.placement ≡ some (placement_of o)))

  module _ (laws : IsOrdered D) where
    -- A first offer that is taken, or not.
    IsCheapest-taken :
        (o : Offer D) (offers : List (Offer D)) (s s' : Selection D) (decisions : ℕ)
        → is_worth o ≡ true
        → d.le o.migration s.min_cost ≡ true
        → IsCheapest offers
            (record {
              min_cost = o.migration;
              placement = some (placement_of o);
              decisions = decisions;
            })
            s'
        → IsCheapest (o ∷ offers) s s'
    IsCheapest-taken o offers s s' decisions worth cheap r = record {
      falls =
          laws.ge_trans s.min_cost o.migration s'.min_cost
            (ground (arith, laws.le_lem o.migration s.min_cost)) r.falls;
      least =
          λ x at worth_x. elim at [ inl e ↦ rw e at r.falls | inr later ↦ r.least x later worth_x ];
      chosen = elim r.chosen [
        | inl (placed, cost) ↦ inr (o, inl refl, worth, cost, placed)
        | inr (x, at, worth_x, cost, placed) ↦ inr (x, inr at, worth_x, cost, placed)
      ];
    }

    IsCheapest-left :
        (o : Offer D) (offers : List (Offer D)) (s s' : Selection D)
        → (is_worth o ≡ true → d.lt o.migration s.min_cost ≡ false)
        → IsCheapest offers s s'
        → IsCheapest (o ∷ offers) s s'
    IsCheapest-left o offers s s' dear r = record {
      falls = r.falls;
      least = λ x at worth_x. elim at [
        | inl e ↦
            laws.ge_trans x.migration s.min_cost s'.min_cost (rw e at (dear (rw e worth_x))) r.falls
        | inr later ↦ r.least x later worth_x
      ];
      chosen = elim r.chosen [
        | inl same ↦ inl same
        | inr (x, at, worth_x, cost, placed) ↦ inr (x, inr at, worth_x, cost, placed)
      ];
    }

    consider_all-IsCheapest :
        (offers : List (Offer D)) (s : Selection D) → IsCheapest offers s (consider_all offers s)
    unfolding consider compare_costs
    consider_all-IsCheapest [] s = record {
      falls = laws.lt_irrefl s.min_cost;
      least = λ o at worth. elim at [ ];
      chosen = inl (refl, refl);
    }
    consider_all-IsCheapest (o ∷ offers) s = elim (Bool-cases (is_worth o)) [
      | inl worth ↦ elim (Bool-cases (d.le o.migration s.min_cost)) [
        | inl cheap ↦
            let s1 : Selection D = record {
              min_cost = o.migration;
              placement = some (placement_of o);
              decisions = s.decisions + 1;
            } in
            rw (worth, cheap)
              (IsCheapest-taken o offers s (consider_all offers s1) (s.decisions + 1) worth cheap
                (consider_all-IsCheapest offers s1))
        | inr dear ↦
            rw (worth, dear)
              (IsCheapest-left o offers s (consider_all offers s)
                (λ _.
                  ground (
                    arith,
                    laws.le_lem o.migration s.min_cost,
                    laws.ge_total o.migration s.min_cost,
                  ))
                (consider_all-IsCheapest offers s))
      ]
      | inr poor ↦ rw poor (
          IsCheapest-left o offers s (consider_all offers s) (λ worth. cc)
            (consider_all-IsCheapest offers s))
    ]

module _ {D : Type 0} ⦃d : Double D⦄ (b : Bounds D) (p : Pool D) (m : ℕ) where
  -- What the policy selects for a host, `u` being its usage: no move of a VM that it lists to another
  -- host of the cluster that costs less than half of staying is cheaper than the selection, and the
  -- selection is such a move, or none.
  pub record Selected (info : HostVmInfo) (u : Usage D) (s : Selection D) : Type 0 where
    pub least :
        (o : Offer D)
        → IsOffer b p m u o
        → StandsFirst o.vm info.number_of_vms info.vms_index
        → b.host ≤ o.target
        → o.target < b.host + b.involved
        → is_worth o ≡ true
        → d.lt o.migration s.min_cost ≡ false
    pub chosen :
        ((s.placement ≡ none) × (s.min_cost ≡ b.dbl_max))
        ⊎ ((o : Offer D) × IsListed b p m u info.number_of_vms info.vms_index o
            × (is_worth o ≡ true)
            × (s.min_cost ≡ o.migration)
            × (s.placement ≡ some (placement_of o)))

  -- If `<` and `<=` are those of numbers (no cost is a NaN), the ints do not overflow, and the host and all hosts of the cluster
  -- have lists of VMs that exist, the selection for the host does not fault. It is a cheapest of
  -- the moves of a listed VM to another host of the cluster that cost less than half of staying, and
  -- none only if none of these costs less than DBL_MAX.
  pub select-Selected :
      IsOrdered D
      → IsLight b p m
      → ListsVms p m
      → ((j : ℕ) → b.host ≤ j → j < b.host + b.involved → ListsVms p j)
      → (info : HostVmInfo) × (u : Usage D) × (s : Selection D) × (host_vm_info p.infos m
          ≡ some info)
        × (usage_of p info ≡ some u)
        × (select b p m ≡ some s)
        × Selected info u s
  select-Selected laws light here lists =
      let (info, u, offers, got, used, e, all) = select_lem b p m light here lists in
      let c = consider_all-IsCheapest laws offers (no_selection b p) in
      (
        info,
        u,
        consider_all offers (no_selection b p),
        got,
        used,
        e,
        record {
          least = λ o i h lo hi worth. c.least o (all.complete o i h lo hi) worth;
          chosen = elim c.chosen [
            | inl none_chosen ↦ inl none_chosen
            | inr (o, at, worth, cost, placed) ↦ inr (
              o,
              All-Stands (IsListed b p m u info.number_of_vms info.vms_index) o offers all.sound at,
              worth,
              cost,
              placed,
            )
          ];
        },
      )

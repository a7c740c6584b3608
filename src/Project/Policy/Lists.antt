-- ===== src/Project/Policy/Lists.antt =====
-- Lists of VMs that exist, and the items of a list.
use hpv_c.Base.{
  ℕ, zero, suc, ◌+◌, ◌*◌, ◌≤◌, ◌<◌, ◌≡◌, refl, ap, ◌⊎◌, inl, inr, some, List, [], ◌∷◌, ◌++◌, arith,
  length, get_elem?, get_elem?-in,
}
use hpv_c.Double.{Double}
use hpv_c.Project.Pool.{HostVmInfo, GuestVm, Pool, host_vm_info}
use hpv_c.Project.Policy.{Usage, sum_usage, vm_load}

-- The first `n` items stand in the list and are below the bound.
abbrev pub FirstBelow : ℕ → ℕ → List ℕ → Type 0
FirstBelow bound zero listed = Unit
FirstBelow bound (suc n) [] = ⊥
FirstBelow bound (suc n) (v ∷ listed) = (v < bound) × FirstBelow bound n listed

-- A host that has the property, and lists VMs that exist.
abbrev pub ListsVms : {D : Type 0} → Pool D → ℕ → Type 0
ListsVms p k =
    (info : HostVmInfo) × (host_vm_info p.infos k ≡ some info)
    × FirstBelow (length p.vms) info.number_of_vms info.vms_index

-- The item is one of the list, or of its first `n` items.
abbrev pub Stands : {A : Type 0} → A → List A → Type 0
Stands a [] = ⊥
Stands a (x ∷ xs) = (x ≡ a) ⊎ Stands a xs

abbrev pub StandsFirst : ℕ → ℕ → List ℕ → Type 0
StandsFirst v zero listed = ⊥
StandsFirst v (suc n) [] = ⊥
StandsFirst v (suc n) (x ∷ listed) = (x ≡ v) ⊎ StandsFirst v n listed

pub Stands-left : {A : Type 0} (a : A) (xs ys : List A) → Stands a xs → Stands a (xs ++ ys)
Stands-left a [] ys h = elim h [ ]
Stands-left a (x ∷ xs) ys (inl e) = inl e
Stands-left a (x ∷ xs) ys (inr h) = inr (Stands-left a xs ys h)

pub Stands-right : {A : Type 0} (a : A) (xs ys : List A) → Stands a ys → Stands a (xs ++ ys)
Stands-right a [] ys h = h
Stands-right a (x ∷ xs) ys h = inr (Stands-right a xs ys h)

pub StandsFirst-get :
    (v n : ℕ) (listed : List ℕ)
    → StandsFirst v n listed
    → (i : ℕ) × (i < n) × (get_elem? listed i ≡ some v)
StandsFirst-get v zero listed h = elim h [ ]
StandsFirst-get v (suc n) [] h = elim h [ ]
StandsFirst-get v (suc n) (x ∷ listed) (inl e) = (0, omega arith, ap some e)
StandsFirst-get v (suc n) (x ∷ listed) (inr h) =
    let (i, lt, got) = StandsFirst-get v n listed h in (suc i, omega arith, got)

pub FirstBelow-all :
    (bound n : ℕ) (listed : List ℕ)
    → ((i : ℕ) → i < n → (v : ℕ) × (get_elem? listed i ≡ some v) × (v < bound))
    → FirstBelow bound n listed
FirstBelow-all bound zero listed h = tt
FirstBelow-all bound (suc n) [] h = let (v, got, lt) = h 0 (omega arith) in cc
FirstBelow-all bound (suc n) (x ∷ listed) h =
    let (v, got, lt) = h 0 (omega arith) in
    let same : x ≡ v = cc in
    (rw same lt, FirstBelow-all bound n listed (λ i below. h (suc i) (omega arith)))

module _ {D : Type 0} ⦃d : Double D⦄ where
  -- Where no VM has a higher load than `most`, the sum is that many times the number at most.
  pub sum_usage_total :
      (vms : List (GuestVm D)) (most n : ℕ) (listed : List ℕ) (u : Usage D)
      → ((v : ℕ) (vm : GuestVm D) → get_elem? vms v ≡ some vm → vm_load vm ≤ most)
      → FirstBelow (length vms) n listed
      → (u' : Usage D) × (sum_usage vms n listed u ≡ some u') × (u'.load ≤ u.load + n * most)
  unfolding sum_usage
  sum_usage_total vms most zero listed u light f = (u, refl, omega arith)
  sum_usage_total vms most (suc n) [] u light f = elim f [ ]
  sum_usage_total vms most (suc n) (v ∷ listed) u light f =
      let (vm, got) = get_elem?-in vms v f.0 in
      let (u', e, le) =
        sum_usage_total vms most n listed
          (record {
            memory = d.add u.memory vm.mem;
            net = d.add u.net vm.net;
            load = u.load + vm_load vm;
          })
          light f.1 in
      let one = light v vm got in
      let more : suc n * most ≡ n * most + most = grind arith in
      (u', rw got e, omega (arith, le, one, more))

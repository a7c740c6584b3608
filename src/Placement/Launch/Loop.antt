-- ===== src/Placement/Launch/Loop.antt =====
-- The loop of `launch_master` that starts the VMs, host by host.
use hpv_c.Base.{
  ℕ, ◌+◌, ◌-◌, ◌*◌, ◌/◌, ◌≤◌, ◌<◌, ◌≡◌, ◌≢◌, ◌∙◌, refl, Option, none, some, List, [], ◌∷◌, ◌++◌,
  arith, min, get_elem?, set, length, count-append, if◌then◌else◌, ◌==◌, get_elem?-in, length-set,
  length-append, get_elem?-append_one, take-set_end, ltb,
}
use native.Mathlib.Numerals.{add-one}
use native.Mathlib.Decide.{dec_lt}
use native.Mathlib.Nat.{div-eq_of_lt-le}
use hpv_c.Double.{Double}
use hpv_c.Placement.Platform.{Platform, DataOfPm, Vm, Cluster, pm_capacity}
use hpv_c.Placement.Invariant.{AllPms, AllPms-set, IsPm, active, is_on, owner, pm_of}
use hpv_c.Placement.Launch.{add_vm, place_vm}

-- The owner of a VM once the first `i` are started, `per` on each host.
abbrev pub laid_out : ℕ → ℕ → ℕ → Option ℕ
laid_out per i v = if ltb v i then some (v / per) else none

-- A PM named if it is used, with the VMs of its own that are started by then.
pub record IsFilled (p : Platform) (per i k : ℕ) (pm : DataOfPm) : Type 0 where
  pub placed : IsPm (laid_out per i) k pm
  pub load : pm.number_of_vms ≡ min per (i - k * per)
  pub named : 0 < pm.number_of_vms → pm.pm_name ≡ some (p.host_name k)

pub row_le : (per k h : ℕ) → k < h → k * per + per ≤ h * per
row_le per k h lt = grind arith

-- Starting VM `i` changes only what its own host lists.
laid_out_next :
    (per i k v : ℕ)
    → is_on k (laid_out per (i + 1) v)
      ≡ is_on k (laid_out per i v) + (if i == v then is_on k (some (i / per)) else 0)
laid_out_next per i k v = ground arith

row_div : (per h i : ℕ) → h * per ≤ i → i < h * per + per → i / per ≡ h
row_div per h i lo hi = div-eq_of_lt-le per lo (grind arith)

load_other :
    (per i h k : ℕ)
    → h ≢ k
    → h * per ≤ i
    → i < h * per + per
    → min per (i - k * per) ≡ min per (i + 1 - k * per)
load_other per i h k ne lo hi = elim (dec_lt k h) [
  | yes lt ↦ omega (arith, row_le per k h lt)
  | no ge ↦ omega (arith, row_le per h k (omega arith))
]

module _ (p : Platform) (per i h : ℕ) (pm : DataOfPm) (f : IsFilled p per i h pm) where
  add_vm-IsFilled :
      h * per ≤ i
      → i < h * per + per
      → per ≤ pm_capacity
      → (pm' : DataOfPm) × (add_vm pm (p.host_name h) i ≡ some pm') × IsFilled p per (i + 1) h pm'
  unfolding add_vm
  add_vm-IsFilled lo hi cap =
      let lt : pm.number_of_vms < per = omega (arith, f.load) in
      (
        record {
          pm_name = some (p.host_name h);
          number_of_vms = pm.number_of_vms + 1;
          vms = set pm.vms pm.number_of_vms i;
        },
        ground (arith, f.placed.slots),
        record {
          placed = record {
            slots = rw (length-set pm.vms pm.number_of_vms i) f.placed.slots;
            room = omega arith;
            holds = λ v.
                rw
                  (
                    add-one,
                    take-set_end pm.number_of_vms pm.vms i (rw f.placed.slots (omega arith)),
                    count-append v (active pm) (i ∷ []),
                    f.placed.holds v,
                  )
                  (ground (arith, laid_out_next per i h v, row_div per h i lo hi));
          };
          load = omega (arith, f.load);
          named = λ _. refl;
        },
      )

  IsFilled-other :
      (k : ℕ)
      → h ≢ k
      → h * per ≤ i
      → i < h * per + per
      → (pm' : DataOfPm) → IsFilled p per i k pm'
      → IsFilled p per (i + 1) k pm'
  IsFilled-other k ne lo hi pm' g = record {
    placed = record {
      slots = g.placed.slots;
      room = g.placed.room;
      holds = λ v. ground (arith, laid_out_next per i k v, row_div per h i lo hi, g.placed.holds v);
    };
    load = g.load ∙ load_other per i h k ne lo hi;
    named = g.named;
  }

module _ {D : Type 0} ⦃d : Double D⦄ (p : Platform) (involved per : ℕ) where
  pub record Loading (i : ℕ) (c : Cluster D) : Type 0 where
    pub size : length c.data_of_pms ≡ involved
    pub filled : AllPms (IsFilled p per i) c.data_of_pms
    pub started : length c.vm_list ≡ i
    pub owners : (v : ℕ) → owner c v ≡ laid_out per i v

  started_owner :
      (vms : List (Vm D)) (h i : ℕ) (vm : Vm D)
      → vm.pm ≡ h
      → length vms ≡ i
      → i / per ≡ h
      → ((v : ℕ) → pm_of (get_elem? vms v) ≡ laid_out per i v)
      → (v : ℕ) → pm_of (get_elem? (vms ++ vm ∷ []) v) ≡ laid_out per (i + 1) v
  started_owner vms h i vm e len q own v = ground (arith, get_elem?-append_one vms vm v, own v)

  -- One round, at the host that VM `i` belongs to.
  pub place_vm-Loading :
      (i h : ℕ) (c : Cluster D)
      → involved < p.number_of_hosts
      → per ≤ pm_capacity
      → h < involved
      → h * per ≤ i
      → i < h * per + per
      → Loading i c
      → (c' : Cluster D) × (place_vm p i h h c ≡ some c') × Loading (i + 1) c'
  unfolding place_vm
  place_vm-Loading i h c hosts cap in_h lo hi l =
      let (pm, got) = get_elem?-in c.data_of_pms h (rw l.size in_h) in
      let (pm', done, f) = add_vm-IsFilled p per i h pm (l.filled h pm got) lo hi cap in
      let vm : Vm D = record { pm = h; mem = d.lit 0 0; net = d.lit 0 0 } in
      (
        record { data_of_pms = set c.data_of_pms h pm'; vm_list = c.vm_list ++ vm ∷ [] },
        rw (got, done) (ground (arith, l.started)),
        record {
          size = rw (length-set c.data_of_pms h pm') l.size;
          filled =
              AllPms-set _ _ c.data_of_pms h pm' (rw l.size in_h) f
                (λ k q ne g. IsFilled-other p per i h pm (l.filled h pm got) k ne lo hi q g)
                l.filled;
          started = rw (length-append c.vm_list (vm ∷ [])) (omega (arith, l.started));
          owners = started_owner c.vm_list h i vm refl l.started (row_div per h i lo hi) l.owners;
        },
      )

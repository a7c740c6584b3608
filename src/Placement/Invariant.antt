-- ===== src/Placement/Invariant.antt =====
-- Which PM a VM runs on, told by the two records that the simulator keeps of it.
use hpv_c.Base.{
  ℕ, zero, suc, refl, [], ◌∷◌, get_elem?-in, get_elem?_out, ◌≢◌, set, inl, inr, Bool-cases,
  get_elem?-set, ◌≤◌, ◌<◌, ◌≡◌, Option, none, some, List, arith, length, get_elem?, take, count,
  if◌then◌else◌, ◌==◌,
}
use hpv_c.Placement.Platform.{Platform, DataOfPm, Vm, Cluster, pm_capacity}

abbrev pub pm_of : {D : Type 0} → Option (Vm D) → Option ℕ
pm_of none = none
pm_of (some v) = some v.pm

-- The host of a VM, as SimGrid has it.
abbrev pub owner : {D : Type 0} → Cluster D → ℕ → Option ℕ
owner c v = pm_of (get_elem? c.vm_list v)

abbrev pub is_on : ℕ → Option ℕ → ℕ
is_on i none = 0
is_on i (some p) = if p == i then 1 else 0

-- The part of `VMs` in use.
abbrev pub active : DataOfPm → List ℕ
active pm = take pm.number_of_vms pm.vms

-- The entry of PM `i` lists each VM that runs on it once and no other, in an array that holds them.
pub record IsPm (owns : ℕ → Option ℕ) (i : ℕ) (pm : DataOfPm) : Type 0 where
  pub slots : length pm.vms ≡ pm_capacity
  pub room : pm.number_of_vms ≤ pm_capacity
  pub holds : (v : ℕ) → count v (active pm) ≡ is_on i (owns v)

-- It depends on the owners alone.
pub IsPm-owns :
    (f g : ℕ → Option ℕ) (i : ℕ) (pm : DataOfPm) → ((v : ℕ) → g v ≡ f v) → IsPm f i pm → IsPm g i pm
IsPm-owns f g i pm e k = record {
  slots = k.slots;
  room = k.room;
  holds = λ v. rw (e v) (k.holds v);
}

abbrev pub AllPms : (ℕ → DataOfPm → Type 0) → List DataOfPm → Type 0
AllPms P pms = (i : ℕ) (pm : DataOfPm) → get_elem? pms i ≡ some pm → P i pm

-- A changed entry keeps what the other entries keep.
pub AllPms-set :
    (P Q : ℕ → DataOfPm → Type 0) (pms : List DataOfPm) (i : ℕ) (new : DataOfPm)
    → i < length pms
    → Q i new
    → ((k : ℕ) (pm : DataOfPm) → i ≢ k → P k pm → Q k pm)
    → AllPms P pms
    → AllPms Q (set pms i new)
AllPms-set P Q pms i new h q keep all k pm got = elim (Bool-cases (i == k)) [
  | inl same ↦
      let e : new ≡ pm = ground (arith, get_elem?-set pms i k new h) in
      let e' : i ≡ k = ground arith in rw (← e, ← e') q
  | inr other ↦ keep k pm (ground arith) (all k pm (ground (arith, get_elem?-set pms i k new h)))
]

pub record IsPlaced {D : Type 0} (p : Platform) (involved : ℕ) (c : Cluster D) : Type 0 where
  pub pms : length c.data_of_pms ≡ involved
  pub known : AllPms (λ i pm. IsPm (owner c) i pm) c.data_of_pms
  pub named : AllPms (λ i pm. pm.pm_name ≡ some (p.host_name i)) c.data_of_pms
  pub in_range : (v h : ℕ) → owner c v ≡ some h → h < involved

count_get : (v k : ℕ) (xs : List ℕ) → get_elem? xs k ≡ some v → 0 < count v xs
count_get v k [] e = cc
count_get v zero (x ∷ xs) e = ground arith
count_get v (suc k) (x ∷ xs) e = omega (arith, count_get v k xs e)

get_elem?-take : (k n : ℕ) (xs : List ℕ) → k < n → get_elem? (take n xs) k ≡ get_elem? xs k
get_elem?-take k zero xs h = elim h [ ]
get_elem?-take k (suc n) [] h = refl
get_elem?-take zero (suc n) (x ∷ xs) h = refl
get_elem?-take (suc k) (suc n) (x ∷ xs) h = get_elem?-take k n xs (omega arith)

-- A VM that is listed runs there.
pub listed-owner :
    (owns : ℕ → Option ℕ) (i k : ℕ) (pm : DataOfPm)
    → IsPm owns i pm
    → k < pm.number_of_vms
    → (v : ℕ) × (get_elem? pm.vms k ≡ some v) × (owns v ≡ some i)
listed-owner owns i k pm h lt =
    let (v, got) = get_elem?-in pm.vms k (omega (arith, h.slots, h.room)) in
    let pos : 0 < count v (active pm) =
      count_get v k (active pm) (rw (get_elem?-take k _ pm.vms lt) got) in
    (v, got, ground (arith, h.holds v))

pub owner_bound :
    {D : Type 0} (c : Cluster D) (v : ℕ) {h : ℕ} → owner c v ≡ some h → v < length c.vm_list
owner_bound c v e = ground (arith, get_elem?_out c.vm_list v)

-- ===== src/Placement/Migrate/Removal.antt =====
-- What `migrate_vm` finds, and what the entry of the home PM lists afterwards.
use hpv_c.Base.{
  ℕ, zero, suc, ◌+◌, ◌-◌, ◌≤◌, ◌<◌, ◌≡◌, refl, inl, inr, Option, none, some, List, [], ◌∷◌, arith,
  get_elem?, take, length, count, if◌then◌else◌, ◌==◌, get_elem?-in, Bool-cases,
}
use native.Mathlib.Numerals.{add-one}
use hpv_c.Utility.Remove.{remove_at, remove_item_from_array-remove_at}
use hpv_c.Placement.Platform.{Platform, DataOfPm, NamesDiffer}
use hpv_c.Placement.Invariant.{AllPms, active}
use hpv_c.Placement.Migrate.{find_pm, find_slot, remove_slot}

-- The home PM is found at its own index.
pub find_pm_home :
    (p : Platform) (h n i involved : ℕ) (pms : List DataOfPm)
    → NamesDiffer p
    → AllPms (λ k pm. pm.pm_name ≡ some (p.host_name k)) pms
    → length pms ≡ involved
    → i + n ≡ involved
    → i ≤ h
    → h < involved
    → find_pm (p.host_name h) n i pms ≡ some (some h)
unfolding find_pm
find_pm_home p h zero i involved pms diff named len e lo hi = absurd (omega arith)
find_pm_home p h (suc n) i involved pms diff named len e lo hi =
    let (pm, got) = get_elem?-in pms i (omega arith) in
    let name : pm.pm_name ≡ some (p.host_name i) = named i pm got in
    elim (Bool-cases (i == h)) [
      | inl same ↦ ground (arith, named i pm got)
      | inr other ↦
          ground (
            arith,
            named i pm got,
            diff i h,
            find_pm_home p h n (i + 1) involved pms diff named len,
          )
    ]

-- Taking out the entry at `j` takes out one occurrence of it.
count-remove_at :
    (v j x : ℕ) (xs : List ℕ)
    → get_elem? xs j ≡ some x
    → count v (remove_at j xs) + (if x == v then 1 else 0) ≡ count v xs
count-remove_at v j x [] e = cc
count-remove_at v zero x (y ∷ ys) e = ground arith
count-remove_at v (suc j) x (y ∷ ys) e = omega (arith, count-remove_at v j x ys e)

abbrev bump : Option (Option ℕ) → Option (Option ℕ)
bump none = none
bump (some none) = some none
bump (some (some s)) = some (some (suc s))

find_slot-cons :
    (vm n j x : ℕ) (xs : List ℕ) → find_slot vm n (suc j) (x ∷ xs) ≡ bump (find_slot vm n j xs)
unfolding find_slot
find_slot-cons vm zero j x xs = refl
find_slot-cons vm (suc n) j x xs =
    ground (arith, add-one j, add-one (suc j), find_slot-cons vm n (suc j) x xs)

-- A VM that is listed among the first `n` is found.
find_slot_found :
    (vm n : ℕ) (xs : List ℕ)
    → n ≤ length xs
    → 0 < count vm (take n xs)
    → (s : ℕ) × (find_slot vm n 0 xs ≡ some (some s))
      × (s < n)
      × (get_elem? (take n xs) s ≡ some vm)
unfolding find_slot
find_slot_found vm zero xs h k = absurd (omega arith)
find_slot_found vm (suc n) [] h k = absurd (omega arith)
find_slot_found vm (suc n) (x ∷ xs) h k = elim (Bool-cases (x == vm)) [
  | inl hit ↦ (0, ground arith, omega arith, ground arith)
  | inr miss ↦
      let (s, found, lt, at) = find_slot_found vm n xs (omega arith) (ground arith) in
      (suc s, ground (arith, find_slot-cons vm n 0 x xs), omega arith, at)
]

-- The entry of the home PM after the removal: one occurrence of the VM less.
pub record Removed (vm : ℕ) (pm pm' : DataOfPm) : Type 0 where
  pub name : pm'.pm_name ≡ pm.pm_name
  pub slots : length pm'.vms ≡ length pm.vms
  pub fewer : pm'.number_of_vms + 1 ≡ pm.number_of_vms
  pub count_less : (v : ℕ) → count v (active pm') + (if vm == v then 1 else 0) ≡ count v (active pm)

pub remove_slot-Removed :
    (vm : ℕ) (pm : DataOfPm)
    → pm.number_of_vms ≤ length pm.vms
    → 0 < count vm (active pm)
    → (s : ℕ) × (pm' : DataOfPm) × (find_slot vm pm.number_of_vms 0 pm.vms ≡ some (some s))
      × (remove_slot pm (some s) ≡ some pm')
      × Removed vm pm pm'
unfolding remove_slot
remove_slot-Removed vm pm room listed =
    let (s, found, lt, at) = find_slot_found vm pm.number_of_vms pm.vms room listed in
    let (out, done, len, first, rest) =
      remove_item_from_array-remove_at s pm.number_of_vms pm.vms lt room in
    (
      s,
      record pm { vms = out; number_of_vms = pm.number_of_vms - 1 },
      found,
      rw done,
      record {
        name = refl;
        slots = len;
        fewer = omega arith;
        count_less = λ v. rw first (count-remove_at v s vm (active pm) at);
      },
    )

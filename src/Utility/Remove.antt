-- ===== src/Utility/Remove.antt =====
-- `RemoveItemFromArray` (simgrid/organizer/utility.h) against the removal of a list entry.
use hpv_c.Base.{
  ℕ, zero, suc, ◌+◌, ◌-◌, ◌≤◌, ◌<◌, ◌≡◌, refl, Option, none, some, List, [], ◌∷◌, arith, get_elem?,
  set, take, drop, length, Option-cases, inl, inr,
}
use native.Mathlib.Numerals.{add-one}
use hpv_c.Utility.{shift_down, remove_item_from_array}

-- The list without the entry at an index.
abbrev pub remove_at : ℕ → List ℕ → List ℕ
remove_at i [] = []
remove_at zero (x ∷ xs) = xs
remove_at (suc i) (x ∷ xs) = x ∷ remove_at i xs

abbrev cons_under : ℕ → Option (List ℕ) → Option (List ℕ)
cons_under x none = none
cons_under x (some xs) = some (x ∷ xs)

shift_down-cons :
    (n i x : ℕ) (xs : List ℕ) → shift_down n (suc i) (x ∷ xs) ≡ cons_under x (shift_down n i xs)
unfolding shift_down
shift_down-cons zero i x xs = refl
shift_down-cons (suc n) i x xs = elim (Option-cases (get_elem? xs (suc i))) [
  | inl e ↦ ground (arith, add-one i, add-one (suc i))
  | inr (v, e) ↦
      ground (arith, add-one i, add-one (suc i), shift_down-cons n (suc i) x (set xs i v))
]

-- What the loop leaves: the entries after `i` moved down by one, up to `m`.
abbrev Shifted : ℕ → ℕ → List ℕ → List ℕ → Type 0
Shifted i m xs out =
    (length out ≡ length xs)
    × (take m out ≡ remove_at i (take (suc m) xs))
    × (drop m out ≡ drop m xs)

shift_down_lem :
    (n i m : ℕ) (xs : List ℕ)
    → i + n ≡ m
    → m < length xs
    → (out : List ℕ) × (shift_down n i xs ≡ some out) × Shifted i m xs out
unfolding shift_down
shift_down_lem n i m [] e h = elim h [ ]
shift_down_lem n (suc i) zero (x ∷ xs) e h = absurd (omega arith)
shift_down_lem n (suc i) (suc m) (x ∷ xs) e h =
    let (out, p, q) = shift_down_lem n i m xs (omega arith) (omega arith) in
    (x ∷ out, rw (shift_down-cons n i x xs, p), ground arith)
shift_down_lem zero zero zero (x ∷ xs) e h = (x ∷ xs, refl, (refl, refl, refl))
shift_down_lem zero zero (suc m) (x ∷ xs) e h = absurd (omega arith)
shift_down_lem (suc n) zero zero (x ∷ xs) e h = absurd (omega arith)
shift_down_lem (suc n) zero (suc m) (x ∷ []) e h = absurd (omega arith)
shift_down_lem (suc n) zero (suc m) (x ∷ y ∷ xs) e h =
    let (out, p, q) = shift_down_lem n zero m (y ∷ xs) (omega arith) (omega arith) in
    (y ∷ out, ground (arith, shift_down-cons n zero y (y ∷ xs)), ground arith)

-- For an index below `arraySize`, in an array of at least that many entries, the call does not
-- fault, the first `arraySize - 1` entries are the old ones without the entry at the index, in
-- order, and the array's length and its entries from `arraySize - 1` on are unchanged.
pub remove_item_from_array-remove_at :
    (index array_size : ℕ) (array : List ℕ)
    → index < array_size
    → array_size ≤ length array
    → (out : List ℕ) × (remove_item_from_array index array array_size ≡ some out)
      × (length out ≡ length array)
      × (take (array_size - 1) out ≡ remove_at index (take array_size array))
      × (drop (array_size - 1) out ≡ drop (array_size - 1) array)
unfolding remove_item_from_array
remove_item_from_array-remove_at index zero array h k = elim h [ ]
remove_item_from_array-remove_at index (suc m) array h k =
    let e : suc m - 1 ≡ m = omega arith in
    let (out, p, q) =
      shift_down_lem (suc m - 1 - index) index m array (omega arith) (omega arith) in
    (out, ground arith, q.0, ground arith, ground arith)

-- An index from `arraySize` on leaves the array as it is.
pub remove_item_from_array_out :
    (index array_size : ℕ) (array : List ℕ)
    → array_size ≤ index
    → remove_item_from_array index array array_size ≡ some array
unfolding remove_item_from_array
remove_item_from_array_out index array_size array h = ground arith

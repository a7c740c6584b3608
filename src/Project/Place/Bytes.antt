-- ===== src/Project/Place/Bytes.antt =====
-- When the moves of `unlist` stay inside the list.
use hpv_c.Base.{
  ℕ, zero, suc, ◌+◌, ◌-◌, ◌*◌, ◌≤◌, ◌<◌, ◌≡◌, refl, ap, inl, inr, Bool-cases, none, some, List, [],
  ◌∷◌, arith, ◌==◌, length, min, >>=-eq-some,
}
use hpv_c.Project.Place.{copy_low, move_bytes, move_bytes_at, index_of}

-- `k` bytes fit behind the first word.
move_bytes_total :
    (k : ℕ) (words : List ℕ)
    → k + 4 ≤ 4 * length words
    → (moved : List ℕ) × (move_bytes k words ≡ some moved) × (length moved ≡ length words)
unfolding move_bytes
move_bytes_total zero words room = (words, refl, refl)
move_bytes_total (suc k) [] room = absurd (omega arith)
move_bytes_total (suc k) (a ∷ []) room = absurd (omega arith)
move_bytes_total (suc k) (a ∷ b ∷ words) room =
    let (moved, e, n) = move_bytes_total (k - 3) (b ∷ words) (omega arith) in
    (copy_low (min (suc k) 4) a b ∷ moved, rw e refl, ap suc n)

pub move_bytes_at_total :
    (index k : ℕ) (words : List ℕ)
    → 4 * index + k + 4 ≤ 4 * length words
    → (moved : List ℕ) × (move_bytes_at index k words ≡ some moved) × (length moved ≡ length words)
unfolding move_bytes_at
move_bytes_at_total zero k words room = move_bytes_total k words (omega arith)
move_bytes_at_total (suc index) k [] room = absurd (omega arith)
move_bytes_at_total (suc index) k (a ∷ words) room =
    let (moved, e, n) = move_bytes_at_total index k words (omega arith) in
    (a ∷ moved, rw e refl, ap suc n)

-- Whatever is moved, the list keeps its length.
length-move_bytes :
    (k : ℕ) (words moved : List ℕ) → move_bytes k words ≡ some moved → length moved ≡ length words
unfolding move_bytes
length-move_bytes zero words moved h = let same : words ≡ moved = cc in rw same refl
length-move_bytes (suc k) [] moved h = cc
length-move_bytes (suc k) (a ∷ []) moved h = cc
length-move_bytes (suc k) (a ∷ b ∷ words) moved h =
    let (rest, e, last) = >>=-eq-some (move_bytes (k - 3) (b ∷ words)) _ h in
    let same : copy_low (min (suc k) 4) a b ∷ rest ≡ moved = cc in
    rw (← same) (ap suc (length-move_bytes (k - 3) (b ∷ words) rest e))

pub length-move_bytes_at :
    (index k : ℕ) (words moved : List ℕ)
    → move_bytes_at index k words ≡ some moved
    → length moved ≡ length words
unfolding move_bytes_at
length-move_bytes_at zero k words moved h = length-move_bytes k words moved h
length-move_bytes_at (suc index) k [] moved h = elim (Bool-cases (k == 0)) [
  | inl none_left ↦ let same : [] ≡ moved = cc (rw none_left at h) in rw (← same) refl
  | inr some_left ↦ cc (rw some_left at h)
]
length-move_bytes_at (suc index) k (a ∷ words) moved h =
    let (rest, e, last) = >>=-eq-some (move_bytes_at index k words) _ h in
    let same : a ∷ rest ≡ moved = cc in
    rw (← same) (ap suc (length-move_bytes_at index k words rest e))

-- Behind the last word there is no byte.
pub move_bytes_at_end :
    (index k : ℕ) (words : List ℕ)
    → length words ≡ index + 1
    → 0 < k
    → move_bytes_at index k words ≡ none
unfolding move_bytes_at move_bytes
move_bytes_at_end zero zero words e h = absurd (omega arith)
move_bytes_at_end zero (suc k) [] e h = refl
move_bytes_at_end zero (suc k) (a ∷ []) e h = refl
move_bytes_at_end zero (suc k) (a ∷ b ∷ words) e h = absurd (omega arith)
move_bytes_at_end (suc index) k [] e h = absurd (omega arith)
move_bytes_at_end (suc index) k (a ∷ words) e h =
    rw (move_bytes_at_end index k words (omega arith) h) refl

-- The search ends in the part that is in use.
pub index_of_bound :
    (vm n i : ℕ) (words : List ℕ)
    → n ≤ length words
    → (r : ℕ) × (index_of vm n i words ≡ some r) × (i ≤ r) × (r ≤ i + n)
unfolding index_of
index_of_bound vm zero i words le = (i, refl, omega arith, omega arith)
index_of_bound vm (suc n) i [] le = absurd (omega arith)
index_of_bound vm (suc n) i (a ∷ words) le = elim (Bool-cases (a == vm)) [
  | inl it ↦ (i, rw it refl, omega arith, omega arith)
  | inr other ↦
      let (r, e, lo, hi) = index_of_bound vm n (i + 1) words (omega arith) in
      (r, rw other e, omega arith, omega arith)
]

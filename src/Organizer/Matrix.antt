-- ===== src/Organizer/Matrix.antt =====
-- The organization matrices `transmissionRate` and `transmissionLatency` of
-- simgrid/organizer/hpvc.c, and `create_organization_matrix`.
use hpv_c.Base.{
  ℕ, zero, suc, ◌<◌, ◌≡◌, Option, some, List, arith, get_elem?, get_elem?-in, get_elem?-set,
  get_elem?_bound, get_elem?-replicate, set, store, replicate, length, length-set, length-replicate,
  if◌then◌else◌, ◌==◌, ◌&&◌, ◌>>=◌, >>=-eq-some, inl, inr, Bool-cases, lt→ltb,
}
use hpv_c.Double.{Double}

module _ {A : Type 0} where
  abbrev pub entry : List (List A) → ℕ → ℕ → Option A
  entry m i j = do row ← get_elem? m i; get_elem? row j

  abbrev pub store_entry : List (List A) → ℕ → ℕ → A → Option (List (List A))
  store_entry m i j a = do row ← get_elem? m i; row' ← store row j a; some (set m i row')

  -- `n` rows of `n` entries
  abbrev pub IsSquare : ℕ → List (List A) → Type 0
  IsSquare n m =
      (length m ≡ n) × ((i : ℕ) (row : List A) → get_elem? m i ≡ some row → length row ≡ n)

  pub entry_in :
      (n : ℕ) (m : List (List A)) (i j : ℕ)
      → IsSquare n m
      → i < n
      → j < n
      → (a : A) × (entry m i j ≡ some a)
  entry_in n m i j s hi hj =
      let (row, got) = get_elem?-in m i (rw s.0 hi) in
      let (a, at) = get_elem?-in row j (rw (s.1 i row got) hj) in (a, rw got at)

  -- A store within a square matrix changes that entry only.
  pub store_entry_lem :
      (n : ℕ) (m : List (List A)) (i j : ℕ) (a : A)
      → IsSquare n m
      → i < n
      → j < n
      → (m' : List (List A)) × (store_entry m i j a ≡ some m')
        × IsSquare n m'
        × ((k l : ℕ) → entry m' k l ≡ (if i == k && j == l then some a else entry m k l))
  store_entry_lem n m i j a s hi hj =
      let (row, got) = get_elem?-in m i (rw s.0 hi) in
      let wide : length row ≡ n = s.1 i row got in
      let in_m : i < length m = rw s.0 hi in
      let in_row : j < length row = rw wide hj in
      (
        set m i (set row j a),
        rw (got, lt→ltb j (length row) in_row),
        (
          rw (length-set m i (set row j a)) s.0,
          λ k r e.
              ground (arith, get_elem?-set m i k (set row j a) in_m, s.1 k r, length-set row j a),
        ),
        λ k l. elim (Bool-cases (i == k)) [
          | inl same ↦
              ground (arith, get_elem?-set m i k (set row j a) in_m, get_elem?-set row j l a in_row)
          | inr other ↦ ground (arith, get_elem?-set m i k (set row j a) in_m)
        ],
      )

  replicate_only : (n i : ℕ) (a : A) {b : A} → get_elem? (replicate n a) i ≡ some b → b ≡ a
  replicate_only zero i a e = cc
  replicate_only (suc n) zero a e = cc
  replicate_only (suc n) (suc i) a e = replicate_only n i a e

  pub replicate-IsSquare :
      (n : ℕ) (a : A)
      → IsSquare n (replicate n (replicate n a))
        × ((i j : ℕ) → i < n → j < n → entry (replicate n (replicate n a)) i j ≡ some a)
  replicate-IsSquare n a = (
    (
      length-replicate n (replicate n a),
      λ i row e. ground (
        arith,
        get_elem?-replicate n (replicate n a) i,
        get_elem?_bound (replicate n (replicate n a)) i e,
        length-replicate n (replicate n a),
        length-replicate n a,
      ),
    ),
    λ i j hi hj. rw (get_elem?-replicate n (replicate n a) i hi) (get_elem?-replicate n a j hj),
  )

replicate_rows :
    {A : Type 0} (n i : ℕ) (a : A) {row : List A}
    → get_elem? (replicate n (replicate n a)) i ≡ some row
    → row ≡ replicate n a
replicate_rows n i a e = replicate_only n i (replicate n a) e

pub entry-replicate :
    {A : Type 0} (n i j : ℕ) (a : A) {b : A}
    → entry (replicate n (replicate n a)) i j ≡ some b
    → b ≡ a
entry-replicate n i j a e =
    let (row, got, at) = >>=-eq-some (get_elem? (replicate n (replicate n a)) i) _ e in
    let same : row ≡ replicate n a = replicate_rows n i a got in
    replicate_only n j a (rw same at at)

pub record Matrices (D : Type 0) : Type 0 where
  pub rate : List (List ℕ)
  pub latency : List (List D)

abbrev pub initial_rate : ℕ
initial_rate = 1

module _ {D : Type 0} ⦃d : Double D⦄ where
  -- 0.006f
  abbrev pub initial_latency : D
  initial_latency = d.narrow (d.lit 6 3)

  -- The loops store one constant at each entry of the two matrices.
  unfoldable pub create_organization_matrix : ℕ → Matrices D
  create_organization_matrix no_vm = record {
    rate = replicate no_vm (replicate no_vm initial_rate);
    latency = replicate no_vm (replicate no_vm initial_latency);
  }

pub record IsSized {D : Type 0} (n : ℕ) (m : Matrices D) : Type 0 where
  pub rates : IsSquare n m.rate
  pub latencies : IsSquare n m.latency

pub create_organization_matrix-IsSized :
    {D : Type 0} ⦃d : Double D⦄ (n : ℕ) → IsSized {D = D} n (create_organization_matrix n)
unfolding create_organization_matrix
create_organization_matrix-IsSized n = record {
  rates = (replicate-IsSquare n _).0;
  latencies = (replicate-IsSquare n _).0;
}

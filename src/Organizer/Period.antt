-- ===== src/Organizer/Period.antt =====
-- The start of a period of `organization_manager` (simgrid/organizer/hpvc.c): the copy of the
-- matrices that remembers earlier periods, and their reset.
pub mod Rates
use hpv_c.Base.{
  Bool, true, not, ◌&&◌, ℕ, zero, suc, ◌<◌, ◌≡◌, refl, some, List, [], ◌∷◌, map, arith, get_elem?,
  length, length-map, ◌>>=◌, >>=-eq-some,
}
use hpv_c.Double.{Double, add_float, mul_float, sub_float}
use hpv_c.Organizer.Matrix.{
  Matrices, IsSized, IsSquare, entry, entry_in, initial_rate, initial_latency,
}

module _ {A B C : Type 0} where
  abbrev pub zip_with : (A → B → C) → List A → List B → List C
  zip_with f [] ys = []
  zip_with f (x ∷ xs) [] = []
  zip_with f (x ∷ xs) (y ∷ ys) = f x y ∷ zip_with f xs ys

  pub get_elem?-zip_with :
      (f : A → B → C) (xs : List A) (ys : List B) (i : ℕ)
      → length xs ≡ length ys
      → get_elem? (zip_with f xs ys) i ≡ (do x ← get_elem? xs i; y ← get_elem? ys i; some (f x y))
  get_elem?-zip_with f [] ys i e = refl
  get_elem?-zip_with f (x ∷ xs) [] i e = absurd (omega arith)
  get_elem?-zip_with f (x ∷ xs) (y ∷ ys) zero e = refl
  get_elem?-zip_with f (x ∷ xs) (y ∷ ys) (suc i) e = get_elem?-zip_with f xs ys i (omega arith)

  pub length-zip_with :
      (f : A → B → C) (xs : List A) (ys : List B)
      → length xs ≡ length ys
      → length (zip_with f xs ys) ≡ length ys
  length-zip_with f [] ys e = e
  length-zip_with f (x ∷ xs) [] e = absurd (omega arith)
  length-zip_with f (x ∷ xs) (y ∷ ys) e = omega (arith, length-zip_with f xs ys (omega arith))

-- The loops over `i` and `j` treat each entry by itself.
abbrev pub zip_matrix :
    {A B C : Type 0} → (A → B → C) → List (List A) → List (List B) → List (List C)
zip_matrix f = zip_with (zip_with f)

abbrev pub fill_matrix : {A : Type 0} → A → List (List A) → List (List A)
fill_matrix a = map (map (λ _. a))

module _ {D : Type 0} ⦃d : Double D⦄ (alpha : D) where
  -- ALPHA * new + (1 - ALPHA) * ..., in floats
  unfoldable pub blend : D → D → D
  blend old new =
      add_float (mul_float alpha old) (mul_float (sub_float (d.narrow (d.of_int 1)) alpha) new)

  -- The rates are ints: the blend is cut to one.
  unfoldable pub blend_rate : ℕ → ℕ → ℕ
  unfolding blend
  blend_rate tmp rate = d.to_int (blend (d.narrow (d.of_int tmp)) (d.narrow (d.of_int rate)))

  -- The cast to int is undefined out of range. (No rate is negative: a blend below 0, which needs a
  -- factor out of 0..1, is taken for a fault too.)
  unfoldable pub blend_fits : ℕ → ℕ → Bool
  unfolding blend
  blend_fits tmp rate =
      let x = blend (d.narrow (d.of_int tmp)) (d.narrow (d.of_int rate)) in
      d.lt x (d.lit 2147483648 0) && not (d.lt x (d.lit 0 0))

  unfoldable pub row_fits : List ℕ → List ℕ → Bool
  unfolding blend_fits
  row_fits [] rates = true
  row_fits (x ∷ tmps) [] = true
  row_fits (x ∷ tmps) (y ∷ rates) = blend_fits x y && row_fits tmps rates

  -- The casts of all rates are defined.
  unfoldable pub blends_fit : List (List ℕ) → List (List ℕ) → Bool
  unfolding row_fits
  blends_fit [] rates = true
  blends_fit (x ∷ tmps) [] = true
  blends_fit (x ∷ tmps) (y ∷ rates) = row_fits x y && blends_fit tmps rates

  -- The new temporary matrices.
  unfoldable pub remember : Matrices D → Matrices D → Matrices D
  unfolding blend_rate blend
  remember tmp m = record {
    rate = zip_matrix blend_rate tmp.rate m.rate;
    latency = zip_matrix blend tmp.latency m.latency;
  }

-- "clear original matrix to next period"
unfoldable pub clear : {D : Type 0} ⦃d : Double D⦄ → Matrices D → Matrices D
clear m = record {
  rate = fill_matrix initial_rate m.rate;
  latency = fill_matrix initial_latency m.latency;
}

zip_matrix-IsSquare :
    {A B C : Type 0} (f : A → B → C) (n : ℕ) (xs : List (List A)) (ys : List (List B))
    → IsSquare n xs
    → IsSquare n ys
    → IsSquare n (zip_matrix f xs ys)
zip_matrix-IsSquare f n xs ys a b =
    let same : length xs ≡ length ys = omega arith in
    (
      omega (arith, length-zip_with (zip_with f) xs ys same),
      λ i row e.
          let e' = rw (get_elem?-zip_with (zip_with f) xs ys i same) at e in
          let (x, got_x, more) = >>=-eq-some (get_elem? xs i) _ e' in
          let (y, got_y, made) = >>=-eq-some (get_elem? ys i) _ more in
          let wide : length x ≡ length y = omega (arith, a.1 i x got_x, b.1 i y got_y) in
          ground (arith, length-zip_with f x y wide, b.1 i y got_y),
    )

get_elem?-map :
    {A B : Type 0} (f : A → B) (xs : List A) (i : ℕ)
    → get_elem? (map f xs) i ≡ (do x ← get_elem? xs i; some (f x))
get_elem?-map f [] i = refl
get_elem?-map f (x ∷ xs) zero = refl
get_elem?-map f (x ∷ xs) (suc i) = get_elem?-map f xs i

fill_matrix-IsSquare :
    {A : Type 0} (a : A) (n : ℕ) (xs : List (List A))
    → IsSquare n xs
    → IsSquare n (fill_matrix a xs)
fill_matrix-IsSquare a n xs s = (
  rw (length-map xs (map (λ _. a))) s.0,
  λ i row e.
      let (x, got, made) =
        >>=-eq-some (get_elem? xs i) _ (rw (get_elem?-map (map (λ _. a)) xs i) at e) in
      ground (arith, length-map x (λ _. a), s.1 i x got),
)

pub remember-IsSized :
    {D : Type 0} ⦃d : Double D⦄ (alpha : D) (n : ℕ) (tmp m : Matrices D)
    → IsSized n tmp
    → IsSized n m
    → IsSized n (remember alpha tmp m)
unfolding remember
remember-IsSized alpha n tmp m a b = record {
  rates = zip_matrix-IsSquare _ n tmp.rate m.rate a.rates b.rates;
  latencies = zip_matrix-IsSquare _ n tmp.latency m.latency a.latencies b.latencies;
}

pub clear-IsSized :
    {D : Type 0} ⦃d : Double D⦄ (n : ℕ) (m : Matrices D) → IsSized n m → IsSized n (clear m)
unfolding clear
clear-IsSized n m a = record {
  rates = fill_matrix-IsSquare _ n m.rate a.rates;
  latencies = fill_matrix-IsSquare _ n m.latency a.latencies;
}

entry-fill_matrix :
    {A : Type 0} (a : A) (xs : List (List A)) (i j : ℕ) {b : A}
    → entry xs i j ≡ some b
    → entry (fill_matrix a xs) i j ≡ some a
entry-fill_matrix a xs i j e =
    let (x, got, at) = >>=-eq-some (get_elem? xs i) _ e in
    rw (get_elem?-map (map (λ _. a)) xs i, got, get_elem?-map (λ _. a) x j, at)

entry-zip_matrix :
    {A B C : Type 0} (f : A → B → C) (n : ℕ) (xs : List (List A)) (ys : List (List B)) (i j : ℕ)
    {x : A} {y : B}
    → IsSquare n xs
    → IsSquare n ys
    → entry xs i j ≡ some x
    → entry ys i j ≡ some y
    → entry (zip_matrix f xs ys) i j ≡ some (f x y)
entry-zip_matrix f n xs ys i j a b e g =
    let (r, got_r, at_r) = >>=-eq-some (get_elem? xs i) _ e in
    let (q, got_q, at_q) = >>=-eq-some (get_elem? ys i) _ g in
    let wide : length r ≡ length q = omega (arith, a.1 i r got_r, b.1 i q got_q) in
    rw (
      get_elem?-zip_with (zip_with f) xs ys i (omega arith),
      got_r,
      got_q,
      get_elem?-zip_with f r q j wide,
      at_r,
      at_q,
    )

-- At every pair of VMs, a period's start sets the temporary entries to the blend of the temporary
-- and the measured ones (for the rate cut to an int), and the measured entries to their initial
-- values. (The matrices have a row and a column for each VM.)
remember-clear_entries :
    {D : Type 0} ⦃d : Double D⦄ (alpha : D) (n : ℕ) (tmp m : Matrices D) (i j : ℕ)
    → IsSized n tmp
    → IsSized n m
    → i < n
    → j < n
    → (r : ℕ) × (r' : ℕ) × (l : D) × (l' : D) × (entry tmp.rate i j ≡ some r)
      × (entry m.rate i j ≡ some r')
      × (entry tmp.latency i j ≡ some l)
      × (entry m.latency i j ≡ some l')
      × (entry (remember alpha tmp m).rate i j ≡ some (blend_rate alpha r r'))
      × (entry (remember alpha tmp m).latency i j ≡ some (blend alpha l l'))
      × (entry (clear m).rate i j ≡ some initial_rate)
      × (entry (clear m).latency i j ≡ some initial_latency)
unfolding remember clear
remember-clear_entries alpha n tmp m i j a b hi hj =
    let (r, e1) = entry_in n tmp.rate i j a.rates hi hj in
    let (r', e2) = entry_in n m.rate i j b.rates hi hj in
    let (l, e3) = entry_in n tmp.latency i j a.latencies hi hj in
    let (l', e4) = entry_in n m.latency i j b.latencies hi hj in
    (
      r,
      r',
      l,
      l',
      e1,
      e2,
      e3,
      e4,
      entry-zip_matrix _ n tmp.rate m.rate i j a.rates b.rates e1 e2,
      entry-zip_matrix _ n tmp.latency m.latency i j a.latencies b.latencies e3 e4,
      entry-fill_matrix _ m.rate i j e2,
      entry-fill_matrix _ m.latency i j e4,
    )

-- After the reset no rate is above 1.
pub clear_below :
    {D : Type 0} ⦃d : Double D⦄ (m : Matrices D) (i j r : ℕ)
    → entry (clear m).rate i j ≡ some r
    → r < 2
unfolding clear
clear_below m i j r e =
    let (row, got, at) = >>=-eq-some (get_elem? (fill_matrix initial_rate m.rate) i) _ e in
    let (x, got_x, made) =
      >>=-eq-some (get_elem? m.rate i) _
        (rw (get_elem?-map (map (λ _. initial_rate)) m.rate i) at got) in
    let same : map (λ _. initial_rate) x ≡ row = ground arith in
    let (y, got_y, one) =
      >>=-eq-some (get_elem? x j) _
        (rw (get_elem?-map (λ _. initial_rate) x j) at (rw (← same) at at)) in
    ground arith

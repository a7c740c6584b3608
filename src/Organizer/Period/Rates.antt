-- ===== src/Organizer/Period/Rates.antt =====
-- The casts of the blended rates in a period of simgrid/organizer/hpvc.c: when they are defined, and what
-- bounds them.
use hpv_c.Base.{
  ℕ, suc, ◌<◌, ◌≡◌, refl, true, some, List, [], ◌∷◌, arith, get_elem?, length, >>=-eq-some,
}
use hpv_c.Double.{Double}
use hpv_c.Organizer.Matrix.{Matrices, IsSized, entry}
use hpv_c.Organizer.Period.{
  zip_with, zip_matrix, get_elem?-zip_with, blend_rate, blend_fits, row_fits, blends_fit, remember,
}

module _ {D : Type 0} ⦃d : Double D⦄ (alpha : D) where
  row_fits_lem :
      (xs ys : List ℕ)
      → ((j a b : ℕ)
          → get_elem? xs j ≡ some a
          → get_elem? ys j ≡ some b
          → blend_fits alpha a b ≡ true)
      → row_fits alpha xs ys ≡ true
  unfolding row_fits
  row_fits_lem [] ys all = refl
  row_fits_lem (x ∷ xs) [] all = refl
  row_fits_lem (x ∷ xs) (y ∷ ys) all =
      rw (all 0 x y refl refl, row_fits_lem xs ys (λ j a b e g. all (suc j) a b e g)) refl

  -- They are if the blend of each pair of entries fits.
  pub blends_fit_lem :
      (xs ys : List (List ℕ))
      → ((i j a b : ℕ)
          → entry xs i j ≡ some a
          → entry ys i j ≡ some b
          → blend_fits alpha a b ≡ true)
      → blends_fit alpha xs ys ≡ true
  unfolding blends_fit
  blends_fit_lem [] ys all = refl
  blends_fit_lem (x ∷ xs) [] all = refl
  blends_fit_lem (x ∷ xs) (y ∷ ys) all =
      rw
        (
          row_fits_lem x y (λ j a b e g. all 0 j a b e g),
          blends_fit_lem xs ys (λ i j a b e g. all (suc i) j a b e g),
        )
        refl

entry_at :
    (m : List (List ℕ)) (i j : ℕ) (row : List ℕ) {a : ℕ}
    → get_elem? m i ≡ some row
    → get_elem? row j ≡ some a
    → entry m i j ≡ some a
entry_at m i j row got at = rw got at

-- The rates that are remembered stay below a limit that no blend passes.
pub remember_below :
    {D : Type 0} ⦃d : Double D⦄ (alpha : D) (n limit : ℕ) (tmp m : Matrices D)
    → IsSized n tmp
    → IsSized n m
    → ((a b : ℕ) → a < limit → b < limit → blend_rate alpha a b < limit)
    → ((i j r : ℕ) → entry tmp.rate i j ≡ some r → r < limit)
    → ((i j r : ℕ) → entry m.rate i j ≡ some r → r < limit)
    → (i j r : ℕ) → entry (remember alpha tmp m).rate i j ≡ some r
    → r < limit
unfolding remember
remember_below alpha n limit tmp m a b stays old new i j r e =
    let same : length tmp.rate ≡ length m.rate = omega (arith, a.rates.0, b.rates.0) in
    let (row, got, at) =
      >>=-eq-some (get_elem? (zip_matrix (blend_rate alpha) tmp.rate m.rate) i) _ e in
    let (x, got_x, more) =
      >>=-eq-some (get_elem? tmp.rate i) _
        (rw (get_elem?-zip_with (zip_with (blend_rate alpha)) tmp.rate m.rate i same) at got) in
    let (y, got_y, made) = >>=-eq-some (get_elem? m.rate i) _ more in
    let wide : length x ≡ length y = omega (arith, a.rates.1 i x got_x, b.rates.1 i y got_y) in
    let zipped : zip_with (blend_rate alpha) x y ≡ row = cc in
    let at' = rw (get_elem?-zip_with (blend_rate alpha) x y j wide) at (rw (← zipped) at at) in
    let (p, got_p, rest) = >>=-eq-some (get_elem? x j) _ at' in
    let (q, got_q, done) = >>=-eq-some (get_elem? y j) _ rest in
    let it : blend_rate alpha p q ≡ r = cc in
    let first = old i j p (entry_at tmp.rate i j x got_x got_p) in
    let second = new i j q (entry_at m.rate i j y got_y got_q) in
    omega (arith, stays p q first second, it)

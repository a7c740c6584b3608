-- ===== src/Organizer/Candidate/Total.antt =====
-- The computation of H does not fault on matrices of the right size.
use hpv_c.Base.{ℕ, zero, suc, ◌+◌, ◌≤◌, ◌<◌, ◌≡◌, refl, Option, some, List, [], ◌∷◌, arith, length}
use hpv_c.Double.{Double, add_float, mul_float}
use hpv_c.Organizer.Matrix.{Matrices, IsSized, entry_in}
use hpv_c.Organizer.Candidate.{Candidate, product, heat, heats, find_candidate, candidate}

module _ {D : Type 0} ⦃d : Double D⦄ (n : ℕ) (tmp : Matrices D) (z : IsSized n tmp) where
  product_total : (i j : ℕ) → i < n → j < n → (x : D) × (product tmp i j ≡ some x)
  unfolding product
  product_total i j hi hj =
      let (r, e) = entry_in n tmp.rate i j z.rates hi hj in
      let (l, f) = entry_in n tmp.latency i j z.latencies hi hj in
      (mul_float (d.narrow (d.of_int r)) l, rw (e, f))

  heat_total :
      (i rounds j : ℕ) (h : D) → i < n → j + rounds ≤ n → (x : D) × (heat tmp i rounds j h ≡ some x)
  unfolding heat
  heat_total i zero j h hi hj = (h, refl)
  heat_total i (suc rounds) j h hi hj =
      let (to, e) = product_total i j hi (omega arith) in
      let (from, f) = product_total j i (omega arith) hi in
      let (x, done) =
        heat_total i rounds (j + 1) (add_float (add_float h to) from) hi (omega arith) in
      (x, rw (e, f) done)

  pub heats_total :
      (rounds i : ℕ)
      → i + rounds ≤ n
      → (hs : List D) × (heats n tmp rounds i ≡ some hs) × (length hs ≡ rounds)
  unfolding heats
  heats_total zero i h = ([], refl, refl)
  heats_total (suc rounds) i h =
      let (x, e) = heat_total i n 0 (d.lit 0 0) (omega arith) (omega arith) in
      let (hs, f, len) = heats_total rounds (i + 1) (omega arith) in
      (x ∷ hs, rw (e, f), omega (arith, len))

module _ {D : Type 0} ⦃d : Double D⦄ where
  find_candidate_index :
      (last : Option ℕ) (hs : List D) (i n : ℕ) (c : Candidate D)
      → i + length hs ≤ n
      → c.index < n
      → (find_candidate last hs i c).index < n
  unfolding find_candidate
  find_candidate_index last [] i n c h k = k
  find_candidate_index last (x ∷ hs) i n c h k =
      find_candidate_index last hs (i + 1) n _ (omega arith) (ground arith)

  pub candidate_index :
      (last : Option ℕ) (hs : List D) → 0 < length hs → (candidate last hs).index < length hs
  unfolding candidate
  candidate_index last hs h = find_candidate_index last hs 0 (length hs) _ (omega arith) h

-- ===== src/Project/Results/Homes.antt =====
-- The round robin spreads the processes of the second cluster evenly.
use hpv_c.Base.{
  ℕ, zero, suc, ◌+◌, ◌*◌, ◌/◌, ◌%◌, ◌<◌, ◌≡◌, refl, sym, inl, inr, false, Bool-cases, some, List,
  [], ◌∷◌, ◌++◌, arith, ltb, ◌==◌, count, count-append, if◌then◌else◌,
}
use native.Mathlib.Nat.{div-eq_of_lt-le, mod-add-div}
use hpv_c.Project.Results.{home_vm, home_vms}

-- How many of the numbers below `n` have the remainder `h`.
abbrev pub even_share : ℕ → ℕ → ℕ → ℕ
even_share v n h = n / v + (if ltb h (n % v) then 1 else 0)

even_share-zero : (v h : ℕ) → h < v → even_share v 0 h ≡ 0
even_share-zero v h lt =
    let parts = mod-add-div 0 v in
    let rest : 0 % v ≡ 0 = omega (arith, parts) in
    let none_each : 0 / v ≡ 0 = div-eq_of_lt-le v (omega arith) (grind arith) in
    rw (rest, none_each) (ground arith)

-- The quotient and the remainder of the next number.
suc_div :
    (v n q r : ℕ)
    → r + v * q ≡ n
    → r < v
    → (r + 1 < v → (suc n / v ≡ q) × (suc n % v ≡ r + 1))
      × (r + 1 ≡ v → (suc n / v ≡ q + 1) × (suc n % v ≡ 0))
suc_div v n q r e lt =
    let comm : q * v ≡ v * q = grind arith in
    let more : suc q * v ≡ v * q + v = grind arith in
    let most : suc (q + 1) * v ≡ v * q + v + v = grind arith in
    let next : v * (q + 1) ≡ v * q + v = grind arith in
    let parts = mod-add-div (suc n) v in
    (
      λ room.
          let whole : suc n / v ≡ q = div-eq_of_lt-le v (omega arith) (omega arith) in
          let p = rw whole at parts in (whole, omega (arith, p)),
      λ full.
          let plus : (q + 1) * v ≡ v * q + v = grind arith in
          let whole : suc n / v ≡ q + 1 = div-eq_of_lt-le v (omega arith) (omega arith) in
          let p = rw whole at parts in (whole, omega (arith, p)),
    )

even_share-suc :
    (v n h : ℕ) → h < v → even_share v (suc n) h ≡ even_share v n h + (if n % v == h then 1 else 0)
even_share-suc v n h lt =
    let below : n % v < v = grind arith in
    let (next, wrap) = suc_div v n (n / v) (n % v) (mod-add-div n v) below in
    elim (Bool-cases (ltb (n % v + 1) v)) [
      | inl room ↦ let (whole, rest) = next (ground arith) in rw (whole, rest) (ground arith)
      | inr full ↦ let (whole, rest) = wrap (ground arith) in rw (whole, rest) (ground arith)
    ]

-- With `v` VMs, `v` above 0, every process gets a home, and of `n` processes each VM is the home of
-- n / v, and the first n % v VMs of one more.
count-home_vms :
    (v n : ℕ)
    → 0 < v
    → (homes : List ℕ) × (home_vms v n ≡ some homes)
      × ((h : ℕ) → h < v → count h homes ≡ n / v + (if ltb h (n % v) then 1 else 0))
unfolding home_vms home_vm
count-home_vms v zero some_vms = ([], refl, λ h lt. sym (even_share-zero v h lt))
count-home_vms v (suc n) some_vms =
    let (homes, e, counts) = count-home_vms v n some_vms in
    let some_vm : (v == 0) ≡ false = ground arith in
    (
      homes ++ (n % v) ∷ [],
      rw (e, some_vm) refl,
      λ h lt.
          ground (arith, count-append h homes ((n % v) ∷ []), counts h lt, even_share-suc v n h lt),
    )

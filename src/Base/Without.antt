-- ===== src/Base/Without.antt =====
-- A list less the item at a place.
use Prim.Native.Nat.{ℕ, zero, suc}
use mathlib.Core.Path.{◌≡◌}
use mathlib.Core.Option.{some}
use mathlib.Core.List.{List, [], ◌∷◌}
use native.Mathlib.Omega.{arith}
use hpv_c.Base.Lists.{length, get_elem?}
use hpv_c.Base.Each.{All}

module _ {ℓ} {A : Type ℓ} where
  abbrev pub without : ℕ → List A → List A
  without q [] = []
  without zero (x ∷ xs) = xs
  without (suc q) (x ∷ xs) = x ∷ without q xs

  pub length-without :
      (q : ℕ) (xs : List A) {a : A}
      → get_elem? xs q ≡ some a
      → length xs ≡ suc (length (without q xs))
  length-without q [] h = cc
  length-without zero (x ∷ xs) h = omega arith
  length-without (suc q) (x ∷ xs) h = omega (arith, length-without q xs h)

  pub All-without {κ} : (P : A → Type κ) (q : ℕ) (xs : List A) → All P xs → All P (without q xs)
  All-without P q [] h = h
  All-without P zero (x ∷ xs) h = h.1
  All-without P (suc q) (x ∷ xs) h = (h.0, All-without P q xs h.1)

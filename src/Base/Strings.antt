-- ===== src/Base/Strings.antt =====
-- Strings, without the zero at their end.
use Prim.Native.Nat.{ℕ}
use mathlib.Core.Path.{◌≡◌, refl}
use mathlib.Core.Bool.{Bool, true, false, ◌&&◌}
use mathlib.Core.Option.{Option, none, some}
use mathlib.Core.List.{List, [], ◌∷◌}
use native.Mathlib.Omega.{arith}
use hpv_c.Base.Tests.{◌==◌}

abbrev pub Text : Type 0
Text = List ℕ

-- `strcmp (s, t) == 0`
abbrev pub same_text : Text → Text → Bool
same_text [] [] = true
same_text [] (y ∷ ys) = false
same_text (x ∷ xs) [] = false
same_text (x ∷ xs) (y ∷ ys) = (x == y) && same_text xs ys

-- `strcmp` faults on NULL, and on a pointer that was never set or that is freed: all are `none`.
abbrev pub str_equal : Option Text → Option Text → Option Bool
str_equal (some s) (some t) = some (same_text s t)
str_equal (some s) none = none
str_equal none t = none

pub same_text_self : (t : Text) → same_text t t ≡ true
same_text_self [] = refl
same_text_self (x ∷ xs) = ground (arith, same_text_self xs)

pub same_text-eq : (s t : Text) → same_text s t ≡ true → s ≡ t
same_text-eq [] [] h = refl
same_text-eq [] (y ∷ ys) h = cc
same_text-eq (x ∷ xs) [] h = cc
same_text-eq (x ∷ xs) (y ∷ ys) h =
    let first : x ≡ y = ground arith in let rest : xs ≡ ys = same_text-eq xs ys (ground arith) in cc

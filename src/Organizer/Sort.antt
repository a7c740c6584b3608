-- ===== src/Organizer/Sort.antt =====
-- The bubble sort of the hosts by `nextH` in `organization_manager` (simgrid/organizer/hpvc.c). The
-- index array is a list, and `swap`, a float there, holds an index without rounding.
use hpv_c.Base.{ℕ, zero, suc, ◌-◌, List, [], ◌∷◌, ◌+◌, if◌then◌else◌}
use hpv_c.Double.{Double}
pub mod Order

-- `sortetIndexNextH[i] = i`: the indices from `i` on, `n` of them.
unfoldable pub indices : ℕ → ℕ → List ℕ
indices zero i = []
indices (suc n) i = i ∷ indices n (i + 1)

module _ {D : Type 0} ⦃d : Double D⦄ (next_h : ℕ → D) where
  -- The inner loop with `n` rounds left, from the place that the list begins at.
  unfoldable pub bubble : ℕ → List ℕ → List ℕ
  bubble zero hosts = hosts
  bubble (suc n) [] = []
  bubble (suc n) (x ∷ []) = x ∷ []
  bubble (suc n) (x ∷ y ∷ hosts) =
      let swap = d.lt (next_h y) (next_h x) in
      let low = if swap then y else x in
      let high = if swap then x else y in low ∷ bubble n (high ∷ hosts)

  -- The outer loop: a round with `n + 1` comparisons is followed by one with `n`.
  unfoldable pub bubbles : ℕ → List ℕ → List ℕ
  unfolding bubble
  bubbles zero hosts = hosts
  bubbles (suc n) hosts = bubbles n (bubble (suc n) hosts)

  unfoldable pub sort_hosts : ℕ → List ℕ
  unfolding bubbles indices
  sort_hosts involved = bubbles (involved - 1) (indices involved 0)

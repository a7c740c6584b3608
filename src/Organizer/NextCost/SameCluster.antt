-- ===== src/Organizer/NextCost/SameCluster.antt =====
-- The test for two hosts of one cluster: those below 10 are one, those from 10 on the other.
use hpv_c.Base.{ℕ, ◌≡◌, ◌≢◌, true, false, some, arith, ◌⊎◌, ◌↔◌, ◌<◌, ◌≤◌}
use hpv_c.Organizer.NextCost.{is_same_cluster}

-- The numbers of one cluster: both below 10, or both not.
abbrev pub SameSide : ℕ → ℕ → Type 0
SameSide home i = ((home < 10) × (i < 10)) ⊎ ((10 ≤ home) × (10 ≤ i))

-- Away from host 10 the test is whether the two hosts are on the same side of 10; host 10 is in one
-- cluster with no host, not with itself either.
is_same_cluster_lem :
    (home i : ℕ)
    → (home ≢ 10 → i ≢ 10 → (is_same_cluster (some home) i ≡ true) ↔ SameSide home i)
      × (is_same_cluster (some 10) i ≡ false)
      × (is_same_cluster (some home) 10 ≡ false)
unfolding is_same_cluster
is_same_cluster_lem home i =
    (λ a b. (λ h. ground arith, λ h. ground arith), ground arith, ground arith)

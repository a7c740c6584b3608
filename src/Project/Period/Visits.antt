-- ===== src/Project/Period/Visits.antt =====
-- A period of the policy is one visit to each host of the cluster.
use hpv_c.Base.{
  ℕ, zero, suc, ◌+◌, ◌-◌, ◌%◌, ◌≤◌, ◌<◌, ◌≡◌, refl, true, false, ◌&&◌, Option, some, List, [], ◌∷◌,
  ◌++◌, arith, ltb, leb, lt→ltb, ◌==◌, count, count-append, if◌then◌else◌, ◌>>=◌,
}
use hpv_c.Double.{Double}
use hpv_c.Project.Pool.{Pool}
use hpv_c.Project.Policy.{Bounds}
use hpv_c.Project.Period.{visit_host, visit_hosts, period}

-- The `n` numbers from `first` on.
abbrev pub range : ℕ → ℕ → List ℕ
range first zero = []
range first (suc n) = first ∷ range (first + 1) n

count-range :
    (h first n : ℕ) → count h (range first n) ≡ (if leb first h && ltb h (first + n) then 1 else 0)
count-range h first zero = ground arith
count-range h first (suc n) = ground (arith, count-range h (first + 1) n)

module _ {D : Type 0} ⦃d : Double D⦄ (b : Bounds D) where
  abbrev pub visit_all : List ℕ → Pool D → Option (Pool D)
  visit_all [] p = some p
  visit_all (m ∷ hosts) p = do p' ← visit_host b m p; visit_all hosts p'

  -- From the host drawn to the last, and from the first to the one before the host drawn.
  abbrev pub visiting_order : ℕ → List ℕ
  visiting_order random =
      let drawn = random % b.involved in
      range (b.host + drawn) (b.involved - drawn) ++ range b.host drawn

  visit_hosts-range :
      (left m : ℕ) (p : Pool D)
      → m + left ≤ b.host + b.involved
      → visit_hosts b left m p ≡ visit_all (range m left) p
  unfolding visit_hosts
  visit_hosts-range zero m p within = refl
  visit_hosts-range (suc left) m p within =
      let inside : (m == b.host + b.involved) ≡ false = ground arith in
      rw inside λ i. visit_host b m p >>= λ p'. visit_hosts-range left (m + 1) p' (omega arith) i

  -- With `back` visits up to the last host, and `front` to those before the one drawn.
  visit_hosts-around :
      (left back front m : ℕ) (p : Pool D)
      → left ≡ back + front
      → m + back ≡ b.host + b.involved
      → front ≤ b.involved
      → visit_hosts b left m p ≡ visit_all (range m back ++ range b.host front) p
  unfolding visit_hosts
  visit_hosts-around zero zero zero m p split last within = refl
  visit_hosts-around zero zero (suc front) m p split last within = absurd (omega arith)
  visit_hosts-around zero (suc back) front m p split last within = absurd (omega arith)
  visit_hosts-around (suc left) zero zero m p split last within = absurd (omega arith)
  visit_hosts-around (suc left) zero (suc front) m p split last within =
      let behind : (m == b.host + b.involved) ≡ true = ground arith in
      let same : left ≡ front = omega arith in
      rw (behind, same)
        λ i. visit_host b b.host p >>= λ p'. visit_hosts-range front (b.host + 1) p' (omega arith) i
  visit_hosts-around (suc left) (suc back) front m p split last within =
      let inside : (m == b.host + b.involved) ≡ false = ground arith in
      rw inside λ i. visit_host b m p >>= λ p'.
      visit_hosts-around left back front (m + 1) p' (omega arith) (omega arith) within i

  -- Whatever `rand` gives, a period of a cluster with hosts is the series of visits in the order
  -- that starts at the host drawn, and in that order each host of the cluster stands exactly once,
  -- and no other.
  pub period-visit_all :
      (random : ℕ) (p : Pool D)
      → 0 < b.involved
      → (period b random p ≡ visit_all (visiting_order random) p)
        × ((h : ℕ)
            → count h (visiting_order random)
              ≡ (if leb b.host h && ltb h (b.host + b.involved) then 1 else 0))
  unfolding period
  period-visit_all random p some_hosts =
      let drawn = random % b.involved in
      let below : drawn < b.involved = grind arith in
      (
        rw (lt→ltb 0 b.involved some_hosts) (
            visit_hosts-around b.involved (b.involved - drawn) drawn (b.host + drawn) p
              (omega arith) (omega arith) (omega arith)),
        λ h. ground (
          arith,
          count-append h (range (b.host + drawn) (b.involved - drawn)) (range b.host drawn),
          count-range h (b.host + drawn) (b.involved - drawn),
          count-range h b.host drawn,
        ),
      )

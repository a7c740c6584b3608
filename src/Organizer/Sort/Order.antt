-- ===== src/Organizer/Sort/Order.antt =====
-- The sort of `organization_manager` permutes the hosts and puts them in order.
use hpv_c.Base.{
  ℕ, zero, suc, ◌+◌, ◌-◌, ◌≡◌, refl, ◌∙◌, inl, inr, false, Bool-cases, List, [], ◌∷◌, ◌++◌, arith,
  All, count, length, if◌then◌else◌, ltb, leb, ◌&&◌,
}
use mathlib.Core.List.{append-nil}
use hpv_c.Double.{Double, IsOrdered}
use hpv_c.Organizer.Sort.{bubble, bubbles, indices, sort_hosts}

module _ {D : Type 0} ⦃d : Double D⦄ (next_h : ℕ → D) where
  count-bubble : (v n : ℕ) (hosts : List ℕ) → count v (bubble next_h n hosts) ≡ count v hosts
  unfolding bubble
  count-bubble v zero hosts = refl
  count-bubble v (suc n) [] = refl
  count-bubble v (suc n) (x ∷ []) = refl
  count-bubble v (suc n) (x ∷ y ∷ hosts) =
      ground (arith, count-bubble v n (x ∷ hosts), count-bubble v n (y ∷ hosts))

  count-bubbles : (v n : ℕ) (hosts : List ℕ) → count v (bubbles next_h n hosts) ≡ count v hosts
  unfolding bubbles
  count-bubbles v zero hosts = refl
  count-bubbles v (suc n) hosts =
      count-bubbles v n (bubble next_h (suc n) hosts) ∙ count-bubble v (suc n) hosts

  -- `x` costs no more than `y`.
  abbrev pub NotAbove : ℕ → ℕ → Type 0
  NotAbove x y = d.lt (next_h y) (next_h x) ≡ false

  abbrev pub IsSorted : List ℕ → Type 0
  IsSorted [] = Unit
  IsSorted (x ∷ xs) = All (NotAbove x) xs × IsSorted xs

  module _ (laws : IsOrdered D) where
    -- A round of the inner loop over `front` moves an entry to its end that is not below the others.
    record Bubbled (P : ℕ → Type 0) (n : ℕ) (front back : List ℕ) : Type 0 where
      low : List ℕ
      top : ℕ
      result : bubble next_h n (front ++ back) ≡ low ++ top ∷ back
      size : length low ≡ n
      front_le : All (λ y. NotAbove y top) front
      low_le : All (λ y. NotAbove y top) low
      low_all : All P low
      top_all : P top

    bubble-Bubbled :
        (P : ℕ → Type 0) (n : ℕ) (front back : List ℕ)
        → length front ≡ suc n
        → All P front
        → Bubbled P n front back
    unfolding bubble
    bubble-Bubbled P n [] back e h = absurd (omega arith)
    bubble-Bubbled P zero (x ∷ []) back e h = record {
      low = [];
      top = x;
      result = refl;
      size = refl;
      front_le = (laws.lt_irrefl (next_h x), tt);
      low_le = tt;
      low_all = tt;
      top_all = h.0;
    }
    bubble-Bubbled P zero (x ∷ y ∷ front) back e h = absurd (omega arith)
    bubble-Bubbled P (suc n) (x ∷ []) back e h = absurd (omega arith)
    bubble-Bubbled P (suc n) (x ∷ y ∷ front) back e h =
        elim (Bool-cases (d.lt (next_h y) (next_h x))) [
          | inl swap ↦
              let b = bubble-Bubbled P n (x ∷ front) back (omega arith) (h.0, h.1.1) in
              let yx : NotAbove y x = ground (arith, laws.ge_total (next_h x) (next_h y)) in
              let yt : NotAbove y b.top =
                laws.ge_trans (next_h b.top) (next_h x) (next_h y) b.front_le.0 yx in
              record {
                low = y ∷ b.low;
                top = b.top;
                result = rw (swap, b.result);
                size = omega (arith, b.size);
                front_le = (b.front_le.0, (yt, b.front_le.1));
                low_le = (yt, b.low_le);
                low_all = (h.1.0, b.low_all);
                top_all = b.top_all;
              }
          | inr stay ↦
              let b = bubble-Bubbled P n (y ∷ front) back (omega arith) h.1 in
              let xt : NotAbove x b.top =
                laws.ge_trans (next_h b.top) (next_h y) (next_h x) b.front_le.0 stay in
              record {
                low = x ∷ b.low;
                top = b.top;
                result = rw (stay, b.result);
                size = omega (arith, b.size);
                front_le = (xt, b.front_le);
                low_le = (xt, b.low_le);
                low_all = (h.0, b.low_all);
                top_all = b.top_all;
              }
        ]

    below_cons :
        (x : ℕ) (back low : List ℕ)
        → All (λ y. NotAbove y x) low
        → All (λ y. All (NotAbove y) back) low
        → All (λ y. All (NotAbove y) (x ∷ back)) low
    below_cons x back [] a b = tt
    below_cons x back (y ∷ low) a b = ((a.0, b.0), below_cons x back low a.1 b.1)

    bubbles-IsSorted :
        (n : ℕ) (front back : List ℕ)
        → length front ≡ suc n
        → IsSorted back
        → All (λ y. All (NotAbove y) back) front
        → IsSorted (bubbles next_h n (front ++ back))
    unfolding bubbles
    bubbles-IsSorted n [] back e s h = absurd (omega arith)
    bubbles-IsSorted zero (x ∷ []) back e s h = (h.0, s)
    bubbles-IsSorted zero (x ∷ y ∷ front) back e s h = absurd (omega arith)
    bubbles-IsSorted (suc n) (x ∷ front) back e s h =
        let b = bubble-Bubbled (λ y. All (NotAbove y) back) (suc n) (x ∷ front) back e h in
        rw b.result (
          bubbles-IsSorted n b.low (b.top ∷ back) b.size (b.top_all, s)
            (below_cons b.top back b.low b.low_le b.low_all))

All-nil : (Q : ℕ → ℕ → Type 0) (xs : List ℕ) → All (λ y. All (Q y) []) xs
All-nil Q [] = tt
All-nil Q (x ∷ xs) = (tt, All-nil Q xs)

length-indices : (n i : ℕ) → length (indices n i) ≡ n
unfolding indices
length-indices zero i = refl
length-indices (suc n) i = omega (arith, length-indices n (i + 1))

count-indices : (v n i : ℕ) → count v (indices n i) ≡ (if leb i v && ltb v (i + n) then 1 else 0)
unfolding indices
count-indices v zero i = ground arith
count-indices v (suc n) i = ground (arith, count-indices v n (i + 1))

-- The sorted array holds every index below the number of hosts once, and nothing else.
pub count-sort_hosts :
    {D : Type 0} ⦃d : Double D⦄ (next_h : ℕ → D) (involved v : ℕ)
    → count v (sort_hosts next_h involved) ≡ (if ltb v involved then 1 else 0)
unfolding sort_hosts
count-sort_hosts next_h involved v =
    ground (
      arith,
      count-bubbles next_h v (involved - 1) (indices involved 0),
      count-indices v involved 0,
    )

-- If `<` is the order of numbers (no `nextH` is a NaN), no host stands after one of higher `nextH`
-- in the sorted array, which holds every index below the number of hosts once, and nothing else.
pub sort_hosts-IsSorted :
    {D : Type 0} ⦃d : Double D⦄ (next_h : ℕ → D) (involved : ℕ)
    → IsOrdered D
    → IsSorted next_h (sort_hosts next_h involved)
      × ((v : ℕ) → count v (sort_hosts next_h involved) ≡ (if ltb v involved then 1 else 0))
unfolding sort_hosts
sort_hosts-IsSorted next_h zero laws = (tt, count-sort_hosts next_h zero)
sort_hosts-IsSorted next_h (suc n) laws =
    let whole =
      bubbles-IsSorted next_h laws n (indices (suc n) 0) [] (length-indices (suc n) 0) tt
        (All-nil (NotAbove next_h) (indices (suc n) 0)) in
    let e : suc n - 1 ≡ n = omega arith in
    (rw e (rw append-nil at whole), count-sort_hosts next_h (suc n))

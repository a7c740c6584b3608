-- ===== src/Organizer/Candidate/Greatest.antt =====
-- The candidate of `organization_manager` is a VM of greatest H.
use hpv_c.Base.{
  ℕ, zero, suc, ◌+◌, ◌≡◌, refl, ap, ◌⊎◌, inl, inr, true, false, not, ◌&&◌, Bool-cases, Option, some,
  List, [], ◌∷◌, arith, get_elem?,
}
use hpv_c.Double.{Double, IsOrdered}
use hpv_c.Organizer.Candidate.{Candidate, is_last, find_candidate, candidate}

module _ {D : Type 0} ⦃d : Double D⦄ (laws : IsOrdered D) where
  lt_asymm : (a b : D) → d.lt a b ≡ true → d.lt b a ≡ false
  lt_asymm a b h = ground (arith, laws.ge_total a b)

  lt_trans : (a b c : D) → d.lt a b ≡ true → d.lt b c ≡ true → d.lt a c ≡ true
  lt_trans a b c h k = ground (arith, laws.ge_trans b a c, lt_asymm a b h)

  -- No VM but the last candidate has a greater H.
  abbrev pub IsGreatest : Option ℕ → List D → ℕ → Candidate D → Type 0
  IsGreatest last hs i r =
      (k : ℕ) (h : D)
      → get_elem? hs k ≡ some h
      → is_last last (i + k) ≡ false
      → d.lt r.current_h h ≡ false

  -- The candidate is a VM of the list, not the last one, and its H is above `c`'s.
  abbrev pub IsChosen : Option ℕ → List D → ℕ → Candidate D → Candidate D → Type 0
  IsChosen last hs i c r =
      (k : ℕ) × (r.index ≡ i + k)
      × (get_elem? hs k ≡ some r.current_h)
      × (is_last last (i + k) ≡ false)
      × (d.lt c.current_h r.current_h ≡ true)

  IsGreatest-cons :
      (last : Option ℕ) (h : D) (hs : List D) (i : ℕ) (r : Candidate D)
      → (is_last last i ≡ false → d.lt r.current_h h ≡ false)
      → IsGreatest last hs (i + 1) r
      → IsGreatest last (h ∷ hs) i r
  IsGreatest-cons last h hs i r first rest zero h' e free =
      let same : h ≡ h' = cc in
      let here : i + 0 ≡ i = omega arith in rw (← same) (first (rw here at free))
  IsGreatest-cons last h hs i r first rest (suc k) h' e free =
      let next : i + suc k ≡ i + 1 + k = omega arith in rest k h' e (rw next at free)

  IsChosen-better :
      (last : Option ℕ) (h : D) (hs : List D) (i : ℕ) (c r : Candidate D)
      → d.lt c.current_h h ≡ true
      → is_last last i ≡ false
      → (r ≡ record { current_h = h; index = i })
        ⊎ IsChosen last hs (i + 1) (record { current_h = h; index = i }) r
      → (r ≡ c) ⊎ IsChosen last (h ∷ hs) i c r
  IsChosen-better last h hs i c r above free (inl e) =
      let here : i + 0 ≡ i = omega arith in inr (0, rw (e, here), rw e, rw here free, rw e above)
  IsChosen-better last h hs i c r above free (inr (k, at, got, free_k, up)) =
      let next : i + suc k ≡ i + 1 + k = omega arith in
      inr (suc k, rw next at, got, rw next free_k, lt_trans c.current_h h r.current_h above up)

  IsChosen-kept :
      (last : Option ℕ) (h : D) (hs : List D) (i : ℕ) (c r : Candidate D)
      → (r ≡ c) ⊎ IsChosen last hs (i + 1) c r
      → (r ≡ c) ⊎ IsChosen last (h ∷ hs) i c r
  IsChosen-kept last h hs i c r (inl e) = inl e
  IsChosen-kept last h hs i c r (inr (k, at, got, free, up)) =
      let next : i + suc k ≡ i + 1 + k = omega arith in
      inr (suc k, rw next at, got, rw next free, up)

  -- What the loop over `hs`, from VM `i` and the candidate `c` on, ends with.
  record Found (last : Option ℕ) (hs : List D) (i : ℕ) (c r : Candidate D) : Type 0 where
    pub grows : d.lt r.current_h c.current_h ≡ false
    pub greatest : IsGreatest last hs i r
    pub chosen : (r ≡ c) ⊎ IsChosen last hs i c r

  find_candidate-Found :
      (last : Option ℕ) (hs : List D) (i : ℕ) (c : Candidate D)
      → Found last hs i c (find_candidate last hs i c)
  unfolding find_candidate
  find_candidate-Found last [] i c = record {
    grows = laws.lt_irrefl c.current_h;
    greatest = λ k h e f. cc;
    chosen = inl refl;
  }
  find_candidate-Found last (h ∷ hs) i c =
      elim (Bool-cases (d.lt c.current_h h && not (is_last last i))) [
        | inl better ↦
            let above : d.lt c.current_h h ≡ true = ground arith in
            let free : is_last last i ≡ false = ground arith in
            let c1 : Candidate D = record { current_h = h; index = i } in
            let f = find_candidate-Found last hs (i + 1) c1 in
            rw better (record {
              grows = laws.ge_trans _ h c.current_h f.grows (lt_asymm c.current_h h above);
              greatest =
                  IsGreatest-cons last h hs i (find_candidate last hs (i + 1) c1) (λ _. f.grows)
                    f.greatest;
              chosen = IsChosen-better last h hs i c _ above free f.chosen;
            })
        | inr kept ↦
            let f = find_candidate-Found last hs (i + 1) c in
            rw kept (record {
              grows = f.grows;
              greatest =
                  IsGreatest-cons last h hs i (find_candidate last hs (i + 1) c)
                    (λ free. laws.ge_trans _ c.current_h h f.grows (ground arith)) f.greatest;
              chosen = IsChosen-kept last h hs i c _ f.chosen;
            })
      ]

-- If `<` is the order of numbers (no H is a NaN): no VM but the last candidate has an H above the
-- candidate's, and either that value is 0 and the candidate is VM 0, because no other VM has an H
-- above 0, or the candidate is a VM with that H, which is above 0, and not the last candidate.
pub candidate-greatest :
    {D : Type 0} ⦃d : Double D⦄ (last : Option ℕ) (hs : List D)
    → IsOrdered D
    → let r = candidate last hs in
      ((k : ℕ) (h : D)
        → get_elem? hs k ≡ some h
        → is_last last k ≡ false
        → d.lt r.current_h h ≡ false)
      × (((r.current_h ≡ d.lit 0 0) × (r.index ≡ 0))
          ⊎ ((get_elem? hs r.index ≡ some r.current_h)
              × (is_last last r.index ≡ false)
              × (d.lt (d.lit 0 0) r.current_h ≡ true)))
unfolding candidate
candidate-greatest {D} ⦃d⦄ last hs laws =
    let start : Candidate D = record { current_h = d.lit 0 0; index = 0 } in
    let f = find_candidate-Found laws last hs 0 start in
    (
      λ k h e free. let from : 0 + k ≡ k = omega arith in f.greatest k h e (rw from free),
      elim f.chosen [
        | inl e ↦ inl (ap (λ c. c.current_h) e, ap (λ c. c.index) e)
        | inr (k, at, got, free, up) ↦
            let here : (find_candidate last hs 0 start).index ≡ k = omega arith in
            let from : 0 + k ≡ k = omega arith in inr (rw here got, rw here (rw from at free), up)
      ],
    )

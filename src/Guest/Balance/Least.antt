-- ===== src/Guest/Balance/Least.antt =====
-- The balancer visits every VM once and selects one of least marginal cost.
use hpv_c.Base.{
  ℕ, zero, suc, ◌+◌, ◌-◌, ◌*◌, ◌≤◌, ◌<◌, ◌≡◌, refl, ◌∙◌, ◌⊎◌, inl, inr, true, false, Bool-cases,
  some, List, arith, leb, lt→ltb, length, get_elem?, get_elem?-in, get_elem?_bound, if◌then◌else◌,
}
use hpv_c.Double.{Double, IsOrdered}
use hpv_c.Utility.{int_bound}
use hpv_c.Guest.Balance.{
  Load, LoadBalanceRequest, Balancer, Scan, marginal_cost, visit, scan, before_scan, assign_by,
  assign,
}

module _ {D V : Type 0} ⦃d : Double D⦄ (laws : IsOrdered D) (dbl_max : D) (cost : V → D)
    (jobs : V → ℕ) (vms : List V) (before : ℕ) where
  -- The VM that is selected, and what is kept of it: the one of before, or one that is cheaper.
  abbrev pub Selected : Scan D → Type 0
  Selected s =
      ((s.min_cost ≡ dbl_max) × (s.selected_vm_number ≡ before) × (s.new_load ≡ 0))
      ⊎ ((vm : V) × (get_elem? vms s.selected_vm_number ≡ some vm)
          × (s.min_cost ≡ cost vm)
          × (s.new_load ≡ jobs vm + 1))

  -- No VM that was seen is cheaper.
  pub record Best (seen : ℕ → Type 0) (s : Scan D) : Type 0 where
    pub least :
        (k : ℕ) (vm : V) → seen k → get_elem? vms k ≡ some vm → d.lt (cost vm) s.min_cost ≡ false
    pub selected : Selected s

  visit-Best :
      (seen seen' : ℕ → Type 0) (i : ℕ) (vm : V) (s : Scan D)
      → ((k : ℕ) → seen' k → seen k ⊎ (k ≡ i))
      → get_elem? vms i ≡ some vm
      → Best seen s
      → Best seen' (visit cost jobs i vm s)
  unfolding visit
  visit-Best seen seen' i vm s new got b = elim (Bool-cases (d.lt (cost vm) s.min_cost)) [
    | inl cheaper ↦ rw cheaper (record {
      least = λ k vm' in_seen at. elim (new k in_seen) [
        | inl old ↦
            laws.ge_trans _ s.min_cost _ (b.least k vm' old at)
              (ground (arith, laws.ge_total (cost vm) s.min_cost))
        | inr here ↦ let same : vm ≡ vm' = cc in rw (← same) (laws.lt_irrefl (cost vm))
      ];
      selected = inr (vm, got, refl, refl);
    })
    | inr not_cheaper ↦ rw not_cheaper (record {
      least = λ k vm' in_seen at. elim (new k in_seen) [
        | inl old ↦ b.least k vm' old at
        | inr here ↦ let same : vm ≡ vm' = cc in rw (← same) not_cheaper
      ];
      selected = b.selected;
    })
  ]

  -- A part of the loop that stays below the number of VMs.
  scan_part :
      (seen : ℕ → ℕ → Type 0)
      → ((i k : ℕ) → seen (i + 1) k → seen i k ⊎ (k ≡ i))
      → (part left i : ℕ) (s : Scan D) → i + part ≤ length vms
      → Best (seen i) s
      → (s' : Scan D) × (scan cost jobs vms (part + left) i s
          ≡ scan cost jobs vms left (i + part) s')
        × Best (seen (i + part)) s'
  unfolding scan
  scan_part seen next zero left i s le b =
      let here : i + 0 ≡ i = omega arith in
      let all : 0 + left ≡ left = omega arith in (s, rw (here, all) refl, rw here b)
  scan_part seen next (suc part) left i s le b =
      let in_vms : i < length vms = omega arith in
      let (vm, got) = get_elem?-in vms i in_vms in
      let b1 = visit-Best (seen i) (seen (i + 1)) i vm s (next i) got b in
      let (s', rest, b') =
        scan_part seen next part left (i + 1) (visit cost jobs i vm s) (omega arith) b1 in
      let at : i + suc part ≡ i + 1 + part = omega arith in
      let stay : leb (length vms) i ≡ false = ground arith in
      let count : suc part + left ≡ suc (part + left) = omega arith in
      (s', rw (at, count, scan, stay, got) rest, rw at b')

  -- At the end of the list the loop goes on at its start.
  scan_wrap :
      (left : ℕ) (s : Scan D)
      → 0 < length vms
      → scan cost jobs vms left (length vms) s ≡ scan cost jobs vms left 0 s
  unfolding scan
  scan_wrap zero s some_vm = refl
  scan_wrap (suc left) s some_vm =
      let over : leb (length vms) (length vms) ≡ true = ground arith in
      let start : leb (length vms) 0 ≡ false = ground arith in rw (scan, over, start) refl

  Best-weaken :
      (seen seen' : ℕ → Type 0) (s : Scan D)
      → ((k : ℕ) → seen' k → seen k)
      → Best seen s
      → Best seen' s
  Best-weaken seen seen' s sub b = record {
    least = λ k vm at. b.least k vm (sub k at);
    selected = b.selected;
  }

  scan_to :
      (seen : ℕ → ℕ → Type 0)
      → ((i k : ℕ) → seen (i + 1) k → seen i k ⊎ (k ≡ i))
      → (part left all i j : ℕ) (s : Scan D) → part + left ≡ all
      → i + part ≡ j
      → j ≤ length vms
      → Best (seen i) s
      → (s' : Scan D) × (scan cost jobs vms all i s ≡ scan cost jobs vms left j s')
        × Best (seen j) s'
  scan_to seen next part left all i j s total to_j le b =
      rw (← total, ← to_j) (scan_part seen next part left i s (omega arith) b)

  scan_all :
      (i : ℕ) (s : Scan D)
      → 0 < length vms
      → i ≤ length vms
      → Selected s
      → (s' : Scan D) × (scan cost jobs vms (length vms) i s ≡ some s')
        × Best (λ k. k < length vms) s'
  unfolding scan
  scan_all i s some_vm le sel =
      let first : ℕ → ℕ → Type 0 = λ j k. (i ≤ k) × (k < j) in
      let second : ℕ → ℕ → Type 0 = λ j k. ((i ≤ k) × (k < length vms)) ⊎ (k < j) in
      let (s1, run1, b1) =
        scan_to first (λ j k h. ground arith) (length vms - i) i (length vms) i (length vms) s
          (omega arith) (omega arith) (omega arith)
          (record {
            least = λ k vm in_seen at. absurd (omega (arith, in_seen.0, in_seen.1));
            selected = sel;
          }) in
      let (s2, run2, b2) =
        scan_to second (λ j k h. ground arith) i 0 i 0 i s1 (omega arith) (omega arith) le
          (Best-weaken (first (length vms)) (second 0) s1 (λ k h. ground arith) b1) in
      (
        s2,
        run1 ∙ scan_wrap i s1 some_vm ∙ run2,
        Best-weaken (second i) (λ k. k < length vms) s2 (λ k h. ground arith) b2,
      )

-- The balancer's answer: it keeps the VM of before when every VM costs DBL_MAX or more, and else
-- selects a VM of least cost. The limit doubles when the VM's new load reaches it.
pub record AssignedBy {D V : Type 0} ⦃d : Double D⦄ (dbl_max : D) (cost : ℕ → V → D) (jobs : V → ℕ)
    (vms : List V) (b b' : Balancer) : Type 0 where
  pub in_vms : b'.selected_vm_number < length vms
  pub choice :
      ((b' ≡ b)
        × ((k : ℕ) (vm : V)
            → get_elem? vms k ≡ some vm
            → d.lt (cost b.max_guest_job vm) dbl_max ≡ false))
      ⊎ ((vm : V) × (get_elem? vms b'.selected_vm_number ≡ some vm)
          × ((k : ℕ) (vm' : V)
              → get_elem? vms k ≡ some vm'
              → d.lt (cost b.max_guest_job vm') (cost b.max_guest_job vm) ≡ false)
          × (b'.max_guest_job ≡ (
              if leb b.max_guest_job (jobs vm + 1) then b.max_guest_job * 2 else b.max_guest_job)))

module _ {D V : Type 0} ⦃d : Double D⦄ (dbl_max : D) (cost : ℕ → V → D) (jobs : V → ℕ)
    (vms : List V) (b : Balancer) (s : Scan D) (laws : IsOrdered D) where
  -- What the balancer makes of the end of its loop.
  answer :
      b.selected_vm_number < length vms
      → 0 < b.max_guest_job
      → b.max_guest_job * 2 < int_bound
      → scan
          (cost b.max_guest_job)
          jobs
          vms
          (length vms)
          (b.selected_vm_number + 1)
          (before_scan dbl_max b)
        ≡ some s
      → Best laws dbl_max
          (cost b.max_guest_job)
          jobs
          vms
          b.selected_vm_number
          (λ k. k < length vms)
          s
      → (b' : Balancer) × (assign_by cost jobs dbl_max vms b ≡ some b')
        × AssignedBy dbl_max cost jobs vms b b'
  unfolding assign_by
  answer in_vms limit room run best = elim best.selected [
    | inl (cost, same, load) ↦
        let stay : leb b.max_guest_job 0 ≡ false = ground arith in
        (
          b,
          rw (run, load, stay, same) refl,
          record {
            in_vms = in_vms;
            choice =
                inl (refl, λ k vm at. rw cost at (best.least k vm (get_elem?_bound vms k at) at));
          },
        )
    | inr (vm, got, cost, load) ↦ (
      record {
        max_guest_job =
            if leb b.max_guest_job (jobs vm + 1) then b.max_guest_job * 2 else b.max_guest_job;
        selected_vm_number = s.selected_vm_number;
      },
      elim (Bool-cases (leb b.max_guest_job (jobs vm + 1))) [
        | inl full ↦ rw (run, load, full, lt→ltb (b.max_guest_job * 2) int_bound room) refl
        | inr free ↦ rw (run, load, free) refl
      ],
      record {
        in_vms = get_elem?_bound vms s.selected_vm_number got;
        choice = inr (
          vm,
          got,
          λ k vm' at. rw cost at (best.least k vm' (get_elem?_bound vms k at) at),
          refl,
        );
      },
    )
  ]

-- The same for any cost.
pub assign_by-Assigned :
    {D V : Type 0} ⦃d : Double D⦄ (cost : ℕ → V → D) (jobs : V → ℕ) (dbl_max : D) (vms : List V)
    (b : Balancer)
    → IsOrdered D
    → b.selected_vm_number < length vms
    → 0 < b.max_guest_job
    → b.max_guest_job * 2 < int_bound
    → (b' : Balancer) × (assign_by cost jobs dbl_max vms b ≡ some b')
      × AssignedBy dbl_max cost jobs vms b b'
assign_by-Assigned cost jobs dbl_max vms b laws in_vms limit room =
    let (s, run, best) =
      scan_all laws dbl_max (cost b.max_guest_job) jobs vms b.selected_vm_number
        (b.selected_vm_number + 1) (before_scan dbl_max b) (omega arith) (omega arith)
        (inl (refl, refl, refl)) in
    answer dbl_max cost jobs vms b s laws in_vms limit room run best

abbrev pub Assigned :
    {D : Type 0} ⦃d : Double D⦄
    → D
    → List (Load D)
    → LoadBalanceRequest D
    → Balancer
    → Balancer
    → Type 0
Assigned dbl_max vms request b b' =
    AssignedBy dbl_max (λ max. marginal_cost vms max request) (λ vm. vm.jobs) vms b b'

-- If `<` is the order of numbers (no cost is a NaN), there are VMs, the VM selected before exists
-- and the limit is above 0 and can double in an int, then a request is answered without a fault by
-- a VM that exists: by the VM of before, with the limit unchanged, when no VM costs less than
-- DBL_MAX, and else by a VM that no VM undercuts, with the limit doubled just when the load of that
-- VM and the new process reach it.
pub assign-Assigned :
    {D : Type 0} ⦃d : Double D⦄ (dbl_max : D) (vms : List (Load D)) (request : LoadBalanceRequest D)
    (b : Balancer)
    → IsOrdered D
    → b.selected_vm_number < length vms
    → 0 < b.max_guest_job
    → b.max_guest_job * 2 < int_bound
    → (b' : Balancer) × (assign dbl_max vms request b ≡ some b') × Assigned dbl_max vms request b b'
unfolding assign
assign-Assigned dbl_max vms request b laws in_vms limit room =
    assign_by-Assigned (λ max. marginal_cost vms max request) (λ vm. vm.jobs) dbl_max vms b laws
      in_vms limit room

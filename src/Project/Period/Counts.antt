-- ===== src/Project/Period/Counts.antt =====
-- What the periods leave as it was.
use hpv_c.Base.{
  ℕ, zero, suc, ◌+◌, ◌*◌, ◌%◌, ◌≤◌, ◌≡◌, refl, ap, sym, ◌∙◌, inl, inr, Bool-cases, Option-cases,
  some, List, [], ◌∷◌, arith, ltb, ◌==◌, length, length-set, set, get_elem?-set, get_elem?_bound,
  get_elem?, if◌then◌else◌, >>=-eq-some, require,
}
use hpv_c.Double.{Double}
use hpv_c.Project.Pool.{GuestVm, VmPlacement, Pool}
use hpv_c.Project.Place.{place_vm}
use hpv_c.Project.Place.Counts.{on_pm, on_pm-set, IsCounted}
use hpv_c.Project.Place.Laws.{place_vm_outcome}
use hpv_c.Project.Policy.{Bounds, Selection, select}
use hpv_c.Project.Period.{
  Event, draw, change, change_load, place_selected, visit_host, visit_hosts, period, step, periods,
}

module _ {D : Type 0} where
  -- After some visits, of which each moves one VM at most.
  pub record After (visits : ℕ) (p p' : Pool D) : Type 0 where
    pub counted : IsCounted p'.infos p'.vms
    pub vms : length p'.vms ≡ length p.vms
    pub moved : p.migration_count ≤ p'.migration_count
    pub moves : p'.migration_count ≤ p.migration_count + visits

  After-After : (a b n : ℕ) (p q r : Pool D) → a + b ≡ n → After a p q → After b q r → After n p r
  After-After a b n p q r sum first later = record {
    counted = later.counted;
    vms = later.vms ∙ first.vms;
    moved = omega (arith, first.moved, later.moved);
    moves = omega (arith, first.moves, later.moves);
  }

  After-none : (n : ℕ) (p : Pool D) → IsCounted p.infos p.vms → After n p p
  After-none n p c = record { counted = c; vms = refl; moved = omega arith; moves = omega arith }

  place_vm-After :
      (placement : VmPlacement) (p p' : Pool D)
      → IsCounted p.infos p.vms
      → place_vm placement p ≡ some p'
      → After 1 p p'
  place_vm-After placement p p' c h =
      let (c', result) = place_vm_outcome placement p p' c h in
      elim result [
        | inl (same, full) ↦ rw same (After-none 1 p c)
        | inr moved ↦ record {
          counted = c';
          vms =
              rw moved.vms
                (length-set p.vms placement.vm (record moved.vm { pm = placement.target_pm }));
          moved = omega (arith, moved.count);
          moves = omega (arith, moved.count);
        }
      ]

  on_pm-set_same :
      (h v : ℕ) (vms : List (GuestVm D)) (old new : GuestVm D)
      → get_elem? vms v ≡ some old
      → new.pm ≡ old.pm
      → on_pm h (set vms v new) ≡ on_pm h vms
  on_pm-set_same h v vms old new got same =
      let one = λ (x : ℕ). if x == h then suc zero else zero in
      let home = ap one same in omega (arith, on_pm-set h v vms old new got, home)

  change_load-After :
      (v : ℕ) (mem net : D) (jobs n : ℕ) (p p' : Pool D)
      → IsCounted p.infos p.vms
      → change_load v mem net jobs p ≡ some p'
      → After n p p'
  unfolding change_load
  change_load-After v mem net jobs n p p' c h =
      let (vm, got, done) = >>=-eq-some (get_elem? p.vms v) _ h in
      let vm' = record vm { mem = mem; net = net; jobs = jobs } in
      let q : Pool D = record p { vms = set p.vms v vm' } in
      let same : q ≡ p' = cc in
      rw (← same) (record {
        counted = record {
          counts = λ k info at. rw (on_pm-set_same k v p.vms vm vm' got refl) (c.counts k info at);
          homes = λ k x at. elim (Bool-cases (v == k)) [
            | inl here ↦
                let it : x ≡ vm' =
                  cc (rw here at (get_elem?-set p.vms v k vm' (get_elem?_bound p.vms v got)), at) in
                rw it (c.homes v vm got)
            | inr other ↦
                c.homes k x (
                  sym (rw other at (get_elem?-set p.vms v k vm' (get_elem?_bound p.vms v got)))
                  ∙ at)
          ];
        };
        vms = length-set p.vms v vm';
        moved = omega arith;
        moves = omega arith;
      })

  abbrev pub draws : Event D → ℕ
  draws (draw random) = 1
  draws (change v mem net jobs) = 0

  -- How many periods there are.
  abbrev pub drawn : List (Event D) → ℕ
  drawn [] = 0
  drawn (event ∷ events) = draws event + drawn events

module _ {D : Type 0} ⦃d : Double D⦄ (b : Bounds D) where
  place_selected-After :
      (s : Selection D) (p p' : Pool D)
      → IsCounted p.infos p.vms
      → place_selected b s p ≡ some p'
      → After 1 p p'
  unfolding place_selected
  place_selected-After s p p' c h =
      let q : Pool D = record p { migration_decision_count = s.decisions } in
      elim (Option-cases s.placement) [
        | inl idle ↦
            let same : q ≡ p' = cc (rw idle at h) in
            rw (← same)
              (record { counted = c; vms = refl; moved = omega arith; moves = omega arith })
        | inr (placement, chosen) ↦
            let a = place_vm-After placement q p' c (rw chosen at h) in
            record { counted = a.counted; vms = a.vms; moved = a.moved; moves = a.moves }
      ]

  visit_host-After :
      (m : ℕ) (p p' : Pool D) → IsCounted p.infos p.vms → visit_host b m p ≡ some p' → After 1 p p'
  unfolding visit_host
  visit_host-After m p p' c h =
      let (s, chosen, placed) = >>=-eq-some (select b p m) _ h in
      place_selected-After s p p' c placed

  visit_hosts-After :
      (left m : ℕ) (p p' : Pool D)
      → IsCounted p.infos p.vms
      → visit_hosts b left m p ≡ some p'
      → After left p p'
  unfolding visit_hosts
  visit_hosts-After zero m p p' c h = let same : p ≡ p' = cc in rw (← same) (After-none 0 p c)
  visit_hosts-After (suc left) m p p' c h =
      let m' = if m == b.host + b.involved then b.host else m in
      let (q, visited, rest) = >>=-eq-some (visit_host b m' p) _ h in
      let a = visit_host-After m' p q c visited in
      After-After 1 left (suc left) p q p' (omega arith) a
        (visit_hosts-After left (m' + 1) q p' a.counted rest)

  period-After :
      (random : ℕ) (p p' : Pool D)
      → IsCounted p.infos p.vms
      → period b random p ≡ some p'
      → After b.involved p p'
  unfolding period
  period-After random p p' c h =
      let (u, some_hosts, visited) = >>=-eq-some (require (ltb 0 b.involved)) _ h in
      visit_hosts-After b.involved (b.host + random % b.involved) p p' c visited

  step-After :
      (event : Event D) (p p' : Pool D)
      → IsCounted p.infos p.vms
      → step b event p ≡ some p'
      → After (draws event * b.involved) p p'
  unfolding step
  step-After (draw random) p p' c h =
      let one : b.involved ≡ 1 * b.involved = omega arith in
      rw one at (period-After random p p' c h)
  step-After (change v mem net jobs) p p' c h = change_load-After v mem net jobs _ p p' c h

  -- From a pool whose counts are right, periods that do not fault, whatever `rand` gives, however many
  -- there are, and whatever loads the processes put on the VMs between them, leave right counts: each
  -- host counts the VMs that run on it, 5 at most. No VM is lost, and each period counts one migration
  -- at most for each host of the cluster.
  pub periods-After :
      (events : List (Event D)) (p p' : Pool D)
      → IsCounted p.infos p.vms
      → periods b events p ≡ some p'
      → After (drawn events * b.involved) p p'
  unfolding periods
  periods-After [] p p' c h =
      let same : p ≡ p' = cc in rw (← same) (After-none (0 * b.involved) p c)
  periods-After (event ∷ events) p p' c h =
      let (q, done, rest) = >>=-eq-some (step b event p) _ h in
      let a = step-After event p q c done in
      After-After (draws event * b.involved) (drawn events * b.involved)
        ((draws event + drawn events) * b.involved) p q p' (grind arith) a
        (periods-After events q p' a.counted rest)

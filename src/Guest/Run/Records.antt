-- ===== src/Guest/Run/Records.antt =====
-- The entries of `slow_down` in the run of the processes.
use hpv_c.Base.{
  subst, none, ℕ, zero, suc, ◌<◌, ◌≡◌, refl, sym, ◌∙◌, inl, inr, ◌⊎◌, true, Bool-cases, some, List,
  [], ◌∷◌, ◌++◌, ◌+◌, All, All-get, All-without, length-append, get_elem?_bound,
  get_elem?-append_one, arith, ◌==◌, length, set, store, get_elem?, get_elem?-set, without, ltb,
  ap_some, >>=-eq-some, require,
}
use hpv_c.Double.{Double}
use hpv_c.Placement.Launch.{SlowDown}
use hpv_c.Guest.Balance.{assign}
use hpv_c.Guest.Tasks.{
  Draw, ProcessArgv, Guest, Setup, need_of, argv_of, draw_of, request_of, create_task, finish_task,
}
use hpv_c.Guest.Run.{Simulation, Step, creates, finishes, closes, Reached, starts, steps}

-- A process of the sequence number runs.
abbrev pub Runs : ℕ → List ProcessArgv → Type 0
Runs i [] = ⊥
Runs i (a ∷ rest) = (a.process_sequence ≡ i) ⊎ Runs i rest

Runs-without :
    (i q : ℕ) (running : List ProcessArgv) {a : ProcessArgv}
    → get_elem? running q ≡ some a
    → Runs i running
    → (a.process_sequence ≡ i) ⊎ Runs i (without q running)
Runs-without i q [] at runs = inr runs
Runs-without i zero (x ∷ rest) {a} at runs = let same : x ≡ a = cc in rw (← same) runs
Runs-without i (suc q) (x ∷ rest) at (inl e) = inr (inl e)
Runs-without i (suc q) (x ∷ rest) at (inr runs) = elim (Runs-without i q rest at runs) [
  | inl e ↦ inl e
  | inr still ↦ inr (inr still)
]

stored_place :
    {A : Type 0} (xs : List A) (p : ℕ) (a : A) {ys : List A}
    → store xs p a ≡ some ys
    → (p < length xs) × (set xs p a ≡ ys)
stored_place xs p a made = elim (Bool-cases (ltb p (length xs))) [
  | inl lt ↦ (ground arith, ap_some (λ l. l) (rw lt at made))
  | inr ge ↦ let fault : none ≡ some _ = rw ge at made in absurd (cc fault)
]

module _ {D : Type 0} ⦃d : Double D⦄ (s : Setup D) where
  unfoldable pub next_draws : {m m' : Simulation D} → Step s m m' → List Draw → List Draw
  next_draws (creates x left made) ds = ds ++ x ∷ []
  next_draws (finishes q actual made) ds = ds
  next_draws (closes done left got) ds = ds

  -- What was drawn for the processes of the run, in the order of their creation.
  unfoldable pub draws : {m : Simulation D} → Reached s m → List Draw
  unfolding next_draws
  draws starts = []
  draws (steps r st) = next_draws st (draws r)

  create_task-kept :
      (i : ℕ) (x : Draw) (g : Guest D) {g' : Guest D}
      → create_task s i x g ≡ some g'
      → (g'.slow_down ≡ g.slow_down)
        × (a : ProcessArgv) × (a.process_sequence ≡ i)
        × ((need_of s (draw_of s a)).expected_time ≡ (need_of s x).expected_time)
        × (g'.running ≡ a ∷ g.running)
  unfolding create_task
  create_task-kept i x g made =
      let (b, answered, rest) =
        >>=-eq-some (assign s.dbl_max g.vms (request_of s x) g.balancer) _ made in
      let (_, some_vm, more) = >>=-eq-some (require (ltb 0 s.number_of_vms)) _ rest in
      let (host, got, done) = >>=-eq-some (get_elem? g.vms b.selected_vm_number) _ more in
      (
        sym (ap_some (λ u. u.slow_down) done),
        argv_of s i x b.selected_vm_number,
        refl,
        refl,
        sym (ap_some (λ u. u.running) done),
      )

  -- A process has the needs of the draw of its number.
  abbrev pub IsOwn : List Draw → ProcessArgv → Type 0
  IsOwn ds a =
      (x : Draw) × (get_elem? ds a.process_sequence ≡ some x)
      × ((need_of s (draw_of s a)).expected_time ≡ (need_of s x).expected_time)

  -- The entry of a process that has ended: its expected time is that of the needs of what was drawn
  -- for it.
  pub record Recorded (ds : List Draw) (slow_down : List (SlowDown D)) (i : ℕ) : Type 0 where
    pub entry : SlowDown D
    pub there : get_elem? slow_down i ≡ some entry
    pub drawn : Draw
    pub is_drawn : get_elem? ds i ≡ some drawn
    pub expected : entry.expected_time ≡ (need_of s drawn).expected_time

  -- Each process that was created runs or has its entry.
  pub record IsKept (ds : List Draw) (m : Simulation D) : Type 0 where
    pub number : length ds ≡ m.created
    pub own : All (IsOwn ds) m.guest.running
    pub kept : (i : ℕ) → i < m.created → Runs i m.guest.running ⊎ Recorded ds m.guest.slow_down i

  drawn_before :
      (ds : List Draw) (x : Draw) (i : ℕ) {y : Draw}
      → get_elem? ds i ≡ some y
      → get_elem? (ds ++ x ∷ []) i ≡ some y
  drawn_before ds x i got = ground (arith, get_elem?_bound ds i got, get_elem?-append_one ds x i)

  IsOwn-before :
      (ds : List Draw) (x : Draw) (running : List ProcessArgv)
      → All (IsOwn ds) running
      → All (IsOwn (ds ++ x ∷ [])) running
  IsOwn-before ds x [] own = tt
  IsOwn-before ds x (a ∷ rest) ((y, got, same), own) =
      ((y, drawn_before ds x a.process_sequence got, same), IsOwn-before ds x rest own)

  Recorded-before :
      (ds : List Draw) (x : Draw) (slow_down : List (SlowDown D)) (i : ℕ)
      → Recorded ds slow_down i
      → Recorded (ds ++ x ∷ []) slow_down i
  Recorded-before ds x slow_down i k = record {
    entry = k.entry;
    there = k.there;
    drawn = k.drawn;
    is_drawn = drawn_before ds x i k.is_drawn;
    expected = k.expected;
  }

  -- The entry at `p` is that of the draw `p`.
  module _ (ds : List Draw) (slow_down : List (SlowDown D)) (p : ℕ) (entry : SlowDown D) (x : Draw)
      (lt : p < length slow_down) (got : get_elem? ds p ≡ some x)
      (same : entry.expected_time ≡ (need_of s x).expected_time) where
    record_own : Recorded ds (set slow_down p entry) p
    record_own =
        let here : (p == p) ≡ true = ground arith in
        record {
          entry = entry;
          there = rw here at (get_elem?-set slow_down p p entry lt);
          drawn = x;
          is_drawn = got;
          expected = same;
        }

    record_set : (i : ℕ) → Recorded ds slow_down i → Recorded ds (set slow_down p entry) i
    record_set i kept =
        let at = get_elem?-set slow_down p i entry lt in
        elim (Bool-cases (p == i)) [
          | inl e ↦
              let place : p ≡ i = ground arith in
              subst (λ k. Recorded ds (set slow_down p entry) k) place record_own
          | inr ne ↦ record {
            entry = kept.entry;
            there = rw ne at at ∙ kept.there;
            drawn = kept.drawn;
            is_drawn = kept.is_drawn;
            expected = kept.expected;
          }
        ]

  finish_task-kept :
      (ds : List Draw) (q : ℕ) (actual : D) (g : Guest D) {g' : Guest D}
      → finish_task s q actual g ≡ some g'
      → All (IsOwn ds) g.running
      → All (IsOwn ds) g'.running
        × ((i : ℕ)
            → Runs i g.running ⊎ Recorded ds g.slow_down i
            → Runs i g'.running ⊎ Recorded ds g'.slow_down i)
  unfolding finish_task
  finish_task-kept ds q actual g {g'} made own =
      let (a, at, rest) = >>=-eq-some (get_elem? g.running q) _ made in
      let (x, got_x, same) = All-get (IsOwn ds) g.running q own at in
      let p = a.process_sequence in
      let entry : SlowDown D = record {
        actual_time = actual;
        expected_time = (need_of s (draw_of s a)).expected_time;
      } in
      let (slow_down, stored, more) = >>=-eq-some (store g.slow_down p entry) _ rest in
      let (host, got, done) = >>=-eq-some (get_elem? g.vms a.home_vm) _ more in
      let (place, written) = stored_place g.slow_down p entry stored in
      let records : set g.slow_down p entry ≡ g'.slow_down =
        written ∙ ap_some (λ u. u.slow_down) done in
      let left : without q g.running ≡ g'.running = ap_some (λ u. u.running) done in
      (
        subst (All (IsOwn ds)) left (All-without (IsOwn ds) q g.running own),
        λ i kept. elim kept [
          | inl runs ↦ elim (Runs-without i q g.running at runs) [
            | inl e ↦
                let mine = record_own ds g.slow_down p entry x place got_x same in
                inr (
                  subst (λ k. Recorded ds g'.slow_down k) e
                    (subst (λ l. Recorded ds l p) records mine))
            | inr still ↦ inl (subst (Runs i) left still)
          ]
          | inr known ↦ inr (
              subst (λ l. Recorded ds l i) records
                (record_set ds g.slow_down p entry x place got_x same i known))
        ],
      )

  create_task-IsKept :
      (ds : List Draw) (m : Simulation D) (x : Draw) {g : Guest D}
      → create_task s m.created x m.guest ≡ some g
      → IsKept ds m
      → IsKept (ds ++ x ∷ []) (record m { guest = g; created = m.created + 1 })
  create_task-IsKept ds m x {g} made k =
      let (slow_down, a, number, same, running) = create_task-kept m.created x m.guest made in
      let last : get_elem? (ds ++ x ∷ []) a.process_sequence ≡ some x =
        ground (arith, k.number, number, get_elem?-append_one ds x a.process_sequence) in
      record {
        number = omega (arith, length-append ds (x ∷ []), k.number);
        own =
            subst (All (IsOwn (ds ++ x ∷ []))) (sym running)
              ((x, last, same), IsOwn-before ds x m.guest.running k.own);
        kept = λ i lt. elim (Bool-cases (i == m.created)) [
          | inl e ↦
              let mine : a.process_sequence ≡ i = ground (arith, number) in
              inl (subst (Runs i) (sym running) (inl mine))
          | inr ne ↦ elim (k.kept i (ground arith)) [
            | inl runs ↦ inl (subst (Runs i) (sym running) (inr runs))
            | inr known ↦
                let before = Recorded-before ds x m.guest.slow_down i known in
                inr (subst (λ l. Recorded (ds ++ x ∷ []) l i) (sym slow_down) before)
          ]
        ];
      }

  Step-IsKept :
      (ds : List Draw) {m m' : Simulation D} (st : Step s m m')
      → IsKept ds m
      → IsKept (next_draws st ds) m'
  unfolding next_draws
  Step-IsKept ds {m} (creates x left made) k = create_task-IsKept ds m x made k
  Step-IsKept ds {m} (finishes q actual made) k =
      let (own, kept) = finish_task-kept ds q actual m.guest made k.own in
      record { number = k.number; own = own; kept = λ i lt. kept i (k.kept i lt) }
  Step-IsKept ds (closes done left got) k = record { number = k.number; own = k.own; kept = k.kept }

  pub Reached-IsKept : {m : Simulation D} (r : Reached s m) → IsKept (draws r) m
  unfolding draws
  Reached-IsKept starts = record { number = refl; own = tt; kept = λ i lt. absurd (omega arith) }
  Reached-IsKept (steps r st) = Step-IsKept (draws r) st (Reached-IsKept r)

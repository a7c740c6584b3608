-- ===== src/Organizer/Manager/Choice.antt =====
-- The last loop of a period: which host it takes, and what the migration changes.
use hpv_c.Base.{
  ℕ, ◌+◌, ◌≤◌, ◌<◌, ◌≡◌, refl, ap, ◌⊎◌, inl, inr, true, Bool-cases, some, List, [], ◌∷◌, ◌++◌,
  arith, All, length, get_elem?, get_elem?-in, get_elem?_bound, lt→ltb, ◌==◌, if◌then◌else◌,
}
use hpv_c.Double.{Double, sub_float}
use hpv_c.Utility.{int_bound}
use hpv_c.Placement.Platform.{DataOfPm, Vm, NamesDiffer, pm_capacity}
use hpv_c.Placement.Invariant.{IsPlaced, owner}
use hpv_c.Placement.Migrate.Removal.{find_pm_home}
use hpv_c.Placement.Migrate.Laws.{owner_some, migrate_vm-IsPlaced}
use hpv_c.Organizer.Manager.{Settings, Organizer, cost_at, is_worth, report, migrate, choose}

module _ {D : Type 0} ⦃d : Double D⦄ (s : Settings D) where
  -- `o'` is `o` with one VM moved to the host `t`.
  pub record IsMoved (vm t : ℕ) (o o' : Organizer D) : Type 0 where
    pub placed : IsPlaced s.platform s.involved o'.cluster
    pub owners : (v : ℕ) → owner o'.cluster v ≡ (if vm == v then some t else owner o.cluster v)
    pub vms : length o'.cluster.vm_list ≡ length o.cluster.vm_list
    pub counted : o'.migrate_counter ≡ o.migrate_counter + 1
    pub last : o'.last ≡ some vm
    pub measured : o'.measured ≡ o.measured
    pub tmp : o'.tmp ≡ o.tmp

  -- The gain at the host `t` is above 5.5 and it has room.
  abbrev pub IsWorth : D → List D → Organizer D → ℕ → Type 0
  IsWorth current_h costs o t =
      (pm : DataOfPm) × (get_elem? o.cluster.data_of_pms t ≡ some pm)
      × (pm.number_of_vms < pm_capacity)
      × (d.lt (d.lit 55 1) (sub_float current_h (cost_at s costs t)) ≡ true)

  module _ (o : Organizer D) (vm h : ℕ) (diff : NamesDiffer s.platform)
      (hosts : s.involved ≤ s.platform.number_of_hosts)
      (placed : IsPlaced s.platform s.involved o.cluster) (own : owner o.cluster vm ≡ some h)
      (few : o.migrate_counter + 1 < int_bound) where
    report_total :
        (handle : Vm D) (t : ℕ)
        → get_elem? o.cluster.vm_list vm ≡ some handle
        → report s handle t o.cluster ≡ some tt
    unfolding report
    report_total handle t at =
        let home : handle.pm ≡ h = ground arith in
        let lt : h < s.involved = placed.in_range vm h own in
        rw
          (
            home,
            find_pm_home s.platform h s.involved 0 s.involved o.cluster.data_of_pms diff
                placed.named placed.pms (omega arith) (omega arith) lt,
          )
          (ground arith)

    migrate_total :
        (t : ℕ) (pm : DataOfPm)
        → get_elem? o.cluster.data_of_pms t ≡ some pm
        → pm.number_of_vms < pm_capacity
        → (o' : Organizer D) × (migrate s vm t o ≡ some o') × IsMoved vm t o o'
    unfolding migrate
    migrate_total t pm got room =
        let (handle, at, home) = owner_some (get_elem? o.cluster.vm_list vm) own in
        let (c, done, placed', owners, vms) =
          migrate_vm-IsPlaced s.platform s.involved o.cluster vm t h pm diff hosts placed own got
            room in
        let t_lt : t < s.involved = rw (← placed.pms) (get_elem?_bound _ t got) in
        (
          record o { cluster = c; last = some vm; migrate_counter = o.migrate_counter + 1 },
          rw (
            lt→ltb t s.platform.number_of_hosts (omega arith),
            at,
            report_total handle t at,
            done,
            lt→ltb (o.migrate_counter + 1) int_bound few,
          ),
          record {
            placed = placed';
            owners = owners;
            vms = vms;
            counted = refl;
            last = refl;
            measured = refl;
            tmp = refl;
          },
        )

    module _ (current_h : D) (costs : List D) where
      -- What the loop over `order` ends with: no host is worth it, or the first that is has the VM.
      abbrev pub Chosen : List ℕ → Organizer D → Type 0
      Chosen order o' =
          ((o' ≡ o) × All (λ t. ¬ IsWorth current_h costs o t) order)
          ⊎ ((before : List ℕ) × (t : ℕ) × (after : List ℕ) × (order ≡ before ++ t ∷ after)
              × All (λ q. ¬ IsWorth current_h costs o q) before
              × IsWorth current_h costs o t
              × IsMoved vm t o o')

      Chosen-later :
          (t : ℕ) (order : List ℕ) (o' : Organizer D)
          → ¬ IsWorth current_h costs o t
          → Chosen order o'
          → Chosen (t ∷ order) o'
      Chosen-later t order o' not_worth (inl (same, none_worth)) =
          inl (same, (not_worth, none_worth))
      Chosen-later t order o' not_worth (inr (before, q, after, split, skipped, worth, moved)) =
          inr (t ∷ before, q, after, ap (◌∷◌ t) split, (not_worth, skipped), worth, moved)

      pub choose-Chosen :
          (order : List ℕ)
          → All (λ t. t < s.involved) order
          → (o' : Organizer D) × (choose s vm current_h costs order o ≡ some o') × Chosen order o'
      unfolding choose
      choose-Chosen [] b = (o, refl, inl (refl, tt))
      choose-Chosen (t ∷ order) b =
          let (pm, got) = get_elem?-in o.cluster.data_of_pms t (rw placed.pms b.0) in
          let (handle, at, home) = owner_some (get_elem? o.cluster.vm_list vm) own in
          elim (Bool-cases (is_worth s current_h pm (cost_at s costs t))) [
            | inl worth ↦
                let room : pm.number_of_vms < pm_capacity = ground arith in
                let (o', done, moved) = migrate_total t pm got room in
                (
                  o',
                  rw (got, at, worth) done,
                  inr ([], t, order, refl, tt, (pm, got, room, ground arith), moved),
                )
            | inr poor ↦
                let (o', done, chosen) = choose-Chosen order b.1 in
                (
                  o',
                  rw (got, at, poor) done,
                  Chosen-later t order o' (λ w. ground (arith, w)) chosen,
                )
          ]

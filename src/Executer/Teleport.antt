-- ===== src/Executer/Teleport.antt =====
-- What a teleport hands over from host to host, and when the array of metadata has room.
use hpv_c.Base.{
  ℕ, suc, ◌+◌, ◌%◌, ◌≤◌, ◌≡◌, refl, inl, inr, true, false, Bool-cases, Option-cases, Text,
  same_text_self, str_equal, Option, none, some, List, [], ◌∷◌, ◌++◌, arith, ltb, ◌==◌, length, set,
  length-append, get_elem?, get_elem?-append_one, >>=-eq-some,
}
use hpv_c.Executer.{
  VmMetadata, Metadatas, TeleportMetadata, add_metadata, find_metadata, start_message, started_here,
  arrive, leave_found, leave, home_of, teleport_target,
}

-- The array is allocated for a multiple of 5 items, and for those that it has.
pub record HasRoom (m : Metadatas) : Type 0 where
  pub fives : m.room % 5 ≡ 0
  pub fits : length m.items ≤ m.room

-- An array that is allocated for a multiple of 5 items, and for those that it has, takes one more
-- item at its end without a fault and stays so.
pub add_metadata-HasRoom :
    (vm_md : VmMetadata) (m : Metadatas)
    → HasRoom m
    → (m' : Metadatas) × (add_metadata vm_md m ≡ some m')
      × (m'.items ≡ m.items ++ vm_md ∷ [])
      × HasRoom m'
unfolding add_metadata
add_metadata-HasRoom vm_md m h =
    let more = length-append m.items (vm_md ∷ []) in
    elim (Bool-cases (length m.items % 5 == 0)) [
      | inl full ↦
          let fits : ltb (length m.items) (length m.items + 5) ≡ true = ground arith in
          (
            record { items = m.items ++ vm_md ∷ []; room = length m.items + 5 },
            rw (full, fits) refl,
            refl,
            record { fives = ground arith; fits = omega (arith, more) },
          )
      | inr room ↦
          let fits : ltb (length m.items) m.room ≡ true = ground (arith, h.fives, h.fits) in
          (
            record { items = m.items ++ vm_md ∷ []; room = m.room },
            rw (room, fits) refl,
            refl,
            record { fives = h.fives; fits = ground (arith, more, h.fives, h.fits) },
          )
    ]

-- A new last item of the name is the one that is found.
find_metadata-append :
    (t : Text) (i : ℕ) (items : List VmMetadata) (md : VmMetadata) (found : Option ℕ) {r : Option ℕ}
    → find_metadata t i items found ≡ some r
    → md.name ≡ some t
    → find_metadata t i (items ++ md ∷ []) found ≡ some (some (i + length items))
unfolding find_metadata
find_metadata-append t i [] md found h e =
    let here : i + 0 ≡ i = omega arith in rw (e, same_text_self t, here) refl
find_metadata-append t i (first ∷ items) md found h e =
    let next : i + suc (length items) ≡ i + 1 + length items = omega arith in
    let (is_it, known, rest) = >>=-eq-some (str_equal first.name (some t)) _ h in
    elim (Bool-cases is_it) [
      | inl it ↦
          rw (known, it, next) (find_metadata-append t (i + 1) items md (some i) (rw it at rest) e)
      | inr other ↦
          rw (known, other, next)
            (find_metadata-append t (i + 1) items md found (rw other at rest) e)
    ]

-- The search reads every name.
find_metadata_freed :
    (t : Text) (i : ℕ) (items : List VmMetadata) (md : VmMetadata) (found : Option ℕ)
    → md.name ≡ none
    → find_metadata t i (items ++ md ∷ []) found ≡ none
unfolding find_metadata
find_metadata_freed t i [] md found e = rw e refl
find_metadata_freed t i (first ∷ items) md found e =
    elim (Option-cases (str_equal first.name (some t))) [
      | inl fault ↦ rw fault refl
      | inr (is_it, known) ↦ elim (Bool-cases is_it) [
        | inl it ↦ rw (known, it) (find_metadata_freed t (i + 1) items md (some i) e)
        | inr other ↦ rw (known, other) (find_metadata_freed t (i + 1) items md found e)
      ]
    ]

-- A VM whose last metadata on the source is `e`, and that is taken over by a target whose array has
-- room and no freed name, has on the target, as its last metadata, the home of `e` and the history
-- of `e` with the target added; a request to teleport it home is then for that home.
pub leave-arrive :
    (source target home_word vm_name : Text) (m n : Metadatas) (i : ℕ) (e : VmMetadata)
    {r : Option ℕ}
    → find_metadata vm_name 0 m.items none ≡ some (some i)
    → get_elem? m.items i ≡ some e
    → find_metadata vm_name 0 n.items none ≡ some r
    → HasRoom n
    → (md : TeleportMetadata) × (m' : Metadatas) × (n' : Metadatas) × (e' : VmMetadata) × (leave
          source vm_name m
        ≡ some (md, m'))
      × (arrive target vm_name md n ≡ some n')
      × (find_metadata vm_name 0 n'.items none ≡ some (some (length n.items)))
      × (get_elem? n'.items (length n.items) ≡ some e')
      × (e'.home ≡ e.home)
      × (e'.history ≡ e.history ++ target ∷ [])
      × (teleport_target home_word home_word vm_name n' ≡ some (some e.home))
      × HasRoom n'
unfolding leave leave_found arrive teleport_target home_of
leave-arrive source target home_word vm_name m n i e at got known room =
    let md : TeleportMetadata = record { home = e.home; history = e.history } in
    let e' : VmMetadata = record {
      name = some vm_name;
      home = e.home;
      history = e.history ++ target ∷ [];
      is_teleported = false;
      guest = true;
    } in
    let (n', added, items, room') = add_metadata-HasRoom e' n room in
    let start : 0 + length n.items ≡ length n.items = omega arith in
    let found =
      rw (← items, start) at (find_metadata-append vm_name 0 n.items e' none known refl) in
    let there : get_elem? n'.items (length n.items) ≡ some e' =
      rw items (ground (arith, get_elem?-append_one n.items e' (length n.items))) in
    (
      md,
      record m { items = set m.items i (record e { is_teleported = true }) },
      n',
      e',
      rw (at, got) refl,
      added,
      found,
      there,
      refl,
      refl,
      rw (same_text_self home_word, found, there) refl,
      room',
    )

-- After a VM was started by a message to `main`, which frees its name, each teleport from the host
-- and each request to teleport home faults.
pub start_message_freed :
    (host_ip started vm_name other_ip home_word : Text) (m : Metadatas)
    → HasRoom m
    → (m' : Metadatas) × (start_message host_ip started m ≡ some m')
      × (leave other_ip vm_name m' ≡ none)
      × (teleport_target home_word home_word vm_name m' ≡ none)
unfolding start_message leave teleport_target
start_message_freed host_ip started vm_name other_ip home_word m room =
    let md : VmMetadata = record (started_here host_ip started) { name = none } in
    let (m', added, items, room') = add_metadata-HasRoom md m room in
    let fault : find_metadata vm_name 0 m'.items none ≡ none =
      rw items (find_metadata_freed vm_name 0 m.items md none refl) in
    (m', added, rw fault refl, rw (same_text_self home_word, fault) refl)

-- ===== src/Organizer/Send/History.antt =====
-- What the matrices hold after any number of calls of `send_task`.
use hpv_c.Base.{
  ℕ, ◌+◌, ◌≤◌, ◌<◌, ◌≡◌, refl, Bool, true, false, ◌&&◌, Option, some, List, [], ◌∷◌, arith, All,
  length, replicate, inl, inr, Bool-cases, ◌==◌, if◌then◌else◌, ◌>>=◌, lt→ltb,
}
use native.Mathlib.Nat.{add-zero}
use hpv_c.Double.{Double, mul_float}
use hpv_c.Utility.{int_bound}
use hpv_c.Organizer.Matrix.{
  Matrices, entry, entry_in, store_entry_lem, IsSized, create_organization_matrix,
  create_organization_matrix-IsSized, replicate-IsSquare, entry-replicate, initial_latency,
  initial_rate,
}
use hpv_c.Organizer.Send.{Sending, new_average, gather, send_task, sent_size}

pub created_below :
    (n i j r : ℕ) → entry (replicate n (replicate n initial_rate)) i j ≡ some r → r < 2
created_below n i j r e = omega (arith, entry-replicate n i j initial_rate e)

module _ {D : Type 0} ⦃d : Double D⦄ where
  -- Whether the call succeeds, within cluster 0, from VM `i` to VM `j`.
  abbrev pub is_message : ℕ → ℕ → Sending D → Bool
  is_message i j s =
      s.is_ok && s.receiver.cluster_id == 0 && s.sender.vm_id == i && s.receiver.vm_id == j

  unfoldable pub messages : ℕ → ℕ → List (Sending D) → ℕ
  messages i j [] = 0
  messages i j (s ∷ ss) = (if is_message i j s then 1 else 0) + messages i j ss

  -- The average of `n` times and one more, in floats.
  abbrev pub with_time : D → ℕ → D → D
  with_time avg n time =
      d.narrow (d.div (d.add (mul_float avg (d.narrow (d.of_int n))) time) (d.of_int (n + 1)))

  -- The average of a pair's latencies, which begins as `avg` of `n` of them.
  unfoldable pub running_average : ℕ → ℕ → List (Sending D) → D → ℕ → D
  running_average i j [] avg n = avg
  running_average i j (s ∷ ss) avg n =
      running_average i j ss
        (if is_message i j s then with_time avg n (d.sub s.end_time s.start_time) else avg)
        (if is_message i j s then n + 1 else n)

  unfoldable pub send_all : List (Sending D) → Matrices D → Option (Matrices D)
  send_all [] m = some m
  send_all (s ∷ ss) m = do (is_ok, size, m') ← send_task s m; send_all ss m'

  abbrev pub IsWithin : ℕ → Sending D → Type 0
  IsWithin n s = (s.sender.vm_id < n) × (s.receiver.vm_id < n)

  abbrev pub RatesBelow : ℕ → Matrices D → Type 0
  RatesBelow b m = (i j r : ℕ) → entry m.rate i j ≡ some r → r < b

  pub record Sent (n b : ℕ) (s : Sending D) (m m' : Matrices D) : Type 0 where
    pub sized : IsSized n m'
    pub below : RatesBelow (b + 1) m'
    pub rates :
        (i j r : ℕ)
        → entry m.rate i j ≡ some r
        → entry m'.rate i j ≡ some (if is_message i j s then r + 1 else r)
    pub latencies :
        (i j r : ℕ) (avg : D)
        → entry m.rate i j ≡ some r
        → entry m.latency i j ≡ some avg
        → entry m'.latency i j
          ≡ some (if is_message i j s then with_time avg r (d.sub s.end_time s.start_time) else avg)

  kept :
      (n b : ℕ) (s : Sending D) (m : Matrices D)
      → IsSized n m
      → RatesBelow b m
      → ((i j : ℕ) → is_message i j s ≡ false)
      → Sent n b s m m
  kept n b s m z rb no_message = record {
    sized = z;
    below = λ i j r e. omega (arith, rb i j r e);
    rates = λ i j r e. rw (no_message i j) e;
    latencies = λ i j r avg e f. rw (no_message i j) f;
  }

  gather-Sent :
      (n b : ℕ) (s : Sending D) (m : Matrices D)
      → IsSized n m
      → RatesBelow b m
      → b < int_bound
      → IsWithin n s
      → s.is_ok ≡ true
      → (s.receiver.cluster_id == 0) ≡ true
      → (m' : Matrices D) × (gather s m ≡ some m') × Sent n b s m m'
  unfolding gather
  gather-Sent n b s m z rb fits w ok here =
      let i = s.sender.vm_id in
      let j = s.receiver.vm_id in
      let (avg, got_avg) = entry_in n m.latency i j z.latencies w.0 w.1 in
      let (r, got_r) = entry_in n m.rate i j z.rates w.0 w.1 in
      let fresh = new_average avg r s.start_time s.end_time in
      let (lat, done1, sq1, all1) = store_entry_lem n m.latency i j fresh z.latencies w.0 w.1 in
      let (rate, done2, sq2, all2) = store_entry_lem n m.rate i j (r + 1) z.rates w.0 w.1 in
      (
        record { rate = rate; latency = lat },
        rw (got_avg, got_r, done1, lt→ltb (r + 1) int_bound (omega (arith, rb i j r got_r)), done2),
        record {
          sized = record { rates = sq2; latencies = sq1 };
          below = λ k l q e. ground (arith, all2 k l, rb k l q, rb i j r got_r);
          rates = λ k l q e. ground (arith, all2 k l);
          latencies = λ k l q a e f. ground (arith, all1 k l);
        },
      )

  pub send_task-Sent :
      (n b : ℕ) (s : Sending D) (m : Matrices D)
      → IsSized n m
      → RatesBelow b m
      → b < int_bound
      → IsWithin n s
      → (m' : Matrices D) × (send_task s m ≡ some (s.is_ok, sent_size s, m')) × Sent n b s m m'
  unfolding send_task
  send_task-Sent n b s m z rb fits w = elim (Bool-cases s.is_ok) [
    | inr failed ↦ (m, rw failed, kept n b s m z rb (λ i j. ground arith))
    | inl ok ↦ elim (Bool-cases (s.receiver.cluster_id == 0)) [
      | inr elsewhere ↦ (m, rw (ok, elsewhere), kept n b s m z rb (λ i j. ground arith))
      | inl here ↦
          let (m', done, sent) = gather-Sent n b s m z rb fits w ok here in
          (m', rw (ok, here, done), sent)
    ]
  ]

  send_all-history :
      (ss : List (Sending D)) (n b : ℕ) (m : Matrices D)
      → IsSized n m
      → RatesBelow b m
      → b + length ss ≤ int_bound
      → All (IsWithin n) ss
      → (m' : Matrices D) × (send_all ss m ≡ some m')
        × ((i j r : ℕ) (avg : D)
            → entry m.rate i j ≡ some r
            → entry m.latency i j ≡ some avg
            → (entry m'.rate i j ≡ some (r + messages i j ss))
              × (entry m'.latency i j ≡ some (running_average i j ss avg r)))
  unfolding send_all messages running_average
  send_all-history [] n b m z rb fits w = (m, refl, λ i j r avg e f. (rw add-zero e, f))
  send_all-history (s ∷ ss) n b m z rb fits w =
      let (m1, done, sent) = send_task-Sent n b s m z rb (omega arith) w.0 in
      let (m', rest, values) =
        send_all-history ss n (b + 1) m1 sent.sized sent.below (omega arith) w.1 in
      (
        m',
        rw (done) rest,
        λ i j r avg e f.
            let v = values i j _ _ (sent.rates i j r e) (sent.latencies i j r avg e f) in
            (ground (arith, v.0), ground (arith, v.1)),
      )

-- After any calls of `send_task` on the matrices of `create_organization_matrix`, fewer than
-- 2^31 - 1 of them, between VMs that the matrices have a place for: none faults, the rate of a pair
-- is 1 more than the number of its messages, which are the sends that succeed within cluster 0, and
-- its latency is the average carried along by those messages alone, from the first to the last.
pub send_all_lem :
    {D : Type 0} ⦃d : Double D⦄ (n : ℕ) (ss : List (Sending D))
    → length ss + 2 ≤ int_bound
    → All (IsWithin n) ss
    → (m : Matrices D) × (send_all ss (create_organization_matrix n) ≡ some m)
      × ((i j : ℕ)
          → i < n
          → j < n
          → (entry m.rate i j ≡ some (1 + messages i j ss))
            × (entry m.latency i j ≡ some (running_average i j ss initial_latency 1)))
unfolding create_organization_matrix
send_all_lem {D} n ss fits w =
    let (m, done, values) =
      send_all-history ss n 2 (create_organization_matrix n) (create_organization_matrix-IsSized n)
        (λ i j r e. created_below n i j r e) (omega arith) w in
    (
      m,
      done,
      λ i j hi hj.
          values i j 1 initial_latency ((replicate-IsSquare n _).1 i j hi hj)
            ((replicate-IsSquare n _).1 i j hi hj),
    )

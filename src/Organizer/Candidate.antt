-- ===== src/Organizer/Candidate.antt =====
-- The choice of the VM that communicates at the highest cost in `organization_manager`
-- (simgrid/organizer/hpvc.c): H, and the VM of the greatest H.
pub mod Greatest
pub mod Total
use hpv_c.Base.{
  ℕ, zero, suc, ◌+◌, Bool, false, Option, none, some, List, [], ◌∷◌, not, ◌&&◌, ◌==◌, if◌then◌else◌,
  ◌>>=◌,
}
use hpv_c.Double.{Double, add_float, mul_float}
use hpv_c.Organizer.Matrix.{Matrices, entry}

pub record Candidate (D : Type 0) : Type 0 where
  pub current_h : D
  pub index : ℕ

-- `lastCandidateVMIndex`, which is -1 at first: no VM.
abbrev pub is_last : Option ℕ → ℕ → Bool
is_last none i = false
is_last (some l) i = l == i

module _ {D : Type 0} ⦃d : Double D⦄ where
  -- `tmpTransmissionRate[i][j] * tmpTransmissionLatency[i][j]`
  unfoldable pub product : Matrices D → ℕ → ℕ → Option D
  product tmp i j = do
    rate ← entry tmp.rate i j
    latency ← entry tmp.latency i j
    some (mul_float (d.narrow (d.of_int rate)) latency)

  -- The inner loop for VM `i`, from `j` on, with `n` rounds left.
  unfoldable pub heat : Matrices D → ℕ → ℕ → ℕ → D → Option D
  heat tmp i zero j h = some h
  heat tmp i (suc n) j h = do
    to ← product tmp i j
    from ← product tmp j i
    heat tmp i n (j + 1) (add_float (add_float h to) from)

  -- The array H from `i` on, for `n` of the `vms` VMs.
  unfoldable pub heats : ℕ → Matrices D → ℕ → ℕ → Option (List D)
  heats vms tmp zero i = some []
  heats vms tmp (suc n) i = do
    h ← heat tmp i vms 0 (d.lit 0 0)
    hs ← heats vms tmp n (i + 1)
    some (h ∷ hs)

  -- "find maximum H": the loop over the entries of H from `i` on.
  unfoldable pub find_candidate : Option ℕ → List D → ℕ → Candidate D → Candidate D
  find_candidate last [] i c = c
  find_candidate last (h ∷ hs) i c = find_candidate last hs (i + 1) (
      if d.lt c.current_h h && not (is_last last i) then record { current_h = h; index = i } else c)

  unfoldable pub candidate : Option ℕ → List D → Candidate D
  candidate last hs = find_candidate last hs 0 (record { current_h = d.lit 0 0; index = 0 })

-- ===== src/Process/Need.antt =====
-- `resource_need` (structures.h), `compute_resource_need`, and the iteration counts that `main` sets
-- (simgrid/organizer/hpvc.c).
use hpv_c.Base.{ℕ, leb, if◌then◌else◌}
use hpv_c.Double.{Double, mul_float, sub_float}

pub record ResourceNeed (D : Type 0) : Type 0 where
  pub cpu : D
  pub memory : D
  pub net : D
  pub expected_time : D
  pub cpu_time : D

-- ITERATION_PER_PROCESS, COMP_TASK_SIZE and COMM_TASK_SIZE
pub record Counts : Type 0 where
  pub iterations : ℕ
  pub comp : ℕ
  pub comm : ℕ

-- The maxima of `launch_master`, and RAND_MAX.
pub record Maxima (D : Type 0) : Type 0 where
  pub cpu_max_flops : D
  pub memory_max : D
  pub net_max : D
  pub rand_max : ℕ

module _ {D : Type 0} ⦃d : Double D⦄ where
  -- Each product and difference is a float, cut to an int.
  unfoldable pub derive_counts : ℕ → D → Counts
  derive_counts number_of_vms comp_per_comm =
      let iterations =
        d.to_int (mul_float (d.narrow (d.of_int number_of_vms)) (d.narrow (d.lit 6 1))) in
      let iterations_float = d.narrow (d.of_int iterations) in
      record {
        iterations = iterations;
        comp = d.to_int (mul_float comp_per_comm iterations_float);
        comm = d.to_int (sub_float iterations_float comp_per_comm);
      }

  -- The values are those of `rand ()`; `c` is not used. MAX_VM_NET is 1.25e8.
  unfoldable pub compute_resource_need : Maxima D → Counts → ℕ → ℕ → ℕ → ℕ → ResourceNeed D
  compute_resource_need max counts rand_task r m c =
      let rand_max = d.of_int max.rand_max in
      let m' : ℕ = if leb m 10 then 10 else m in
      let r' : ℕ = if leb r 10 then 10 else r in
      let memory = d.mul (d.div (d.of_int m') rand_max) max.memory_max in
      let max_vm_net = d.lit 125000000 0 in
      let usual_net = d.mul (d.lit 4 1) max.net_max in
      let usual_time = d.div rand_max (d.of_int r) in
      let small_net = d.mul (d.narrow (d.lit 3 2)) max.net_max in
      let long_time = d.mul (d.div rand_max (d.of_int r')) (d.of_int 10) in
      if d.lt (d.div (d.of_int rand_task) rand_max) (d.of_int 1)
      then record {
        cpu = d.mul (d.narrow (d.lit 1 1)) max.cpu_max_flops;
        memory = memory;
        net = usual_net;
        cpu_time = usual_time;
        expected_time = d.add usual_time (d.div usual_net max_vm_net);
      }
      else record {
        cpu = d.mul (d.mul (d.div (d.of_int r') rand_max) max.cpu_max_flops) (d.of_int 10);
        memory = memory;
        net = small_net;
        cpu_time = long_time;
        expected_time =
            d.add (d.mul long_time (d.of_int counts.comp))
              (d.mul (d.div small_net max_vm_net) (d.of_int counts.comm));
      }

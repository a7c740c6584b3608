-- ===== src/Project/Need.antt =====
-- `compute_resource_need` of simgrid-project/hpvc.c, and the request of `create_tasks` for a process.
use hpv_c.Base.{if◌then◌else◌}
use hpv_c.Double.{Double}
use hpv_c.Process.Need.{ResourceNeed}
use hpv_c.Guest.Balance.{LoadBalanceRequest}

module _ {D : Type 0} ⦃d : Double D⦄ where
  -- `m` and `c` are 0.1 at least.
  abbrev pub at_least_tenth : D → D
  at_least_tenth a = if d.le a (d.lit 1 1) then d.lit 1 1 else a

  abbrev pub need_of_time : D → D → D → D → D → D → ResourceNeed D
  need_of_time cpu_max_flops memory_max net_max m c time =
      let memory = d.mul (d.div (d.of_int 1) (at_least_tenth m)) memory_max in
      let net = d.mul (d.div (d.of_int 1) (at_least_tenth c)) net_max in
      record {
        cpu = d.mul time cpu_max_flops;
        memory = memory;
        net = net;
        cpu_time = time;
        expected_time = d.add time (d.div net (d.lit 125000000 0));
      }

  -- The maxima of `launch_master`, then the numbers that are drawn. One task in twenty is long.
  unfoldable pub compute_resource_need : D → D → D → D → D → D → D → ResourceNeed D
  compute_resource_need cpu_max_flops memory_max net_max rand_task r m c =
      let usual_r = if d.lt r (d.lit 1 2) then d.lit 1 2 else r in
      let long_r = if d.lt r (d.lit 1 6) then d.lit 1 6 else r in
      let around = d.div (d.of_int 2) usual_r in
      let usual =
        if d.lt rand_task (d.lit 5 1)
        then d.add (d.of_int 200) around
        else d.sub (d.of_int 200) around in
      let time = if d.lt rand_task (d.lit 95 2) then usual else d.div (d.of_int 20) long_r in
      need_of_time cpu_max_flops memory_max net_max m c time

  -- The memory is sent in the place of the net too.
  abbrev pub request_of : ResourceNeed D → LoadBalanceRequest D
  request_of need = record { memory = need.memory; net = need.memory }

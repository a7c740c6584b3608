-- ===== src/Lib.antt =====
-- HPvC: the simulator of virtual clusters in simgrid/organizer (hpvc.c, structures.h, utility.h), the
-- earlier one in simgrid/simgrid-project (hpvc.c), the monitor in c/monitor (monitor.c, server.c,
-- interface.c), the executer in c/executer and the daemon in c/organizer that commands it.
--
-- The simulator starts VMs on the hosts of a cluster, runs processes on the VMs that execute tasks
-- and send each other messages, measures how long the messages between each two VMs take, and moves
-- VMs that communicate much to hosts that are cheaper for them. The earlier one moves VMs by the load
-- of the hosts. The monitor of a host reports on it and its machines to the server, which keeps the
-- reports and answers the requests of the interface. The executer of a host starts VMs and teleports
-- them to other hosts, as the daemon asks.
--
-- - Base: the shared names. `none` of an Option is a run that reads or writes out of range, follows
--   a null pointer or overflows an int (Base/Fault).
-- - Double: float and double, with the functions of math.h, are an interface. Its laws on `<` hold
--   for the numbers that are no NaN; thousandths fill it for the tests.
-- - Utility: `RemoveItemFromArray` and `GetNextTargetMailBox` of utility.h. `GetTimeout`, which is
--   called nowhere, and the printing are left out.
-- - Placement: the lists `dataOfPMs` and `vm_list`; Launch is `launch_master` and Migrate is
--   `migrate_vm`. The hosts' names and what `sscanf` reads from them are the parameter `Platform`.
-- - Organizer: Matrix is `create_organization_matrix`, Send is `send_task`, and the loop body of
--   `organization_manager` is cut at its comments: Period (the copying of the matrices), Candidate
--   (H and currentH), NextCost (nextH), Sort (the bubble sort) and Manager (the choice of the host).
--   Manager/Run interleaves messages and periods. A blend of rates that is no int from
--   0 on is a fault where it is cut to one.
-- - Process: Need is `compute_resource_need` and the sizes that `main` derives, Work is the loop of
--   `process_task`. The loop runs on fuel: a round either counts `i` on or changes nothing, so one
--   round more than the iterations is enough.
-- - Guest: Balance is a request served by `guest_load_balance`, Tasks is a round of `create_tasks`
--   and the end of `process_task`, Run is the relation of their steps with those of `get_finalize`
--   and of the mailboxes' processes, and End is `destroy_master`.
-- - Monitor: Server is c/monitor/server.c, with the list of hosts that `set_host_utility` updates.
--   What malloc leaves usable is the parameter `usable`; a copy or a store beyond it is a fault.
--   Config is `_parse_yaml` of c/monitor/monitor.c, with the events that libyaml gives as a list, Client
--   is `_get_metrics` of the same file, with the samples of VirtualBox as a list, and Interface is
--   c/monitor/interface.c, with what protobuf makes of a message as a parameter.
-- - Executer: c/executer/executer.c, the metadata of the VMs of a host and the messages that start,
--   take over and hand over a VM. A name that is freed is `none`, and comparing it is a fault. The
--   calls of VirtualBox succeed or end the program. Network is the loop of `comm_actor` on any number
--   of hosts, as steps in any order, with the sockets between them: a request socket waits for the
--   reply to each message, and a reply socket gives no message while it owes a reply. In it,
--   Commands carries out what is typed at the daemon.
-- - Daemon: c/organizer/organizer.c, the words that are typed and the messages that are sent.
-- - Project: simgrid/simgrid-project/hpvc.c. Pool is its data, Launch is `launch_master`, Place is
--   `place_vm` (its memmove moves bytes of 32-bit words), Policy is the choice in
--   `policy_func_inhab_mig` and Period its loop over the hosts. The loads of the VMs change between
--   periods and stay as they are during one, while SimGrid migrates a VM at once. Results is the round
--   robin of `create_tasks` and the statistics of `destroy_master`, Need is `compute_resource_need`,
--   and Balance is `guest_load_balance`, over the loop of Guest/Balance. Tasks is the creation of a
--   process in both clusters and its end in `process_task`, and Run is the relation of their steps
--   with those of `get_finalize`, from the launch on, each of which has its own numbers of VMs and
--   processes, as deployment.xml gives them; it leaves the migrations out, which change no
--   process list. What `atof` reads of a number that is printed by "%f" is the parameter `printed`.
--
-- In simgrid/organizer one cluster is modelled, as NUMBER_OF_CLUSTERS is 1. SimGrid is not modelled:
-- what it returns (clocks, success of a message) is an argument. Freeing memory (but for the names in
-- Executer), printing, the names of tasks and the checks of the number of arguments are left out, and
-- so are `main` of the two simulators, the means of the arrival and CPU times of the earlier one, the
-- sockets of the programs other than the executer, and the calls of VirtualBox.
pub mod Base
pub mod Double
pub mod Utility
pub mod Placement
pub mod Organizer
pub mod Process
pub mod Guest
pub mod Monitor
pub mod Executer
pub mod Daemon
pub mod Project

-- ===== src/Lib.antt =====
-- Four programs of the repository, and their models. The repository is a collection of independent
-- test scripts around external programs; these are the parts of it with logic of their own.
--
-- DLPAR: an interface to a hardware management console that adds, removes and moves the processors and
-- the memory of logical partitions (dlpar/dlpar_api/api.py), and the tests that drive it
-- (dlpar/dlpar_main.py). A test makes a test object (DedicatedCpu, CpuUnit or Memory), which reads its
-- configuration, connects to the console and to the partitions (TestCase.get_connections), and checks
-- what the console says of them. The test asks for a list of amounts (cpu_payload_data,
-- mem_payload_data, mix_payload_data) and calls one public method for each. A method reads the amount
-- before (get_cpu_option, get_mem_option), sends one command (Dlpar_engine), and, if the console
-- printed nothing, reads the amount again (Dlpar_cpu_validation, Dlpar_mem_validation) and raises if it
-- is not the new one. If the console printed something the method returns 1, and the test is cancelled
-- or fails by what was printed (_cancel_on_capacity_exceeded).
--
-- CPU die topology: checks of the files that describe which CPU is on which die
-- (cpu/cpu_die_topology.py). Each test reads a value per online CPU (_read_topology_file), groups the
-- CPUs by die, and compares the values within a group; what is wrong is kept in self.failures, which
-- tearDown reports. _select_test_cpu_sets chooses the CPUs for a comparison within and across dies.
--
-- Scheduler tunables: tests that change tunables of the scheduler and measure a workload
-- (cpu/scheduler_tunables_test.py). setUp saves the values of the tunables' files
-- (_check_and_save_tunables), a test reads values, sets others (_get_tunable, _set_tunable) and runs
-- stress-ng under perf stat several times (_run_workload), which parses what perf prints
-- (_parse_perf_output) and averages it, and tearDown writes the saved values back (_restore_tunables).
--
-- Port bounce: a test that disables and enables ports of a switch (io/disk/port_bounce.py). porttoggle
-- sends the commands (port_enable_disable, run_command) and checks the ports on the switch
-- (verify_switch_port_state), in the host (verify_port_host_state) and the paths of the disks
-- (mpath_state_check); port_bounce does it port by port and for all ports at once.
--
-- What models what. A method is an action on a record of the state, which returns a value or raises
-- (Python); what it wrote before a raise stays written.
--   Prelude, Text, Python: shared names, lists, Python's sorted, dictionaries, ints, texts and exceptions.
--   Dlpar/Host: what the suite reaches and does not implement, a parameter of all that follows: the
--     console, the partitions, local commands, packages, the clock, random numbers, and floats.
--   Dlpar/Num: an int or a float. Dlpar/Session: the attributes of the test object, the log, the
--     commands sent so far with their replies, and the world.
--   Dlpar/Connections: SshMachine, TestLog.check_log, TestCase.__init__, get_connections.
--   Dlpar/Engine: Dlpar_engine, get_cpu_option, get_mem_option, get_lmb_value, linux_check_add_cpu,
--     linux_check_rm_cpu. Dlpar/Validate: Dlpar_cpu_validation, Dlpar_mem_validation.
--   Dlpar/Dedicated: DedicatedCpu. Dlpar/Units: CpuUnit. Dlpar/Mem: Memory.
--   Dlpar/Payload: cpu_payload_data, mem_payload_data, mix_payload_data.
--   Dlpar/Suite: DlparTests. SetUp has setUp and what it calls, Outcome the end of a test and the backup
--     of the amounts, Cpu, Memory and Smt the tests.
--   Topology: CPUDieTopology. The record Sysfs is its parameter: the platform, the online CPUs and the
--     files. Topology itself has setUp, _read_topology_file and tearDown, Checks the tests, Groups the
--     dictionary of the dies, Select _get_die_cpu_list and _select_test_cpu_sets, Hackbench
--     _setup_hackbench, _run_hackbench and test_die_performance_benefit over the record Bench, the system
--     that is timed.
--   Scheduler: SchedulerTunablesTest. The record Kernel is its parameter: the files, the commands, the
--     test's parameters and floats. Tunables has the files of the tunables, Perf _build_stress_command
--     and _parse_perf_output, Means the arithmetic of _log_metrics and _run_workload with its
--     OverflowError, Workload _run_workload_single and _run_workload, Cases setUp, the tests and tearDown.
--   PortBounce: PortBounceTest. The record Fabric is its parameter: the switch, the host's commands and
--     files, the multipath tools and the test's parameters.
-- The modules below these hold their theorems: of Dlpar, Replies, Passed, Moved, Outcome,
-- Operations, Transfer, Machines, Cpu, Mem, Mix, Ints, Floats, Adding, Filling, Removing, Backup; of Topology,
-- Members, Keys, Sets, Enough, Validity, DieCpus, Masks, Distinct, Packages, Ends; of Scheduler, Keys, Report,
-- Kept, Saved, Restored, Files, Bounded, Ends; of PortBounce, Paths. Dlpar/Suite/Console is the
-- interface of a console that keeps to its manual, which the theorems of Suite on loops use; Scheduler/Saved/Restored and Scheduler/Files have those
-- of files that keep to the kernel's documentation. The modules named Tests have concrete hosts, machines and
-- sessions.
--
-- Bounds. The loops of cpu_payload_data and mem_payload_data take a number of rounds, and raise
-- out_of_fuel, which the program has not, at the end of it. On whole numbers one round for each unit
-- between the start and the maximum and two more are enough, since every round but the first of
-- cpu_payload_data takes at least one unit. All other loops run over a list or a counter. The amounts of
-- cpu_payload_data are floats, since its index starts at 0.0; the record ExactFloats of Dlpar/Host says of
-- floats what IEEE 754 says of whole numbers up to a bound.
--
-- Simplifications. The world is only what the parameters' functions make of it; the files that Topology
-- reads do not change during a test. A command's reply is its text, or none if the call raised. What
-- eval makes of a line of config.txt is a parameter. The keys that setUp takes from
-- the parameters are typed fields. A comparison that is not `<=` is taken as `>`, so a float that is not
-- a number is left out. The retry of wait_for and the package manager are calls of the host. The digits
-- of int and of isdigit are the ASCII digits. test_02_low_latency and test_03_high_throughput, which
-- differ in constants and bounds, share one definition. A failure to set a tunable carries no text of
-- the exception under it, nor does a failed command of PortBounce, whose ports are taken to be numbers in
-- the pattern that is searched for.
--
-- Not modelled: the handlers and formats of TestLog and all prints and log lines, which are output
-- alone, with _get_tunable_display_name, _log_tunable_change and _compare_and_log_metrics, which only they
-- use (of _log_metrics it is modelled whether it raises, since that makes a run a failure); the log lines that print whole lists; run_cmd, which nothing calls;
-- setUp of PortBounceTest and what it calls to find the ports, and its tearDown;
-- the averages that test_die_performance_benefit prints before it passes; and the other
-- scripts of the repository, which stand around external programs.
pub mod Prelude
pub mod Text
pub mod Python
pub mod Dlpar
pub mod Topology
pub mod Scheduler
pub mod PortBounce

-- ===== src/Lib.antt =====
-- A model of the tasks of oox/oox.h and of the task benchmark in benchmarks/taskbench.
--
-- oox/oox.h runs functors as tasks. A variable (`oox::var`) refers to the task that writes it last.
-- `oox::run` makes a task node, links it behind the tasks that its arguments refer to, and publishes
-- it; a task that completes notifies its successors, gives their failures on, and lets the next
-- writer of each of its outputs go on once the readers are through. Tasks, exceptions and outputs
-- are counted and deleted by hand, and their words are shared by threads without a lock.
--
-- Runtime models it in four ways.
--   The words that threads share, each operation one atomic step, in any interleaving:
--   Runtime/Start and Start/Gate: `task_node::start_count`, with `remove_prerequisite` and
--     `mark_failure`.
--   Runtime/Life and Life/Sharing: `task_life::life_release` and its kin.
--   Runtime/ArcList and ArcList/Stack: `arc_list::add_arc` and the exchange that closes the list.
--   Runtime/Output and Output/Countdown (its steps, with Invariant and Safety): `output_node` between
--     the producer in `notify_successors`, the consumers in `remove_back_arc` and the writer in
--     `set_next_writer`.
--   The whole runtime over a memory (Runtime/Store), run by one thread at a time: a command reads
--   and changes the store, or ends in a fault (a failed assertion, a dangling pointer, no fuel, a wait for
--   a task that is not done, which only another thread can end, or a `noexcept` functor that throws).
--   Runtime/Store/Failure: the functions of `task_node` on failures, and `failure_wait_status`.
--   Runtime/Store/Notify: `notify_successors`, `do_notify_arcs`, `do_notify_out`, `remove_back_arc`,
--     `set_next_writer`, `notify_next_writer`, `remove_prerequisite`, `release`, and the destructors.
--   Runtime/Store/Vars: `oox_var_base` and `var<T>`.
--   Runtime/Store/Execute: `oox::run`, from `setup` to publication, and `execute`, with what the
--     functor does as a parameter.
--   Runtime/Store/Execute/Between: any number of readers of a result and its next writer, with Readers
--     (how they are made), Giving (the producer returns), Failing with Skipping (it throws), Reading (the
--     readers are executed) and Apart (lists of different tasks); Late: readers that come when the
--     producer is done.
--   Runtime/Store/Execute/Ordering, Deferred, Cleanup (on Trio), Forwarding, Voiding, Cancelling
--     (on Pair): what becomes of small graphs of tasks at any addresses, from `run` to the deletion, by
--     the steps of Steps.
--   Runtime/Store/Values: `wait_and_get` along forwarded variables, on fuel, a unit for each variable.
--   Runtime/Store/Values/Get: `var::get`.
-- A program of any number of tasks, in any order of execution:
--   Runtime/Dependence: what `setup` makes a task wait for by its arguments, and the run of a program
--     on the values of its variables, with Trackers and Closure (what is known of the prerequisites),
--     Equivalence (with the serial run), Progress, and Aliasing (a variable that is given twice).
-- How a thread waits for a task:
--   Runtime/Backend/Condition: `wait` and `wakeup` of the Twist backend, in any interleaving.
--   Runtime/Backend/Promise: those of the plain and the Taskflow backend.
--   Runtime/Backend/Taskwait: `spawn` and `wait` of the OpenMP backend.
-- Runtime/Policy has the static assertions on the policies of variables and tasks, and Policy/Soundness
-- what they are worth in a program.
-- Runtime/Result is `result_state`, the storage of one value, and `consume`.
-- Runtime/Node has the data, with a constructor for each meaning of a tagged word, and Runtime/Tags the
-- words themselves. A task is named by its address, a number; the caller picks the address of a new
-- one. A word of 32 bits wraps around; the counts of references are natural numbers, whose assertions
-- say that they do not fall below 0. The 32-bit `life_count` and `countdown` are taken not to overflow.
--
-- The functions of completion call one another in a circle. They run on fuel, one unit for each round
-- of `release` or `remove_prerequisite`; two units serve the graphs of the theorems below.
--
-- TaskBench models benchmarks/taskbench: Config (taskbench_config.h), Kernels (hashes and kernels of
-- taskbench_kernels.h), Patterns (taskbench_patterns.h), Graph (taskbench_graph.h and
-- taskbench_validate.h) with Graph/Reverse, Graph/Serial (runner_serial.h), and Graph/Oox
-- (runner_oox.h and runner_oox_dispatch.h), which makes a program of Runtime/Dependence, with Places
-- (the number of the task of a point), Tokens and Rows (what the tasks leave) and Schedules. What the kernel gives
-- for a point is a parameter of Graph; Schedules has it from Kernels, where the functions with floating
-- point are parameters, and so is the scratch memory that a call finds. The search of the random pattern has no bound in the source and runs on
-- fuel here.
--
-- TaskBench/Graph/Accepted has the constructor of `Graph`, for a configuration that is accepted.
--
-- Harness models benchmarks/rapid_start.h: the ranges that the parts get (with Parts and Tiling), and
-- Rounds, the calls of `spread_work` and the threads that wait for them, in any interleaving (Joined: all threads have
-- arrived; Late: one arrives during a call). The bounds of a range are taken not to overflow an `int`.
--
-- Clients models the programs of examples/: Fibonacci (fibonacci.h, on 32-bit words), Filesystem with
-- Filesystem/Accumulate (filesystem.h), and Wavefront with Wavefront/Straight (wavefront.h). Their
-- modules Schedule and Straight run the tasks in any order, Dataflow has the trees of tasks that
-- `oox::run` builds for the first two, and Wavefront/Subsequence says what a common subsequence is. The
-- recursion of `Serial::disk_usage` runs on fuel, for which the number of nodes is enough, since a child
-- lies behind its directory. The recursions of Dataflow, Wavefront and Dependence are on the data.
--
-- Examples has runs of small task graphs and the theorems at concrete inputs.
--
-- Not modelled: how the store and the values of tasks meet, in the calls of functors, other than in
-- Runtime/Dependence and TaskBench/Graph/Oox, which have the order and the values but not the counts;
-- the serial, TBB and Folly backends, and `spawn` on all but OpenMP, which stand on libraries that are
-- not in the repository and are recorded as calls; C++ types; the memory order of atomic accesses, which
-- are taken to be sequentially consistent; the parts of the examples that are switched off; the runners
-- of the benchmark on other libraries, the command line and the metrics of the benchmark, the start and
-- the end of the threads of `RapidStart`, the other benchmarks, and the tests.
pub mod Base
pub mod Runtime
pub mod TaskBench
pub mod Clients
pub mod Harness
mod Examples

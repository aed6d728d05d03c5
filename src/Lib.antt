-- ===== src/Lib.antt =====
-- Models of the core logic of resctl-demo, and proofs that it is correct.
--
-- The program is a set of Rust crates. rd-agent runs on the machine under test: it applies the
-- commands that it finds in a file, runs benchmarks, workloads and side loads as services of
-- systemd, and writes a report each second. rd-hashd is the workload, a pool of worker threads.
-- resctl-bench runs series of benchmarks that are given to it as job specs. resctl-demo is the
-- terminal interface: it draws graphs from the reports of the agent.
--
-- Prelude holds what all parts share: tests and conditionals on native numbers, lists, outcomes
-- that may be a panic, orders, `u64` words and rounding. Text is Rust's strings as lists of
-- characters, with `split`; BTreeMap is the sorted map of the standard library.
--
-- Workqueue models rd-hashd/src/workqueue.rs: `WorkQueue` and `Worker` become a system of handles,
-- channels and threads; `keep_books`, `get_next_worker` and `queue` keep their names, and
-- `Worker::run` is `run`, one item of work at a time. Workqueue/Invariant says where each worker
-- is, Workqueue/Books and Workqueue/Safety treat `keep_books`, Workqueue/Dispatch treats `queue`,
-- Workqueue/Threads and Workqueue/Interleaving the threads and all orders of calls and rounds. The
-- drop of the whole queue is left out.
--
-- JobSpec models resctl-bench-intf/src/jobspec.rs and the parser in resctl-bench-intf/src/args.rs.
-- Its children treat what a parsed spec looks like, where its id comes from, the round trip and
-- `compatible`.
--
-- ReportRing and ReportData model resctl-demo/src/report_ring.rs. ReportRing is `ReportRing` and
-- `ReportRingSet`, with `update` split into what it evicts and what it loads; the files are a
-- function from a time to a report. The loop over times is by recursion on the number of its
-- rounds, which `nr_steps` gives. ReportData is `ReportDataTip` and `ReportData`, with `fill` split
-- into its steps; the loop that catches up has the time to be reached as fuel, which is enough
-- since each round adds a step of at least one. ReportData/Set is `ReportDataSet` and the
-- iterators. `u64` arithmetic wraps, as it does in a release build.
--
-- Runner models rd-agent/src/cmd.rs: `RunnerData` and the loop of `Runner::run`, in
-- Runner/Commands (`apply_cmd`), Runner/Completions (`check_completions`, with the sequence numbers
-- that rd-agent/src/bench.rs sets) and Runner/Reload (`maybe_reload` and the rounds). What the
-- runner drives, services, workloads, side loads, balloon, oomd, sideloader and files, is a record
-- of operations on a state of their own. The loop around `apply_cmd` has fuel, of which two are
-- enough. The reporter, the sleep and the end of the program are left out.
--
-- Systemd models rd-util/src/systemd.rs but for the calls of D-Bus, which are a record of operations
-- on the state of a bus: Systemd/Units is `Unit`, Systemd/Services is `TransientService`. Waiting
-- for a transition is by recursion on the number of refreshes, an argument, since the code waits for
-- a time. Systemd/Waits says what a wait comes to. The other children treat the states, the resource
-- control, and stop, start and drop, on a bus that does what systemd documents.
--
-- Side models rd-agent/src/side.rs: Side itself makes single loads, Side/Reconcile is `SideRunner`,
-- whose `apply_sysloads` and `apply_sideloads` share `apply_loads`, and Side/Balloons is `Balloon`.
-- The order of hash sets is a parameter.
--
-- Hashd models rd-agent/src/hashd.rs: Hashd/Params is `weights_to_fracs` and `update_params`, and
-- Hashd/Set the operations of `HashdSet`, each of its loops a call of `for_both`. Floating-point
-- numbers are a parameter.
--
-- Enforce models `EnforceConfig` of rd-agent-intf/src/args.rs. Jobs models the list of jobs of
-- resctl-bench: Jobs itself parses specs, as resctl-bench/src/job.rs does, Jobs/Links links them to
-- previous results, as in `do_run` of resctl-bench/src/main.rs, Jobs/Updates is what a run does with
-- the list in resctl-bench/src/run.rs, and Jobs/Periods the first part of `do_pack`. A mutable
-- reference into the list is the entry with the parts of the list around it, in `Found`. Jobs/Linked,
-- Jobs/Ordered and Jobs/Coalesced hold the proofs. The benchmarks are a parameter.
--
-- Merge models `merge` of resctl-bench/src/merge.rs: Merge itself sorts the sources of the result
-- files into sets by their id, Merge/Run merges the sets and records how the results came to be, as
-- in resctl-bench/src/merge/info.rs, Merge/Best chooses the winners, and Merge/Hull has the helpers
-- that benchmarks merge with. A map is a list in the order of its keys (BTreeMap). Merge/Champions
-- and Merge/Chosen hold the proofs. Result files and merge methods are a parameter. A set of ids in
-- a record is a list there. Version has the parsing of versions in rd-util/src/lib.rs, which the ids
-- are made with.
--
-- Markup models resctl-demo/src/doc/markup_rd.rs, the parser of the documents: Markup itself has
-- the commands, Markup/Names and Markup/Cmds parse one, Markup/Styled the text of a paragraph, with
-- the tags of resctl-demo/src/doc.rs, Markup/Lines collects paragraphs, and Markup/Docs makes the
-- document of them. A text is split into tokens on fuel, its length, which is enough as each token
-- has a character. CmdState models what the commands do: CmdState itself the state in
-- resctl-demo/src/command.rs and the switches and knobs, CmdState/Files the exchange with the files
-- of the agent, and CmdState/Run the running of commands in resctl-demo/src/doc.rs, with the waiting
-- for the agent left out. CmdState/Shown has what boxes show. The other files of the two directories
-- hold the proofs.
--
-- Logger models the worker of rd-hashd/src/logger.rs, with the file operations, which may fail, as a
-- parameter. Logger/Sorted and Logger/Archives hold its proofs. Of logs with the same time any order
-- may come out of the sorting there.
--
-- Not modelled are the D-Bus, file and terminal code, the floating-point control of rd-hashd and
-- the statistics of resctl-bench.
mod Prelude
pub mod Text
pub mod BTreeMap
pub mod JobSpec
pub mod ReportRing
pub mod ReportData
pub mod Runner
pub mod Side
pub mod Hashd
pub mod CmdState
pub mod Enforce
pub mod Jobs
pub mod Version
pub mod Merge
pub mod Logger
pub mod Markup
pub mod Systemd
pub mod Workqueue

-- ===== src/Lib.antt =====
-- The verification library of the Soroban fuzzing toolkit: the contract cost estimator
-- (soroban-budget), the fuzzing harness (soroban-fuzzer) and the static analyser
-- (soroban-analyzer).
--
-- The parts of the program and where they are modelled:
--
-- * soroban-budget/src/module.rs reads a compiled contract into its imports, bodies and exports, and
--   soroban-budget/src/estimate.rs walks the call tree of every export. Estimator/Module has the
--   data (`HostImport`, `FunctionFacts`, `Module`) and `Module::parse` with `read_body`;
--   Estimator/Estimate has `walk`, `estimate_entry` and `estimate`, and Estimator/Entries the
--   queries of a budget. The third-party parser is the list of payloads that it yields, each with
--   the parser's refusals in it.
-- * soroban-fuzzer/src/storage.rs photographs the storage of a ledger and compares photographs.
--   Fuzzer/Storage/Xdr has the ledger types that it takes apart, Fuzzer/Storage/Render the labels of
--   keys, Fuzzer/Storage/Snapshot the capture and Fuzzer/Storage/Diff the comparison. What the
--   program only prints or compares of a ledger value is a parameter (`Xdr`), and so are the orders
--   of addresses and of values, which are strict total orders (`Ord`).
-- * soroban-fuzzer/src/budget.rs compares the use of an invocation with the limits of a network:
--   Fuzzer/Resources.
-- * soroban-fuzzer/src/report.rs keeps the journal of a case: Fuzzer/Journal. The runner adds a step
--   for every action, the runtime a record for every call, and a report copies the steps.
-- * soroban-fuzzer/src/runtime.rs makes the calls of an action, measures and classifies them, and
--   moves the ledger: Fuzzer/Runtime, with the conversions of results in Runtime/Outcome, `measure`
--   and the calls in Runtime/Call and `LedgerCtl` in Runtime/Ledger. The test environment of the SDK
--   is the parameter `Host`, its state is passed on together with the journal (`Session`), and a
--   call that returns is a function of it. A call that panics inside the host, as it can when the
--   SDK's own limits are in force, is a panic of the action that makes it.
-- * soroban-fuzzer/src/runner.rs runs a case: Fuzzer/Runner/Case, with `run_case`. A target (soroban-fuzzer/src/target.rs) and its invariants
--   (soroban-fuzzer/src/invariant.rs) are records of functions. Every method of a target that a
--   case calls may panic (`Attempt`, and `Ended` where the environment changes), and so may the
--   checks; an invariant's name and `check_initial` are values. A panic is the end of the case as a
--   value, which keeps the journal. Runner/Case/Parts has the target and the invariants,
--   Runner/Case/Checks the checks of the invariants. Fuzzer/Runner/Tally has the closure that `run` hands to the test
--   runner, and the tally of a run.
-- * soroban-analyzer/src/main.rs takes the arguments apart, settles what the command line, a
--   configuration and the defaults say, and runs the analysis up to the exit status:
--   Analyzer/Command/Options has `parse` as a step for each argument, Analyzer/Command/Run has
--   `analyze` and `resolve_config`, and Analyzer/Config/File has soroban-analyzer/src/config.rs. The
--   file system, the readers and the writer of JSON and the texts of paths are parameters.
-- * soroban-analyzer/src/lib.rs analyses many files with a pool of threads, and
--   soroban-analyzer/src/walk.rs finds the files. Analyzer/Paths/Pool has the threads: their shared
--   counter and results, one move of one thread as a function (`tick`), and runs as sequences of
--   moves in any order (`Reaches`). Analyzer/Paths/Analysis has `analyze_paths`, as the relation
--   between what is asked and what a run returns, and Analyzer/Walk/Tree the walk over a tree that
--   stands for what the file system answers at one moment. A file's analysis is a function of the
--   file: a panic of a detector is not modelled.
-- * soroban-analyzer/src/detector.rs, source.rs and suppress.rs check one file: Analyzer/Engine/Defs
--   has the sink and the engine, Analyzer/Source/Lines the line index and the locations, and
--   Analyzer/Suppress the markers. A detector is a parameter, its id and the reports that it makes;
--   the syntax tree is abstract, and what is asked of it, the places of the items, is a parameter.
-- * soroban-analyzer/src/rules.rs, severity.rs and finding.rs are Analyzer/Rules, Analyzer/Severity
--   and Analyzer/Finding; soroban-analyzer/src/baseline.rs is Analyzer/Baseline and
--   soroban-analyzer/src/report.rs is Analyzer/Report, without the renderings.
--
-- The model's conventions. Stateful code passes its state on: `walk` takes and returns the estimate
-- and the set of functions seen, and its path is an argument. Its fuel is the room that `MAX_DEPTH`
-- leaves, so that the model and the code stop at the same depth. Ordered maps and sets are lists in
-- strict key order (Prelude/BTree, Prelude/Sorted), inserted into as the standard library does.
-- A `usize` is a natural number without a bound: the size of a module or of a ledger that fits into
-- memory does not reach one. The sums of `walk` are the exception: they grow with the tree of calls,
-- which can be exponential in its depth, and their overflow, a panic in a debug build and a
-- wrap-around otherwise, is not modelled. A `u32` that saturates does so in the model. `f64` is an interface
-- without laws.
--
-- Not modelled: reading files, the rendering of reports as text or JSON, the generation and shrinking
-- of cases by proptest, the outcome of a run, the ready-made invariants, and the detectors of the
-- static analyser, which take apart the syntax trees of the third-party parser.
pub mod Prelude
pub mod Estimator
pub mod Fuzzer
pub mod Analyzer
pub mod Examples

-- ===== src/Lib.antt =====
-- Foliot: the single-writer event log of a home, and the benchmark that records its runs on that log.
--
-- The program's parts, and the files that model them:
--
--   Log/Event, Log/Check   src/core/log/event.go, catalogue.go: the envelope of a line, the closed
--     catalogue of types, and `check`, which the writer and the reader share.
--   Log/Scan               src/core/log/scan.go: `scan`, `Read` and `Verify`. One round of scan's loop
--     is `step`; its children read a file by the position of its lines and relate the two.
--   Log/Writer, Log/Open   src/core/log/log.go: `append` with `owned`; `Open` with `takeLock`, `load`
--     and `repair`; and `Close`.
--   Log/Data, Log/Fold     src/core/log/fold.go: the data of the benchmark's events, `usable`, `Runs`,
--     `Verified`, `Estimates`, `Fold` and `median`.
--   Bench/Strings          Go's strings functions that the benchmark calls, on native texts.
--   Bench/Profile          src/core/bench/profile.go: the check of a profile, and an arm list.
--   Bench/Plan             src/core/bench/runner.go: `plan`, `resume`, `projection`, `selectTasks`.
--   Bench/Probe            src/core/bench/isolation.go: `uniq`, `answerLines`, `judgeProbe`, `proven`,
--     and what of a run's stream `Reading` of harness.go keeps.
--   Bench/Deny             src/core/bench/isolation.go: `complement`, over a tree of directories.
--   Bench/Columns          src/core/bench/harness.go: `columns` and `inScopeDenials`.
--   Bench/Run, Bench/Sweep src/core/bench/runner.go: `runOne`, `launch`, `admit`, `sweep` and
--     `rateLimitOK`, with `loadControl` of load.go and `Free` of workspace.go.
--   Bench/Command          src/core/bench/runner.go: `Run` up to its sweep, the figures of `Estimate`.
--   Bench/Language         src/core/bench/runner.go: `majorityLanguage`.
--   Bench/Corpus           src/core/bench/corpus.go: `LoadManifest`, `LoadTask` and `checkFiles`.
--   Bench/Verify           src/core/bench/verify.go: `verifyTask` with `historyRefusals` and
--     `addedPaths`; `verifyVisible` with `runVisible`; `Verify` and `Success`; `mergeEnv`.
--   Bench/Certify          src/core/bench/runner.go: `session.verify`, over `Verify`.
--   Bench/Tree             src/core/bench/workspace.go, runner.go: `treeChanges`, `applyChanges`.
--   Bench/Report           src/core/bench/report.go: `Report` and `row`, as figures and refusals.
--   Adapter/Stream         src/adapters/claude-code/stream.go: `Read` and `readResult`.
--   Cli                    cmd/foliot: `run`, `lookup`, `replay`, `benchCommand`, `corpusVerify`, with
--     `Root` of src/core/log/root.go.
--   Common                 what these share: lists and tests on native numbers, Go's signed integers,
--     its maps as association lists, and the interface of float64.
--   Tests                  concrete codecs, numbers, logs and sweeps.
--
-- The log's file is a list of bytes of an alphabet that the codec gives. encoding/json is the record
-- `Json` of Log/Json: a parameter with the laws that the log relies on (an encoded event has no newline,
-- and a line written is decoded as it was). Every call of the operating system is an outcome: `Io` for an
-- append, `OpenIo` for an open, `CloseIo` for a close, so that a theorem over them covers each failure. A
-- log whose later call never comes is what a crash leaves. float64 is the record `Float`: its operations
-- with the law that a number is at least another or less than it; values read from JSON hold no NaN. The readers of the benchmark's data are the record `Readers`.
--
-- A run of the benchmark is `run_one` over `Answers`, what git, the processes, the files and the clock
-- answer in turn; a sweep threads the session, whose log is the list of the entries appended with their
-- seqs: an append is written, or fails before its line is whole, or fails at its sync with the line in the
-- file. What `verify`, `control`, `score` and the machine of `probe` do is a value there. `verify` has
-- its own model, Bench/Certify. A verification of a corpus is over `TaskAnswers` and `SuiteAnswers` in the
-- same way: git is a function from its arguments to its output, a phase or a suite is what its checkout,
-- setup, clock and process answer, and regexp, time and sha256 are the record `Packages`. The first pass is
-- one task after another, since each writes its own result.
--
-- A tree of files is read by path, a path being the list of its names; what the system does of a change
-- that a symbolic link leads elsewhere is a parameter. A line of the adapter's stream is what encoding/json
-- makes of it. A command line is over what package flag makes of it.
--
-- All loops are structural recursion over lists, so no fuel is used. Texts are native, by code points;
-- `len` counts the bytes of their UTF-8. A Go map that the code ranges over is an association list in
-- order of insertion; where the code sorts afterwards, so does the model. int64 seqs that the log assigns
-- are natural numbers, and those it reads are integers; no file has 2^63 lines.
--
-- Not modelled: printing and the text of messages (errors and refusals keep what their messages name), the
-- mutex of a log, concurrent processes but for a lock that is held, file modes, the deadline and the
-- process group of a step, the mirror's clone and fetch, the digest of a task, the report's header and
-- contamination line, what of the adapter launches a worker, panics, the clock's preload, and the scripts
-- around the program.
pub mod Common
pub mod Log
pub mod Bench
pub mod Adapter
pub mod Cli
pub mod Tests

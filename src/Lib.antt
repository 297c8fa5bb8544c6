-- ===== src/Lib.antt =====
-- test161 runs tests of OS/161 kernels and grades submissions of students. This library models the
-- parts of it that decide what runs, in which order, and what it is worth.
--
-- Base: Go strings as lists of bytes, Go maps as association lists, Boolean tests.
-- Runner (runners.go): the dependency runner. The goroutines of `DependencyRunner.Run` and
--   `waitForDeps` act on one record, `Runner.State`: where each test's goroutine stands, what each
--   buffered channel holds, the `waiting` map, the jobs that the manager has, and what was sent to
--   the caller. `Runner.step` is one receive of a goroutine or one case of the main goroutine's
--   `select`; an interleaving is a list of such events. Which result a job has is the event's.
-- CommandLine (run.go): `splitArgs`, `splitCommand` and `replaceArgs` on bytes.
-- Grading (run.go, commands.go): `Command.evaluate` as `Grading.evaluate`, with the matching loop
--   `unmatched` and the search for partial credit. `none` is a panic, on a line without a command.
--   The float32 expression for partial points is the parameter `credit_points`, with the laws of
--   `Grading.Points.CreditLaws` where a theorem needs them.
-- SecureLine (run.go, logger.go): `outputLineComplete`. `secure_parts` finds the match of the regular
--   expression of secprintf that Go finds, the greedy one. HMAC-SHA256 is the parameter `mac`.
--   `SecureLine.Receive` is `Recv` of logger.go, without the time stamps.
-- TestRun (run.go): the loop of `Test.Run`. A `Turn` is what sys161, the monitor and the stats do while
--   one command runs, and `TestRun.turn` is the body of the loop. `TestRun.Test` keeps
--   `t.Commands` as the commands before, at and after `t.commandCounter`. `TestRun.Leaks` is
--   `evaluateMemLeaks`; the leaked bytes and the texts of statuses are left out.
-- InitCommands (conf.go): `initCommands`, with the stack of configurations. The loop's fuel is the
--   source's own MAX_EXPANSION_LOOPS. The source compares pointers to configurations; a
--   `ConfPointer` says whether it is the one to KERNEL_COMMAND_CONF, since all others are fresh.
-- Templates (commands.go): `expandLine`, `expandOutput` and `fixDefaults`. text/template is the
--   parameter `render`. The fuel of `expand_output` bounds the depth of its calls: one more than the
--   known commands is enough, since each call adds one of them to the ids on the way.
-- Graph (graph/graph.go): the graph and `TopSort`. A pointer to a node is the node's key, which is also
--   its value. The fuel of `top_sort` is the number of nodes, since each round takes one node that
--   was not taken before. `range` is the order in which Go visits the keys of a map.
-- Groups (groups.go): `GroupFromConfig`. A `*Test` is its id in a store of tests, and a map from ids to
--   tests is a list of ids. The workers report in the order of their input, which only shows in the
--   order of errors. The fuel of `dep_nodes` bounds the depth of the search: one more than the number
--   of nodes is enough, since `TopSort` found no cycle. doublestar.Glob is the parameter `glob`, and
--   what the workers of `load` read is the argument `loaded`.
-- Paths: the functions of Go's path and path/filepath that Groups uses.
-- Targets (target.go): the targets with their links by name; `Targets.Apply` is
--   `TargetTest.applyTo`, on the commands with the ids they had at the start. A test that
--   `applyTo` leaves behind with an error is not used by its caller and left out.
-- TargetGroup (target.go): `Target.Instance`, which makes a group of tests (Groups) and applies the
--   targets to them (Targets). The commands of a test are an argument, by its id.
-- Manager (manager.go): the test manager. An event is what a goroutine of `runOrQueueJob` does
--   while it holds the lock: the first look at the capacity, a recheck after a wake-up, and the end of
--   a test with the goroutine that `Signal` wakes. The capacity does not change.
-- Submissions (submission.go): `split`, and the loop of `Submission.Run` over the results that the
--   runner reports, on the submission and its parts. The order of results is an argument.
-- Students (submission.go): `Student.updateStats`, with the entries sorted by name. Go's float64 is the
--   parameter `floats`.
-- Admission (submission.go, test161-server/submissions.go): which requests the server admits. Validate
--   checks the request and authenticates its users; the database is an argument, what Retrieve finds for
--   an email. IsStaff keeps what it finds with the student. The server adds the version of the client
--   (Version), the status of its submission manager (Intake) and the lists of disabled targets.
-- NewSubmission (submission.go): `NewSubmission` up to the lock of the students: a valid request
--   (Admission) for a target becomes a submission, with the group of the target (TargetGroup).
-- Intake (submission.go, manager.go): the submission manager with the locks on students. An event is
--   the last part of `NewSubmission`, under the lock of the users; a part of `SubmissionManager.Run`
--   between its waits; or the end of `Submission.Run`, whose last deferred call unlocks the students.
-- Stats (stats.go): the counters of `Stat` and the window of the monitor. A simulated time is the bits of
--   a float64, and the comparison that `Append` and `Shift` panic on is an argument.
-- Version (version.go): `ProgramVersion.CompareTo`.
--
-- The parts meet in their data: Runner reports results of the type `TestResult`, which TestRun
-- gives a test and Submissions adds up; Grading evaluates the commands that Targets gives points, that
-- Templates gives expected lines and that SecureLine gives trusted output.
--
-- Words: `uint` arithmetic wraps at 2 ^ 64 where it is written out (points of targets and
-- submissions, counters); lengths and counts of jobs are not near it. Strings are bytes.
--
-- Not modelled: reading files and YAML, merging configurations (mergo), git and builds, the
-- pseudo-terminal of sys161, MongoDB, HTTP and printing.
mod Base
pub mod Runner
pub mod CommandLine
pub mod Grading
pub mod TestRun
pub mod Targets
pub mod Manager
pub mod Templates
pub mod SecureLine
pub mod Submissions
pub mod Version
pub mod Stats
pub mod InitCommands
pub mod Graph
pub mod Paths
pub mod Groups
pub mod Intake
pub mod Students
pub mod Admission
pub mod TargetGroup
pub mod NewSubmission

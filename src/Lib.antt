-- ===== src/Lib.antt =====
-- lookfile: a library that compiles a style specification, generates image artifacts, verifies them
-- with rules, repairs them in bounded rounds and keeps each job in an event log. Paths below are
-- relative to the repository's root.
--
-- The parts and the files that model them:
--
-- * src/specstyle/domain/ is Domain/: the enums (Enums), the identifiers with their patterns
--   (Identifiers) and the content references (Artifacts). A Python `str` is the list of its code
--   points (Text), a float is Float, and an index that the code does not bound is an integer
--   (Integers).
-- * src/specstyle/verification/rule_models.py is Verification/RuleModels and Verification/Reports:
--   each `__post_init__` is a function that returns the object or the error. A report holds
--   artifacts, rules and results, and its constructor checks that they fit.
-- * src/specstyle/verification/routing.py is Verification/Routing: `decide_artifact` reads a report
--   and routes one artifact to approval, review or rejection.
-- * src/specstyle/workflow/job_models.py is Workflow/JobModels and Workflow/Events: jobs, events
--   with their payloads, snapshots and states.
-- * src/specstyle/workflow/state_machine.py is Workflow/StateMachine: the tables, and `replay_events`
--   as a loop over the local variables of the function (Progress).
-- * src/specstyle/workflow/job_store.py is Workflow/JobStore: the directory of one job is nothing, or
--   a snapshot and a list of events (Stored); every operation is a function from that content to an
--   error, or to the new content and the result. The store calls `replay_events` and
--   `validate_transition` on what it reads and on what it is asked to write.
-- * src/specstyle/workflow/_job_store_transaction.py is Workflow/Transaction: the directory of a job as
--   three files with their swap slots (Directory), runs against a file system that can fail or stop at
--   every call (Runs), `read` (Reading), the calls of _job_store_fs.py (Writing), the steps that put a
--   file in place (Publishing), `_commit_clean` (Clean), and `commit` and `genesis` (Commit). The proofs
--   are triples (Triples) on the calls (Places, Landings), on the steps (Cleaning, Marking, Committing,
--   Beginning) and on `commit` (Atomic, Outcomes).
-- * src/specstyle/repair/ is Repair/: the value objects (Models), the scales of a request as numbers
--   (Scales), what repair reads of a request and its plan (Requests), the patch of each action and
--   the child request (Actions), the order of the gates and the blocking rules (Context), the choice
--   of a repair (Policies), the test of an improvement (Guardrails), the history that is replayed when
--   one is made (History, with the comparisons of Comparison and Keys) and the loop that asks for a
--   generation and takes its result (Loop). Selection and loop call the routing, and all read the
--   reports of Verification/Reports.
-- * `_run_item` of src/specstyle/workflow/orchestrator.py is Workflow/Orchestrator: it drives the job
--   store and the repair loop for one artifact, and the generation and the verifier that are handed in
--   are parameters that may return anything or raise. What a stage raises leaves the job where the last
--   event put it (Cursor, Persisted). Its `while True` runs on fuel: more than the rounds that the policy allows
--   are enough (Ends).
-- * src/specstyle/workflow/production_batch.py is Workflow/Batch: the cohort that a batch freezes and the
--   checks of its plan (Cohort), and `run_atomic_production_batch` with the calls it makes of its
--   services (Run). A run is the list of its calls and what it returns or raises. The journal, the
--   callback, the publisher and the verifier are parameters that may return anything or raise, and so
--   are the hashes of the three JSON documents. It reads the same plan and rules as the repair, and
--   routes each artifact by `decide_artifact`.
-- * src/specstyle/evaluation/stop_contract.py is Evaluation/StopContract: the event that ends the attempts
--   of one arm of the evaluation, and the candidate that the arm may name. An index error of the code,
--   on a ledger without an attempt or without a generated one, is a refusal of the model.
--
-- A scale of a request is a float in [0, 1]: the number of its units of 2^-1074, exactly, and its
-- sums round to the nearest double with ties to even. The rounding counts halvings on fuel 1100,
-- which suffices for every number below 2^1153, and the sum of two scales is at most 2^1075. A
-- request is generic in the materials that a repair carries on, a plan in the pins and thresholds
-- that a repair only compares.
--
-- Errors are values (Prelude/Results): `domain_error` and `infrastructure_error` carry the message
-- of the exception, less a value that the code prints in it, `other_error` is a KeyError or an
-- AttributeError, and an `except` clause that raises one error in place of others is `relabel` or
-- `corrupt`. The tests of the code on Python
-- types, and those on a value forged around its constructor, are the types of the model. Numbers
-- that the code refuses below zero are natural numbers. The other loops are structural
-- recursion and need no fuel.
--
-- A transaction runs with one fault at most for each call: an error or the end of the process, before
-- the call, after it, or after some bytes of a write. The calls take effect in the order in which they
-- are made: what a loss of power does to writes that are not yet on disk is not modelled. The directory
-- is the job's own, under its lock, so nobody else changes it. A marker file holds a marker or bytes
-- that are none, the identity of a file is its inode, and SHA-256 is a parameter. A read that fails raises
-- the input or output error, where the code makes a CorruptStore of some.
--
-- The operations of job_store.py work on the decoded content of a directory, as one critical section
-- under the job's lock; descriptors, locks and the parsing of a marker are not modelled, and the size of
-- an encoded log is an argument of `append_event`. The seed of a request and the rebuilding of forged
-- objects are not modelled, and the two hashes of a request are parameters. The image metrics, the model
-- backends, the configuration and evidence files, the export archives and the user interface are not
-- modelled, since they are mostly numeric code of other libraries, or input and output.
pub mod Prelude
pub mod Domain
pub mod Verification
pub mod Workflow
pub mod Evaluation
pub mod Repair
mod Examples

-- ===== src/Lib.antt =====
-- AI Agent Security Lab: the laboratory that attacks simulated agents, detects, judges and defends
-- against the attacks and measures the result, and the platform that queues, runs and reports such
-- evaluations for several tenants. The paths below are those of the repository.
--
-- The program's parts. A target (src/ai_agent_lab/target.py) is a simulated agent that routes a text
-- to one of its tools by regular expressions, which gives a trace. The detector (detector.py) looks
-- for rules of its own in a trace, asks a model for a second verdict, and fuses both. The defender
-- (defender/) blocks a trace by four components over the policies of policy.py. The oracle
-- (oracle.py) derives the effect of a trace on a simulated state and decides whether an attack has
-- succeeded; the judge (judge.py) is a second opinion, of a model or offline. The corpora of attacks
-- and benign samples (attacks.py) and the suites of tasks (task_suites.py) go through these parts in
-- runner.py, metrics.py, benchmark_metrics.py and scan.py. The techniques that the runner simulates
-- are in a registry (atlas/).
--
-- On the side of the platform, a request of a user is authenticated (auth.py) by an API key or by a
-- token of an OIDC issuer, which gives a principal with a tenant and roles. The authorized service
-- (application/authorized.py) asks for a permission and calls the service (application/service.py),
-- whose use cases work on the objects of domain/ through the repositories of storage/, each bound to
-- one tenant. Workers take runs from the queue by `process_next` under a lease with a fencing token,
-- evaluate the benchmark, write the reports to the store of files and complete the run in one
-- transaction.
--
-- Which file models which part, below src/ai_agent_lab/:
--   Prelude: Boolean tests, lists, Python's `str` as code points, exceptions as values, tables as
--     lists of rows, and instants in microseconds.
--   Regex: the part of Python's `re` that the program uses: expressions as a data type, a search
--     that backtracks as `re` does, with groups and spans, and an independent meaning (Meaning).
--     Notation has the abbreviations in which the patterns are written.
--   Values, Datatypes: JSON values with `json.dumps`, `str` and `repr`; datatypes.py.
--   Target: target.py; Registry has the built-in agents and their names.
--   Detector: detector.py; Rules has the tables of patterns, Fusion the detector that asks a model
--     and the fused one.
--   Defender: defender/pipeline.py; Policy and Components are the files of these names.
--   Judge: judge.py; Scan has the search for a JSON object in a reply.
--   Evaluation.Oracle, Evaluation.Effects, Evaluation.Benchmark: oracle.py and benchmark_metrics.py.
--   Attacks: attacks.py; Scenarios and Benign are the corpora.
--   Tasks: task_suites.py, with the loop of benchmark_metrics.py in Benchmark.
--   Runner, Metrics, Scan: runner.py, metrics.py and scan.py.
--   Atlas.Registry: atlas/__init__.py and atlas/registry.py.
--   Domain.Entities, Domain.Runs, Domain.Artifacts: domain/entities.py, runs.py and artifacts.py. A
--     `post_init` is the call of a constructor: the object, or what it raises.
--   Auth.Roles, Auth.Tokens, Auth.Keys, Auth.Oidc, Auth.Composite: auth.py and
--     storage/auth_repository.py.
--   Storage.Database: storage/models.py and database.py: the five tables with their constraints, and
--     a session as a function from a database to a result and a database, which a transaction rolls
--     back when it raises.
--   Storage.RunRepository: storage/run_repository.py, one function per method. Its History has the
--     sequences of units of work of any workers.
--   Storage.Repositories, Storage.ArtifactRepository, Storage.ArtifactStore: storage/repositories.py,
--     artifact_repository.py and artifact_store.py.
--   Application.Work, Application.Sessions, Application.Service, Application.Authorized: the
--     application layer. Sessions has the transactions of `process_next`, Service the whole call.
--   Observability: the registry of metrics of observability.py.
--
-- Choices. An instant is a number of microseconds and whether a zone is attached; the instants are
-- natural numbers, so that a sum never passes the end of the calendar. Strings are lists of code
-- points; upper and lower case, word characters, digits and spaces are those of ASCII, and a pattern
-- with IGNORECASE matches letters of either case. Most loops are structural recursion. The
-- repetition of a regular expression has the characters that are left as its fuel, which is enough
-- since an iteration takes one at least; the loop that selects payloads has a round for each
-- iteration. A confidence is a fraction, an infinity or NaN. A statement of SQL runs as one step, as
-- one unit of work does: the histories interleave units of work, not the statements inside one.
-- Identifiers, the clock, latencies, random bytes and random samples are arguments or left out.
-- `json.loads`, `float` and `int` of a JSON value, the durations of requests, urllib.parse,
-- ipaddress, HMAC, SHA-256, `jwt.decode` and the replies of models are parameters. A text has no lone surrogate, so that its
-- encoding as UTF-8 does not raise; no entry of the store of reports is a symbolic link; the system
-- may refuse to write a report, and the database the last read of a run, and no other call of theirs.
--
-- Not modelled: the texts of prompts and of hints; the choice of a model's
-- client from the environment; the rendering of reports as Markdown and JSON, and quotients of counts;
-- the execution plans of attack_contracts.py; the orchestrator and the agents that talk to each
-- other; the canned scenarios of scenarios/; engines and connections of SQLAlchemy and the
-- migrations; the HTTP API and the command line, which are adapters; backups; the sandbox, which
-- starts processes.
pub mod Prelude
pub mod Regex
pub mod Values
pub mod Datatypes
pub mod Detector
pub mod Defender
pub mod Target
pub mod Judge
pub mod Attacks
pub mod Runner
pub mod Tasks
pub mod Metrics
pub mod Scan
pub mod Domain
pub mod Auth
pub mod Storage
pub mod Application
pub mod Evaluation
pub mod Atlas
pub mod Observability

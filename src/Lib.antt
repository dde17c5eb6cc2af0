-- ===== src/Lib.antt =====
-- SahuCodeX: the judge, and the services of its API that keep what the judge finds out.
--
-- The program is an online judge. The API (apps/api/app) takes submissions and keeps users, problems,
-- contests and discussions in a database; the judge worker (apps/judge/sahujudge) claims a submission,
-- runs it on the tests of its problem inside a sandbox, and writes the outcome back.
--
-- Judge.Checkers (apps/judge/sahujudge/checkers.py): the three checkers and their registry, on the
--   Python string methods of Strings.
-- Judge.Languages (languages.py): LanguageSpec and the ten entries of LANGUAGES; a multiplier of time
--   is a number of halves.
-- Judge.Sandbox (sandbox.py): the protocols Sandbox and SandboxSession, one record of operations over
--   the state of everything outside the judge. The engine takes it as a parameter.
-- Judge.Engine (engine.py): verdict_for, order_tests, judge_tests and run_custom. judge_loop is the loop
--   of judge_tests, judge_case its body, with_session the context manager around it. Executions is what
--   an outcome says of a run of the sandbox, Order the order of the tests.
-- Judge.Supervisor (supervisor.py): classify and the polling loop of cmd_run. One Observation is what a
--   turn of the loop sees of a child that has not ended, an Ending what is known when it has.
--   Judge.Supervisor.Replies is what it writes at the end.
-- Judge.Docker (docker_sandbox.py): the command lines, parse_supervisor_output, and in Judge.Docker.Driver
--   DockerSession and DockerSandbox as an implementation of Judge.Sandbox. run_command (process.py), the
--   clock and uuid4 are parameters. Json and Utf8 are what it uses of Python's json and of bytes.decode.
-- Judge.Pipeline (pipeline.py): _claim, record_progress, _persist, _fail and judge_submission over the
--   tables of Api.Tables. What other workers commit between two statements of a transaction is a
--   function, meanwhile; a World holds the database, the events, the cache and the sandbox. Trial is
--   what a submission is judged on.
-- Judge.Runs (run_code of pipeline.py, modules/submissions/runs.py): a run, and its record in Redis; the
--   API's side of it, run_for and get_run, is Api.Runs. What others do while a run awaits, after the load
--   of its record, after the store of RUNNING and after the judging, is a record of functions, Between.
-- Judge.Reaper (reaper.py): fail_stale_submissions.
-- Judge.Workers: the API, any number of workers and the reaper on one database; a step is one of their
--   transactions, and they come in any order.
-- Api.Tables (the models.py of apps/api/app/modules/submissions, problems and profiles): rows as records,
--   tables as lists of rows, ids and times as numbers.
-- Api.Profiles (modules/profiles): record_streak, and evaluate_achievements with its eight checks.
-- Api.Contests (modules/contests/service.py): the phase of a contest and the standings;
--   Api.Contests.Entering is registering and submitting.
-- Api.Community (modules/community/service.py): cast_vote and remove_vote; in Threads discussions, comments,
--   locks, reports and notifications. An id that is taken is not refused as the database would.
-- Api.Submissions (modules/submissions/service.py): validate_source and create_and_enqueue; the queue is
--   a parameter, a function that may fail and may change the world before it returns.
-- Api.Problems (modules/problems/admin_service.py): validate_problem, change_state, slugify and _apply;
--   Api.Problems.Editing is create_problem, update_problem, change_state and create_tag on the tables.
-- Api.Addresses (core/net.py): client_ip_from_scope.
-- Api.Limits (core/rate_limit.py): RateLimiter.hit on the key of one client, and enforce over all keys.
-- Api.Auth (modules/auth, core/security.py, modules/users/service.py): AuthService with all its methods
--   over an AuthWorld of tables, denylist, limiter keys and mails; Api.Auth.Access holds the checks of
--   deps.py. Hashing, signing and the Unicode tables are the record Externals; what a method draws at
--   random is the record Fresh.
--
-- Numbers are native; a Python int that may be negative is a ℤ, a text is the list of its code points,
-- bytes are numbers. An exception is a raised outcome. All loops are structural recursion, so no fuel is
-- needed but in the printing of a number, where n + 1 turns suffice for n. SQL statements act on whole
-- lists of rows (Prelude.Tables); a transaction is one function, and reads the clock once.
--
-- Not modelled: the Vercel driver, the janitor and the image build of the Docker driver, the wiring of
-- Celery and FastAPI, the cookies and routes of the API, the queries that only list, the assistant, the
-- web frontend, migrations and deployment.
-- Logging and metrics are left out everywhere, and the database is taken to answer every statement.
pub mod Prelude
pub mod Strings
pub mod Utf8
pub mod Json
pub mod Judge
pub mod Api

-- ===== src/Lib.antt =====
-- Sirius 27: the backend of a school (Python, FastAPI, SQLAlchemy, PostgreSQL, Redis).
--
-- The backend answers HTTP requests. A route (backend/app/api/v1) runs its guards (api/deps.py),
-- calls a service (backend/app/services), and a service reads and writes tables
-- (backend/app/models) inside one session (core/database.py). A job is a row and a message on a
-- Redis stream (queue/publisher.py) that a worker outside this model reads. A start (main.py) makes
-- the first admin and the demo contents (seed_demo.py), where the settings ask for them.
--
-- Files and code, from backend/app:
--   Models, Database          models/*.py: a record per table, the database as a record of lists
--   Schemas                   schemas/*.py: the requests and responses, and the checks on them
--   Sql                       the clauses of SQL that the services write, on lists
--   Exec, Session             exceptions beside a state; core/database.py: a transaction
--   Postgres                  vault.encrypt_pii and vault.decrypt_pii of the migration
--                             20260613_a1b2c3d4e5f6, and _NAME_EXPR of the services
--   Config, Security          core/config.py, core/security.py
--   Auth                      services/auth_service.py, api/deps.py, api/v1/auth.py, users.py
--   Learning                  services/learning_service.py, api/v1/courses.py, groups.py,
--                             enrollments.py, schedule.py, portal.py
--   Privacy                   services/privacy_service.py, api/v1/privacy.py
--   Jobs                      services/job_service.py, queue/publisher.py, api/v1/jobs.py, data.py
--   Seed                      seed_demo.py: the demo accounts and contents
--   App                       main.py, core/redis.py: a start of the API and its health check
--   Synthetic                 tools/gen_synthetic_data.py, from the root: made-up CSV files
--   Migrations                backend/migrations/versions, from the root: three migrations with the
--                             catalogue that they change, and the encryption of columns by a fourth
--   Tests                     concrete data, and a run of each theorem that has hypotheses
-- A function has the name that it has in the source, without a leading underscore; a handler that
-- shares its name with a service function ends in _route. What proofs need stands below the module
-- of the code, in a file named for what it proves.
--
-- State. A session holds the tables as committed and as its transaction sees them, one instant for
-- now(), and a supply of UUIDs, which are numbers. commit copies the pending tables over the
-- committed ones, rollback the other way, and get_db does one of the two at the end of a handler.
-- A statement that a constraint forbids raises IntegrityError and writes nothing. The unique email
-- and the unique and foreign keys of enrollments are written out; a UUID that is drawn is taken to
-- be unused by the primary keys, and where a theorem depends on that it is a hypothesis. The seed
-- draws from a generator of its own beside its session, a start has Redis beside the seed, and a
-- migration changes a list of tables, each with its columns, constraints, indexes and privileges.
--
-- Parameters, code that the repository calls and does not hold: pgcrypto and the collation of
-- text (Postgres), pwdlib, PyJWT and uuid (Packages), Python's round of a quotient (Rounding),
-- the answers of random and of faker by the number of the draw (Random, Source), and whether Redis
-- answers (a field of its state) and whether PostgreSQL does (a field of the process, for a start and
-- the health check; a request finds it). Each has an instance under Tests.
--
-- Bounds. Every loop of the code goes over a list and is a recursion on it: no fuel is used.
-- Numbers are those of Python and of counts, without a width.
--
-- Not modelled: JSON and ISO texts, the quoting of CSV, the syntax of emails, headers and details of
-- an HTTP error beside its status, CORS, logging, a connection that is lost within a request, the
-- migrations 20260613_a1b2c3d4e5f6 (but for its SQL functions and the columns that it encrypts) and
-- 20260614_b2c3d4e5f6a7, the default privileges of schema vault (db/init/01-init.sh, from the root: the
-- privileges of a table are those that the migrations grant), the worker and the frontend. Rows that
-- tie in ORDER BY stay in the order of the table, and a SELECT without ORDER BY gives that order.
pub mod Prelude
pub mod Sql
pub mod Models
pub mod Database
pub mod Exec
pub mod Session
pub mod Schemas
pub mod Postgres
pub mod Privacy
pub mod Config
pub mod Security
pub mod Auth
pub mod Learning
pub mod Jobs
pub mod Seed
pub mod App
pub mod Synthetic
pub mod Migrations
pub mod Tests

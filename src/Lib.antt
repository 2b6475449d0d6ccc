-- ===== src/Lib.antt =====
-- Fuze: the backend of a self-hosted music player (src/backend): a FastAPI service over PostgreSQL,
-- with Celery workers that download tracks.
--
-- The program's parts and the files that model them:
--
--   Core        core/exceptions.py, core/enums.py, core/instance_config.py and the errors.py of the
--               modules: the exceptions as values, and the configuration, with Config/Stored on
--               settings that are validated again. RateLimit is core/rate_limit.py, and
--               RateLimit/Quota what it grants a client in a window. Settings is core/settings.py,
--               and Settings/Hardening what its validators guarantee of the object store's URL.
--   Integrations
--               integrations/storage.py (Storage, with Upload on what an upload leaves),
--               integrations/cache.py (Cache, with Owner on the holder of a lock) and
--               integrations/spotify.py (Spotify, with Window on the retry window).
--   Database    what SQLAlchemy gives: the tables, a session with its uncommitted state, COMMIT and
--               ROLLBACK, and the statements (`update_where` is UPDATE, `select_one` a query by key).
--   Tracks      modules/tracks/repository.py (Rows, Statements, Repository), modules/tracks/service.py
--               (Service for `TracksService`, Processor for `TrackDownloadProcessor`) and
--               worker/tasks.py (Worker). Invariant and Table say what holds of a row and of the table,
--               Upsert is about the row of an upsert, Steps puts the transactions into a step
--               relation, and Ownership, Recovery, Budget, Lifecycle, Acquire, Failing and Outcome prove what
--               the download queue promises.
--               Streams models the methods that hand out stored media, Resolve the choice of a
--               video, Search and Providers (modules/tracks/providers.py) the search and its cached
--               calls, and Reconcile the comparison of the table with the object store.
--   Playlists   modules/playlists/repository.py (Repository), modules/playlists/service.py (Service)
--               and modules/playlists/schemas.py (Schemas). Order says what holds of the table of
--               items, Reorder, Shown and Items follow the two passes of a reordering to what is
--               shown then, and Access and Moves prove what single methods do. Shelf, Statements,
--               Imports, Requests and Invariant are about sequences of requests.
--   Users       modules/users/repository.py (Repository) and modules/users/service.py (Service).
--               Counting, Admins, Outcomes and Managed are about the last active administrator.
--   Auth        modules/auth/repository.py (Repository), modules/auth/service.py (Service),
--               core/dependencies.py (Access, with the access token that AuthX, an argument, verifies in
--               front of it) and core/security.py (Refresh). Guard is about the
--               users who pass the guard of the routes, Sessions about the rotation of a refresh
--               token, Logout about the end of a session and Login about its start.
--   Admin       modules/admin/schemas.py and modules/admin/service.py: the JSON of the settings
--               (Json), the audited difference (Diff), the change of the settings (Service) and the
--               cache of snapshots (Cache). Update is about a change and a read, Secrecy about
--               the values of the credentials.
--   Cli         src/cli/commands/rescue.py (Rescue, Diagnosis, Env, Legacy) and
--               src/cli/commands/users.py (Keys), whose commands write to the tables of the service.
--               Recovery, Exits, Import and Bootstrap are about single commands, Keeps and Governed about
--               sequences of commands and requests.
--
-- A method of a repository or a service is an `Exec A`: it takes the database, `Db`, and returns a
-- value or the exception with the database as it is then. `current` is what the session sees and
-- `committed` what other sessions do; a transaction ends with `commit` or `rollback`. The rows of a
-- table are a list in the order of insertion, a primary key is drawn from `sequence`. A UUID is a
-- number and a timestamp is a number of seconds. Messages to the Celery broker are collected in
-- `messages`.
--
-- The services call one another as in the program: a request runs `acquire`, which queues a row and
-- publishes a message; a worker takes the message with `download_track`, which claims the row with the
-- task id, runs the media pipeline and reports; the beat runs `recover_stale_downloads`. Since each
-- transaction locks the rows that it writes, an interleaving of processes is a sequence of steps.
--
-- The rows are numbered by the sequence where the program uses UUIDs, and the methods of a service that
-- ends a request share the session of the request. Fixtures holds the rows that the tests of the
-- components (Tracks/Tests and so on) use.
--
-- What comes from outside is an argument: the clock, the random task id, the answers of the providers,
-- of the storage and of the broker, the hashes and tokens of the cryptographic libraries, base64, TOML
-- and ILIKE. Changing the case of a text and stripping it are written out for ASCII. The clock of the
-- cache of snapshots counts milliseconds. Every function is by structural recursion, but `digits`, which writes a number in
-- decimal: its fuel is the number and one more, and more fuel changes nothing. The scores of the search
-- for a video are fractions of a common unit, since the program's are floats; the clients of YouTube
-- and Yandex, `urlparse`, difflib's ratio and the normalization of Unicode are arguments. The object
-- store is an argument with a state of its own, and so is what a search reads from Redis while it
-- waits for another process.
--
-- Not modelled: the HTTP layer (routers, cookies), the adapters for YouTube and Yandex, Alembic's
-- migrations, the commands that start Docker or Alembic, `rescue provider-key` (a dialogue with Yandex),
-- the deployment scripts and the frontend.
pub mod Prelude
pub mod Core
pub mod Cli
pub mod Integrations
pub mod Users
pub mod Auth
pub mod Tracks
pub mod Playlists
pub mod Admin
pub mod Database
pub mod Fixtures

-- ===== src/Lib.antt =====
-- A gateway in front of an API, with detection of abuse: FastAPI, Redis and PostgreSQL (app/).
--
-- A request passes a stack of middleware: an identifier (app/middleware/request_id.py), the check
-- of a token (auth.py), two Bloom filters in memory (bloom_filter.py), a sliding window in Redis
-- (rate_limit.py), a score of failed logins and of regular timing (abuse_detector.py) and the log
-- of would-be blocks (shadow_mode.py); behind it are the routes (app/routers). A worker reloads a
-- Bloom filter every minute. All share one Redis, and all but the worker one object `app.state`.
--
-- Which file models which part; a definition has the name of the function or the method:
--   Prelude          tests on numbers, lists, decimal texts, keys built from a prefix
--   Redis            the server: an interface of commands and laws (Redis.antt), what a key holds and
--                    what each command makes of it (Redis/Entry), and a store that meets the laws
--   Platform         pybloom, jose, bcrypt, the table of users, json, uuid4: interfaces with laws, and
--                    an instance of each (Platform/Reference)
--   Config, Text     app/config.py; `startswith`, `split`, `lower` as far as they are used
--   World            what the coroutines share (World.antt), requests and responses (World/Http), and
--                    the steps of a coroutine (World/Exec)
--   Core             app/core/redis_client.py, security.py and exceptions.py
--   Services         app/services, a module for each file: rate_limiter.py (RateLimiter),
--                    abuse_detector.py (AbuseDetector), graduated_response.py (GraduatedResponse),
--                    bloom_filter.py (BloomFilter), shadow_logger.py (ShadowLogger)
--   Middleware       app/middleware, a module for each file; Middleware/Chain is the stack that
--                    app/main.py builds, with the handlers of HTTP errors
--   Dependencies     app/dependencies.py
--   Routers          app/routers, a module for each file, and the routes of app/main.py (Main)
--   Workers          app/workers/bloom_sync.py, and the startup of app/main.py
--   App              app/main.py as a whole: its endpoints behind the stack, and what happens to a
--                    process (`Event`). App/Commands to App/Stack say once what a request may do to
--                    Redis, to the filters and to the table of users (a `Contract`); Lasting, Typed,
--                    Answers, Limits, Readmit and Restart fill it. App/Cluster has several processes
--                    that share one Redis, each with its own memory, and are started again
--   Migrations       migrations/versions (Versions), migrations/env.py, and the model of
--                    app/models/user.py as a table (Model)
--   Tests            examples
--
-- State and errors. A coroutine is a function from a `World` to a result and the world after it; a
-- raise keeps what was written before it, as in Python. The world holds the clock in milliseconds,
-- whether Redis answers, the store, the two Bloom services (of `app.state`, and of the worker),
-- the users, the counters and observations for Prometheus in their order, the gauges, what the
-- pool of the database answers, and how many random values were drawn. A dispatch of a middleware
-- takes `call_next` as an argument, any coroutine. bcrypt may refuse a password (`password_error`,
-- its ValueError), and the database may raise IntegrityError, DataError, OperationalError or another
-- exception at a query or at a commit (`database_error`); whether they do is any function of what they
-- are asked, and for the database of the moment too.
--
-- Simplifications. Each command, pipeline or script of Redis is one step; the script is atomic, as
-- Redis has it. Within one handler no other coroutine runs between two steps; runs of many calls
-- in any order are explicit lists (Services/RateLimiter/Window, and `run_moves` in App/Cluster, where
-- each request is served to its end before the next event). The gateway and Redis read one clock, which
-- only `asyncio.sleep` moves within a handler, and Redis is up or down for the whole of it. The
-- floats are fractions: `x >= 0.7` of a ratio is `7 * threshold <= 10 * count`, and a standard
-- deviation is compared by its square, without rounding. A counter that is no plain decimal number
-- raises ValueError. bcrypt takes no time, and the `refresh` after a commit finds the new row. A
-- command on a key that holds another type leaves it alone, where Redis raises.
--
-- Loops and bounds. `for` loops recurse on their list; the loop of the retries recurses on the
-- rounds that are left, five at the start; the loop of the worker, which never ends, takes the
-- number of its rounds. Numbers are unbounded, as in Python; a subtraction stops at zero only
-- where the code cannot go below (gaps of sorted scores, `limit - count - 1` under `count <
-- limit`), and the bound `now - window * 1000`, which can, is an integer.
--
-- Not modelled: logging, the text of /metrics, shutdown (which cancels the worker and closes the
-- client), routing and validation by FastAPI, the sessions of the database beyond a commit, the
-- tests and the load scenarios. The libraries are parameters, with the laws that the code relies
-- on: a filter has what was added to it, bcrypt accepts the hash that it has made, an inserted user
-- is found, an event that json has written is read back, the documented effect of each command of
-- Redis, SCAN visits every living key with the prefix and no other, perhaps more than once, and what
-- each operation of Alembic makes of a schema.
pub mod Prelude
pub mod Redis
pub mod Platform
pub mod Text
pub mod Config
pub mod World
pub mod Core
pub mod Services
pub mod Middleware
pub mod Dependencies
pub mod Routers
pub mod Workers
pub mod Tests
pub mod App
pub mod Migrations

-- ===== src/Routers.antt =====
-- app/routers/ and the routes of app/main.py; FastAPI's matching of paths is not modelled, so a
-- route is a handler that takes its parameters first.
pub mod Admin
pub mod Auth
pub mod Gateway
pub mod Main

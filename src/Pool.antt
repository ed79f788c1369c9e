-- ===== src/Pool.antt =====
-- The connection pool of psycopg3/psycopg3/pool/base.py and psycopg3/psycopg3/pool/pool.py.
pub mod Client
pub mod Attempt
pub mod State
pub mod Requests
pub mod Maintain
pub mod Control
pub mod World
pub mod Balance
pub mod Handover
pub mod Shut
pub mod Growth
pub mod Idle
pub mod Tests

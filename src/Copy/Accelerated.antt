-- ===== src/Copy/Accelerated.antt =====
-- psycopg3_c/psycopg3_c/_psycopg3/copy.pyx: the formats of the rows that COPY moves, in C.
pub mod Format
pub mod Parse
pub mod Binary
mod Tests

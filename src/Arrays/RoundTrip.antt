-- ===== src/Arrays/RoundTrip.antt =====
-- `ArrayLoader.load` of psycopg3/psycopg3/types/array.py reads back what `ListDumper.dump` writes.
mod Read
pub mod Run

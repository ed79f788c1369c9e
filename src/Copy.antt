-- ===== src/Copy.antt =====
-- psycopg3/psycopg3/copy.py: the formats of the rows that COPY moves, and the buffer of a writer.
-- A row is what the dumpers make of it and what the loaders are given: bytes, or nothing for NULL.
pub mod Text
pub mod Binary
pub mod Formatter
pub mod Escaping
pub mod Accelerated

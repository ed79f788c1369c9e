-- ===== src/Adapt.antt =====
-- `AdaptersMap` of psycopg3/psycopg3/adapt.py: the maps from classes to dumpers and from oids to
-- loaders, which copies of an object share until one of them is changed.
pub mod Shared
pub mod Separate
pub mod Maps
mod Tests

-- ===== src/Queries.antt =====
-- psycopg3/psycopg3/_queries.py: Python placeholders turned into PostgreSQL's, and the parameters
-- put into their order. A query and a name are the bytes of their encoding.
mod Defs
pub mod Split
pub mod Convert
unfoldable pub use Defs.*
unfoldable pub use Split.{split_query}
pub use Split.{Match}
unfoldable pub use Convert.{query2pg, validate_and_reorder_params}

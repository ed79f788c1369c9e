-- ===== src/Lib.antt =====
-- psycopg3, the PostgreSQL adapter: the parts of the Python package psycopg3/psycopg3 that
-- decide what is sent to the server and what is read back.
--
-- A cursor converts a query with Python placeholders to the server's own (Queries, for
-- psycopg3/psycopg3/_queries.py), asks the cache of prepared statements how to send it, and
-- brings the cache up to date afterwards (Preparing, for psycopg3/psycopg3/_preparing.py and
-- `_maybe_prepare_gen` of psycopg3/psycopg3/cursor.py). The query is sent and its results are
-- read by loops over calls of libpq that do not block (Protocol, for
-- psycopg3/psycopg3/generators.py). What comes back a cursor keeps as results, which are
-- fetched, scrolled and gone through (Cursor, for psycopg3/psycopg3/cursor.py). COPY has rows
-- formatted and parsed, in text and in binary, and a formatter that buffers what is to be sent
-- (Copy, for psycopg3/psycopg3/copy.py), and again in C (Copy/Accelerated, for
-- psycopg3_c/psycopg3_c/_psycopg3/copy.pyx). Values are adapted by dumpers and loaders, which
-- maps that share their dictionaries find (Adapt, for psycopg3/psycopg3/adapt.py); those of
-- lists and of tuples are modelled (Arrays, for psycopg3/psycopg3/types/array.py, and
-- Composites, for psycopg3/psycopg3/types/composite.py). An error of the server becomes an
-- exception by its SQLSTATE (Errors, for psycopg3/psycopg3/errors.py). A transaction block sends
-- the commands of a transaction or a savepoint when it is entered and left (Transaction, for
-- psycopg3/psycopg3/transaction.py and the commit and rollback of
-- psycopg3/psycopg3/connection.py). Programs get their connections from a pool, which threads of
-- clients, workers and a scheduler share (Pool, for psycopg3/psycopg3/pool/base.py and
-- psycopg3/psycopg3/pool/pool.py).
--
-- Files:
--   Prelude           lists, numbers, equality, decimal digits, ordered dictionaries
--   Preparing         Prepare, PrepareManager.get and .maintain, as `get` and `maintain`
--   Preparing/Session the server's prepared statements and `maybe_prepare`
--   Queries/Split     the regular expression `_re_placeholder` and `_split_query`
--   Queries/Convert   `_query2pg` and `_validate_and_reorder_params`; Order: the names as they occur first; Table: their numbers
--   Protocol          `execute`, `send`, `fetch`, `fetch_many`; Behaviour: what they rely on in libpq
--   Cursor            `_execute_results`, `_executemany_gen`, `nextset`, the fetching methods, `_scroll`
--   Cursor/Fetch      rows fetched by any calls
--   Cursor/Results    the results in turn, positions, and `rowcount`
--   Copy/Text         `_format_row_text` and `_parse_row_text`
--   Copy/Binary       `_format_row_binary` and `_parse_row_binary`
--   Copy/Formatter    `TextFormatter` and `BinaryFormatter`
--   Copy/Escaping     the text format with any choice of the bytes behind backslashes
--   Copy/Accelerated/Format, Parse, Binary
--                     `format_row_text`, `parse_row_text`, and the binary format, in C
--   Adapt/Shared      dictionaries that are shared, with the flags that say who owns them
--   Adapt/Maps        `AdaptersMap`; Ops, Eager: the same with no sharing; Lookup: the search
--   Arrays/Dump, Load `ListDumper.dump` and `ArrayLoader.load`
--   Arrays/Binary     `ListBinaryDumper.dump` and `ArrayBinaryLoader.load`
--   Composites        `TupleDumper.dump` and `RecordLoader.load`
--   Errors            `lookup`, `get_base_exception`, `_class_for_state`
--   Errors/Lower, Upper the classes declared with a code
--   Transaction       `_enter_gen`, `_exit_gen` and what they call, `Connection.commit`
--   Transaction/Backend the commands and the server
--   Transaction/Block   a block that is entered and left, alone
--   Transaction/Atomic  a block with any body
--   Pool/Client       `WaitingClient`
--   Pool/Attempt      `ConnectionAttempt`
--   Pool/State        the fields of `BasePool` and `ConnectionPool`, and the tasks
--   Pool/Requests     `getconn` and `_add_to_pool`
--   Pool/Maintain     `putconn`, `check` and the methods that tasks run
--   Pool/Control      the constructor, `resize`, `close`, `wait` and the running of tasks
--   Pool/World        the steps that threads take, one critical section or task each
--   Pool/Balance, Growth, Handover, Shut, Idle
--                     the count, the growth, who is served, and who is not after `close`,
--                     and that nobody waits in vain
--
-- Bytes are natural numbers, and a text is the list of its bytes; that each is below 256 is
-- never needed. Errors are values with a reason in place of the message's words. The server is a
-- parameter: Preparing.Session.Server with what PREPARE and DEALLOCATE do to one name,
-- Protocol.Behaviour.Behaves with what the calls of libpq do, and that the server takes a query
-- and answers after some number of waits, Transaction.Backend.Server with what the commands on
-- transactions and savepoints do, where COMMIT in a transaction that has not failed succeeds:
-- constraints that are deferred to it are left out. Every loop is structural recursion, but for
-- those over the tokens of an array and of a record, whose fuel is the number of bytes, since
-- each round takes one at least; and for those of the protocol, and for the attempts to connect,
-- for which there is fuel that is enough. The counters of the C code, `int` there, are natural
-- numbers, which differ from them for items of 2 GiB or more. The sizes of the binary formats
-- are those of struct's "!h" and "!i". Not modelled: the adaptation of single values to bytes
-- and back, but for lists and tuples, logging, times spent, the asyncio twins of the classes,
-- and libpq. A task of the pool is run in one step, with what the server, the callbacks and the
-- clock gave as its arguments, and steps of other threads come before or after it, but for
-- `close`, which may come while a task is running (Pool/Shut); times are whole units, and the
-- jitter is an argument.
pub mod Prelude
pub mod Preparing
pub mod Queries
pub mod Adapt
pub mod Protocol
pub mod Cursor
pub mod Copy
pub mod Arrays
pub mod Composites
pub mod Errors
pub mod Transaction
pub mod Pool

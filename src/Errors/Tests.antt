-- ===== src/Errors/Tests.antt =====
-- Runs of the model of psycopg3/psycopg3/errors.py.
use psycopg.Prelude.{◌≡◌, refl, none, some, [], codes}
use psycopg.Errors.{
  dbapi, declared, integrity_error, operational_error, programming_error, class_for_state,
}
use psycopg.Errors.Lookup.{sqlcodes}

unique_violation :
    class_for_state sqlcodes (codes "23505")
    ≡ some (declared (codes "UniqueViolation") integrity_error)
unfolding class_for_state sqlcodes
unique_violation = refl

-- Codes that are not declared.
foreign_data : class_for_state sqlcodes (codes "HV999") ≡ some (dbapi operational_error)
unfolding class_for_state sqlcodes
foreign_data = refl

syntax : class_for_state sqlcodes (codes "42999") ≡ some (dbapi programming_error)
unfolding class_for_state sqlcodes
syntax = refl

-- A result with no SQLSTATE has no class: IndexError is raised instead.
no_state : class_for_state sqlcodes [] ≡ none
unfolding class_for_state sqlcodes
no_state = refl

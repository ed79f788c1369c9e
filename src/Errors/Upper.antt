-- ===== src/Errors/Upper.antt =====
-- The exceptions of psycopg3/psycopg3/errors.py by SQLSTATE, the last of them.
use psycopg.Prelude.{List, [], ◌∷◌, codes}
use psycopg.Errors.{
  Row, coded, database_error, internal_error, operational_error, programming_error,
}

unfoldable pub from_38000 : List Row
from_38000 =
    coded (codes "38000") (codes "ExternalRoutineException") operational_error
    ∷ coded (codes "38001") (codes "ContainingSqlNotPermitted") operational_error
    ∷ coded (codes "38002") (codes "ModifyingSqlDataNotPermittedExt") operational_error
    ∷ coded (codes "38003") (codes "ProhibitedSqlStatementAttemptedExt") operational_error
    ∷ coded (codes "38004") (codes "ReadingSqlDataNotPermittedExt") operational_error
    ∷ coded (codes "39000") (codes "ExternalRoutineInvocationException") operational_error
    ∷ coded (codes "39001") (codes "InvalidSqlstateReturned") operational_error
    ∷ coded (codes "39004") (codes "NullValueNotAllowedExt") operational_error
    ∷ coded (codes "39P01") (codes "TriggerProtocolViolated") operational_error
    ∷ coded (codes "39P02") (codes "SrfProtocolViolated") operational_error
    ∷ coded (codes "39P03") (codes "EventTriggerProtocolViolated") operational_error
    ∷ coded (codes "3B000") (codes "SavepointException") operational_error
    ∷ coded (codes "3B001") (codes "InvalidSavepointSpecification") operational_error
    ∷ coded (codes "3D000") (codes "InvalidCatalogName") programming_error
    ∷ coded (codes "3F000") (codes "InvalidSchemaName") programming_error
    ∷ coded (codes "40000") (codes "TransactionRollback") operational_error
    ∷ coded (codes "40001") (codes "SerializationFailure") operational_error
    ∷ coded (codes "40002") (codes "TransactionIntegrityConstraintViolation") operational_error
    ∷ coded (codes "40003") (codes "StatementCompletionUnknown") operational_error
    ∷ coded (codes "40P01") (codes "DeadlockDetected") operational_error
    ∷ []

unfoldable pub from_42000 : List Row
from_42000 =
    coded (codes "42000") (codes "SyntaxErrorOrAccessRuleViolation") programming_error
    ∷ coded (codes "42501") (codes "InsufficientPrivilege") programming_error
    ∷ coded (codes "42601") (codes "SyntaxError") programming_error
    ∷ coded (codes "42602") (codes "InvalidName") programming_error
    ∷ coded (codes "42611") (codes "InvalidColumnDefinition") programming_error
    ∷ coded (codes "42622") (codes "NameTooLong") programming_error
    ∷ coded (codes "42701") (codes "DuplicateColumn") programming_error
    ∷ coded (codes "42702") (codes "AmbiguousColumn") programming_error
    ∷ coded (codes "42703") (codes "UndefinedColumn") programming_error
    ∷ coded (codes "42704") (codes "UndefinedObject") programming_error
    ∷ coded (codes "42710") (codes "DuplicateObject") programming_error
    ∷ coded (codes "42712") (codes "DuplicateAlias") programming_error
    ∷ coded (codes "42723") (codes "DuplicateFunction") programming_error
    ∷ coded (codes "42725") (codes "AmbiguousFunction") programming_error
    ∷ coded (codes "42803") (codes "GroupingError") programming_error
    ∷ coded (codes "42804") (codes "DatatypeMismatch") programming_error
    ∷ coded (codes "42809") (codes "WrongObjectType") programming_error
    ∷ coded (codes "42830") (codes "InvalidForeignKey") programming_error
    ∷ coded (codes "42846") (codes "CannotCoerce") programming_error
    ∷ coded (codes "42883") (codes "UndefinedFunction") programming_error
    ∷ coded (codes "428C9") (codes "GeneratedAlways") programming_error
    ∷ coded (codes "42939") (codes "ReservedName") programming_error
    ∷ coded (codes "42P01") (codes "UndefinedTable") programming_error
    ∷ coded (codes "42P02") (codes "UndefinedParameter") programming_error
    ∷ coded (codes "42P03") (codes "DuplicateCursor") programming_error
    ∷ coded (codes "42P04") (codes "DuplicateDatabase") programming_error
    ∷ coded (codes "42P05") (codes "DuplicatePreparedStatement") programming_error
    ∷ coded (codes "42P06") (codes "DuplicateSchema") programming_error
    ∷ coded (codes "42P07") (codes "DuplicateTable") programming_error
    ∷ []

unfoldable pub from_42p08 : List Row
from_42p08 =
    coded (codes "42P08") (codes "AmbiguousParameter") programming_error
    ∷ coded (codes "42P09") (codes "AmbiguousAlias") programming_error
    ∷ coded (codes "42P10") (codes "InvalidColumnReference") programming_error
    ∷ coded (codes "42P11") (codes "InvalidCursorDefinition") programming_error
    ∷ coded (codes "42P12") (codes "InvalidDatabaseDefinition") programming_error
    ∷ coded (codes "42P13") (codes "InvalidFunctionDefinition") programming_error
    ∷ coded (codes "42P14") (codes "InvalidPreparedStatementDefinition") programming_error
    ∷ coded (codes "42P15") (codes "InvalidSchemaDefinition") programming_error
    ∷ coded (codes "42P16") (codes "InvalidTableDefinition") programming_error
    ∷ coded (codes "42P17") (codes "InvalidObjectDefinition") programming_error
    ∷ coded (codes "42P18") (codes "IndeterminateDatatype") programming_error
    ∷ coded (codes "42P19") (codes "InvalidRecursion") programming_error
    ∷ coded (codes "42P20") (codes "WindowingError") programming_error
    ∷ coded (codes "42P21") (codes "CollationMismatch") programming_error
    ∷ coded (codes "42P22") (codes "IndeterminateCollation") programming_error
    ∷ coded (codes "44000") (codes "WithCheckOptionViolation") programming_error
    ∷ coded (codes "53000") (codes "InsufficientResources") operational_error
    ∷ coded (codes "53100") (codes "DiskFull") operational_error
    ∷ coded (codes "53200") (codes "OutOfMemory") operational_error
    ∷ coded (codes "53300") (codes "TooManyConnections") operational_error
    ∷ coded (codes "53400") (codes "ConfigurationLimitExceeded") operational_error
    ∷ coded (codes "54000") (codes "ProgramLimitExceeded") operational_error
    ∷ coded (codes "54001") (codes "StatementTooComplex") operational_error
    ∷ coded (codes "54011") (codes "TooManyColumns") operational_error
    ∷ coded (codes "54023") (codes "TooManyArguments") operational_error
    ∷ []

unfoldable pub from_55000 : List Row
from_55000 =
    coded (codes "55000") (codes "ObjectNotInPrerequisiteState") operational_error
    ∷ coded (codes "55006") (codes "ObjectInUse") operational_error
    ∷ coded (codes "55P02") (codes "CantChangeRuntimeParam") operational_error
    ∷ coded (codes "55P03") (codes "LockNotAvailable") operational_error
    ∷ coded (codes "55P04") (codes "UnsafeNewEnumValueUsage") operational_error
    ∷ coded (codes "57000") (codes "OperatorIntervention") operational_error
    ∷ coded (codes "57014") (codes "QueryCanceled") operational_error
    ∷ coded (codes "57P01") (codes "AdminShutdown") operational_error
    ∷ coded (codes "57P02") (codes "CrashShutdown") operational_error
    ∷ coded (codes "57P03") (codes "CannotConnectNow") operational_error
    ∷ coded (codes "57P04") (codes "DatabaseDropped") operational_error
    ∷ coded (codes "58000") (codes "SystemError") operational_error
    ∷ coded (codes "58030") (codes "IoError") operational_error
    ∷ coded (codes "58P01") (codes "UndefinedFile") operational_error
    ∷ coded (codes "58P02") (codes "DuplicateFile") operational_error
    ∷ coded (codes "72000") (codes "SnapshotTooOld") database_error
    ∷ coded (codes "F0000") (codes "ConfigFileError") operational_error
    ∷ coded (codes "F0001") (codes "LockFileExists") operational_error
    ∷ []

unfoldable pub from_hv000 : List Row
from_hv000 =
    coded (codes "HV000") (codes "FdwError") operational_error
    ∷ coded (codes "HV001") (codes "FdwOutOfMemory") operational_error
    ∷ coded (codes "HV002") (codes "FdwDynamicParameterValueNeeded") operational_error
    ∷ coded (codes "HV004") (codes "FdwInvalidDataType") operational_error
    ∷ coded (codes "HV005") (codes "FdwColumnNameNotFound") operational_error
    ∷ coded (codes "HV006") (codes "FdwInvalidDataTypeDescriptors") operational_error
    ∷ coded (codes "HV007") (codes "FdwInvalidColumnName") operational_error
    ∷ coded (codes "HV008") (codes "FdwInvalidColumnNumber") operational_error
    ∷ coded (codes "HV009") (codes "FdwInvalidUseOfNullPointer") operational_error
    ∷ coded (codes "HV00A") (codes "FdwInvalidStringFormat") operational_error
    ∷ coded (codes "HV00B") (codes "FdwInvalidHandle") operational_error
    ∷ coded (codes "HV00C") (codes "FdwInvalidOptionIndex") operational_error
    ∷ coded (codes "HV00D") (codes "FdwInvalidOptionName") operational_error
    ∷ coded (codes "HV00J") (codes "FdwOptionNameNotFound") operational_error
    ∷ coded (codes "HV00K") (codes "FdwReplyHandle") operational_error
    ∷ coded (codes "HV00L") (codes "FdwUnableToCreateExecution") operational_error
    ∷ coded (codes "HV00M") (codes "FdwUnableToCreateReply") operational_error
    ∷ coded (codes "HV00N") (codes "FdwUnableToEstablishConnection") operational_error
    ∷ coded (codes "HV00P") (codes "FdwNoSchemas") operational_error
    ∷ coded (codes "HV00Q") (codes "FdwSchemaNotFound") operational_error
    ∷ coded (codes "HV00R") (codes "FdwTableNotFound") operational_error
    ∷ coded (codes "HV010") (codes "FdwFunctionSequenceError") operational_error
    ∷ coded (codes "HV014") (codes "FdwTooManyHandles") operational_error
    ∷ coded (codes "HV021") (codes "FdwInconsistentDescriptorInformation") operational_error
    ∷ coded (codes "HV024") (codes "FdwInvalidAttributeValue") operational_error
    ∷ coded (codes "HV090") (codes "FdwInvalidStringLengthOrBufferLength") operational_error
    ∷ coded (codes "HV091") (codes "FdwInvalidDescriptorFieldIdentifier") operational_error
    ∷ []

unfoldable pub from_p0000 : List Row
from_p0000 =
    coded (codes "P0000") (codes "PlpgsqlError") programming_error
    ∷ coded (codes "P0001") (codes "RaiseException") programming_error
    ∷ coded (codes "P0002") (codes "NoDataFound") programming_error
    ∷ coded (codes "P0003") (codes "TooManyRows") programming_error
    ∷ coded (codes "P0004") (codes "AssertFailure") programming_error
    ∷ coded (codes "XX000") (codes "InternalError_") internal_error
    ∷ coded (codes "XX001") (codes "DataCorrupted") internal_error
    ∷ coded (codes "XX002") (codes "IndexCorrupted") internal_error
    ∷ []

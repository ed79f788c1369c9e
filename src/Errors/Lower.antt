-- ===== src/Errors/Lower.antt =====
-- The exceptions of psycopg3/psycopg3/errors.py by SQLSTATE, the first of them.
use psycopg.Prelude.{List, [], ◌∷◌, codes}
use psycopg.Errors.{
  Row, coded, data_error, database_error, integrity_error, internal_error, not_supported_error,
  operational_error, programming_error,
}

unfoldable pub from_02000 : List Row
from_02000 =
    coded (codes "02000") (codes "NoData") database_error
    ∷ coded (codes "02001") (codes "NoAdditionalDynamicResultSetsReturned") database_error
    ∷ coded (codes "03000") (codes "SqlStatementNotYetComplete") database_error
    ∷ coded (codes "08000") (codes "ConnectionException") operational_error
    ∷ coded (codes "08001") (codes "SqlclientUnableToEstablishSqlconnection") operational_error
    ∷ coded (codes "08003") (codes "ConnectionDoesNotExist") operational_error
    ∷ coded (codes "08004") (codes "SqlserverRejectedEstablishmentOfSqlconnection")
        operational_error
    ∷ coded (codes "08006") (codes "ConnectionFailure") operational_error
    ∷ coded (codes "08007") (codes "TransactionResolutionUnknown") operational_error
    ∷ coded (codes "08P01") (codes "ProtocolViolation") operational_error
    ∷ coded (codes "09000") (codes "TriggeredActionException") database_error
    ∷ coded (codes "0A000") (codes "FeatureNotSupported") not_supported_error
    ∷ coded (codes "0B000") (codes "InvalidTransactionInitiation") database_error
    ∷ coded (codes "0F000") (codes "LocatorException") database_error
    ∷ coded (codes "0F001") (codes "InvalidLocatorSpecification") database_error
    ∷ coded (codes "0L000") (codes "InvalidGrantor") database_error
    ∷ coded (codes "0LP01") (codes "InvalidGrantOperation") database_error
    ∷ coded (codes "0P000") (codes "InvalidRoleSpecification") database_error
    ∷ coded (codes "0Z000") (codes "DiagnosticsException") database_error
    ∷ coded (codes "0Z002") (codes "StackedDiagnosticsAccessedWithoutActiveHandler") database_error
    ∷ coded (codes "20000") (codes "CaseNotFound") programming_error
    ∷ coded (codes "21000") (codes "CardinalityViolation") programming_error
    ∷ []

unfoldable pub from_22000 : List Row
from_22000 =
    coded (codes "22000") (codes "DataException") data_error
    ∷ coded (codes "22001") (codes "StringDataRightTruncation") data_error
    ∷ coded (codes "22002") (codes "NullValueNoIndicatorParameter") data_error
    ∷ coded (codes "22003") (codes "NumericValueOutOfRange") data_error
    ∷ coded (codes "22004") (codes "NullValueNotAllowed") data_error
    ∷ coded (codes "22005") (codes "ErrorInAssignment") data_error
    ∷ coded (codes "22007") (codes "InvalidDatetimeFormat") data_error
    ∷ coded (codes "22008") (codes "DatetimeFieldOverflow") data_error
    ∷ coded (codes "22009") (codes "InvalidTimeZoneDisplacementValue") data_error
    ∷ coded (codes "2200B") (codes "EscapeCharacterConflict") data_error
    ∷ coded (codes "2200C") (codes "InvalidUseOfEscapeCharacter") data_error
    ∷ coded (codes "2200D") (codes "InvalidEscapeOctet") data_error
    ∷ coded (codes "2200F") (codes "ZeroLengthCharacterString") data_error
    ∷ coded (codes "2200G") (codes "MostSpecificTypeMismatch") data_error
    ∷ coded (codes "2200H") (codes "SequenceGeneratorLimitExceeded") data_error
    ∷ coded (codes "2200L") (codes "NotAnXmlDocument") data_error
    ∷ coded (codes "2200M") (codes "InvalidXmlDocument") data_error
    ∷ coded (codes "2200N") (codes "InvalidXmlContent") data_error
    ∷ coded (codes "2200S") (codes "InvalidXmlComment") data_error
    ∷ coded (codes "2200T") (codes "InvalidXmlProcessingInstruction") data_error
    ∷ coded (codes "22010") (codes "InvalidIndicatorParameterValue") data_error
    ∷ coded (codes "22011") (codes "SubstringError") data_error
    ∷ coded (codes "22012") (codes "DivisionByZero") data_error
    ∷ coded (codes "22013") (codes "InvalidPrecedingOrFollowingSize") data_error
    ∷ coded (codes "22014") (codes "InvalidArgumentForNtileFunction") data_error
    ∷ coded (codes "22015") (codes "IntervalFieldOverflow") data_error
    ∷ coded (codes "22016") (codes "InvalidArgumentForNthValueFunction") data_error
    ∷ coded (codes "22018") (codes "InvalidCharacterValueForCast") data_error
    ∷ coded (codes "22019") (codes "InvalidEscapeCharacter") data_error
    ∷ []

unfoldable pub from_2201b : List Row
from_2201b =
    coded (codes "2201B") (codes "InvalidRegularExpression") data_error
    ∷ coded (codes "2201E") (codes "InvalidArgumentForLogarithm") data_error
    ∷ coded (codes "2201F") (codes "InvalidArgumentForPowerFunction") data_error
    ∷ coded (codes "2201G") (codes "InvalidArgumentForWidthBucketFunction") data_error
    ∷ coded (codes "2201W") (codes "InvalidRowCountInLimitClause") data_error
    ∷ coded (codes "2201X") (codes "InvalidRowCountInResultOffsetClause") data_error
    ∷ coded (codes "22021") (codes "CharacterNotInRepertoire") data_error
    ∷ coded (codes "22022") (codes "IndicatorOverflow") data_error
    ∷ coded (codes "22023") (codes "InvalidParameterValue") data_error
    ∷ coded (codes "22024") (codes "UnterminatedCString") data_error
    ∷ coded (codes "22025") (codes "InvalidEscapeSequence") data_error
    ∷ coded (codes "22026") (codes "StringDataLengthMismatch") data_error
    ∷ coded (codes "22027") (codes "TrimError") data_error
    ∷ coded (codes "2202E") (codes "ArraySubscriptError") data_error
    ∷ coded (codes "2202G") (codes "InvalidTablesampleRepeat") data_error
    ∷ coded (codes "2202H") (codes "InvalidTablesampleArgument") data_error
    ∷ coded (codes "22030") (codes "DuplicateJsonObjectKeyValue") data_error
    ∷ coded (codes "22031") (codes "InvalidArgumentForSqlJsonDatetimeFunction") data_error
    ∷ coded (codes "22032") (codes "InvalidJsonText") data_error
    ∷ coded (codes "22033") (codes "InvalidSqlJsonSubscript") data_error
    ∷ coded (codes "22034") (codes "MoreThanOneSqlJsonItem") data_error
    ∷ coded (codes "22035") (codes "NoSqlJsonItem") data_error
    ∷ coded (codes "22036") (codes "NonNumericSqlJsonItem") data_error
    ∷ coded (codes "22037") (codes "NonUniqueKeysInAJsonObject") data_error
    ∷ coded (codes "22038") (codes "SingletonSqlJsonItemRequired") data_error
    ∷ coded (codes "22039") (codes "SqlJsonArrayNotFound") data_error
    ∷ coded (codes "2203A") (codes "SqlJsonMemberNotFound") data_error
    ∷ coded (codes "2203B") (codes "SqlJsonNumberNotFound") data_error
    ∷ coded (codes "2203C") (codes "SqlJsonObjectNotFound") data_error
    ∷ []

unfoldable pub from_2203d : List Row
from_2203d =
    coded (codes "2203D") (codes "TooManyJsonArrayElements") data_error
    ∷ coded (codes "2203E") (codes "TooManyJsonObjectMembers") data_error
    ∷ coded (codes "2203F") (codes "SqlJsonScalarRequired") data_error
    ∷ coded (codes "22P01") (codes "FloatingPointException") data_error
    ∷ coded (codes "22P02") (codes "InvalidTextRepresentation") data_error
    ∷ coded (codes "22P03") (codes "InvalidBinaryRepresentation") data_error
    ∷ coded (codes "22P04") (codes "BadCopyFileFormat") data_error
    ∷ coded (codes "22P05") (codes "UntranslatableCharacter") data_error
    ∷ coded (codes "22P06") (codes "NonstandardUseOfEscapeCharacter") data_error
    ∷ coded (codes "23000") (codes "IntegrityConstraintViolation") integrity_error
    ∷ coded (codes "23001") (codes "RestrictViolation") integrity_error
    ∷ coded (codes "23502") (codes "NotNullViolation") integrity_error
    ∷ coded (codes "23503") (codes "ForeignKeyViolation") integrity_error
    ∷ coded (codes "23505") (codes "UniqueViolation") integrity_error
    ∷ coded (codes "23514") (codes "CheckViolation") integrity_error
    ∷ coded (codes "23P01") (codes "ExclusionViolation") integrity_error
    ∷ coded (codes "24000") (codes "InvalidCursorState") internal_error
    ∷ []

unfoldable pub from_25000 : List Row
from_25000 =
    coded (codes "25000") (codes "InvalidTransactionState") internal_error
    ∷ coded (codes "25001") (codes "ActiveSqlTransaction") internal_error
    ∷ coded (codes "25002") (codes "BranchTransactionAlreadyActive") internal_error
    ∷ coded (codes "25003") (codes "InappropriateAccessModeForBranchTransaction") internal_error
    ∷ coded (codes "25004") (codes "InappropriateIsolationLevelForBranchTransaction") internal_error
    ∷ coded (codes "25005") (codes "NoActiveSqlTransactionForBranchTransaction") internal_error
    ∷ coded (codes "25006") (codes "ReadOnlySqlTransaction") internal_error
    ∷ coded (codes "25007") (codes "SchemaAndDataStatementMixingNotSupported") internal_error
    ∷ coded (codes "25008") (codes "HeldCursorRequiresSameIsolationLevel") internal_error
    ∷ coded (codes "25P01") (codes "NoActiveSqlTransaction") internal_error
    ∷ coded (codes "25P02") (codes "InFailedSqlTransaction") internal_error
    ∷ coded (codes "25P03") (codes "IdleInTransactionSessionTimeout") internal_error
    ∷ coded (codes "26000") (codes "InvalidSqlStatementName") programming_error
    ∷ coded (codes "27000") (codes "TriggeredDataChangeViolation") operational_error
    ∷ coded (codes "28000") (codes "InvalidAuthorizationSpecification") operational_error
    ∷ coded (codes "28P01") (codes "InvalidPassword") operational_error
    ∷ coded (codes "2B000") (codes "DependentPrivilegeDescriptorsStillExist") internal_error
    ∷ coded (codes "2BP01") (codes "DependentObjectsStillExist") internal_error
    ∷ coded (codes "2D000") (codes "InvalidTransactionTermination") internal_error
    ∷ coded (codes "2F000") (codes "SqlRoutineException") operational_error
    ∷ coded (codes "2F002") (codes "ModifyingSqlDataNotPermitted") operational_error
    ∷ coded (codes "2F003") (codes "ProhibitedSqlStatementAttempted") operational_error
    ∷ coded (codes "2F004") (codes "ReadingSqlDataNotPermitted") operational_error
    ∷ coded (codes "2F005") (codes "FunctionExecutedNoReturnStatement") operational_error
    ∷ coded (codes "34000") (codes "InvalidCursorName") programming_error
    ∷ []

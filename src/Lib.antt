-- ===== src/Lib.antt =====
-- A program that reads the changes of a MySQL database from its binlog and applies them to a
-- database of MSSQL. A parser turns each row of a binlog event into a Go struct of the user's
-- data model (mysql/parser). The structs are logged, encoded with gob, in a list per table of a
-- storage engine (syncer/store.go over db). A goroutine scans the log at intervals and applies
-- what it finds to the target through prepared statements (syncer/syncer.go,
-- syncer/store_service.go).
--
-- The modules and the code that they model:
--
--   * Base: the library's names in use, bytes and text, lists and maps, and the result of a Go
--     call (a value, an error or a panic). Db.Interface takes stored values as a type of its
--     own.
--
--   * Reflect: what the program sees of a struct: for each field its gorm tag, type and value.
--     Types of other packages (time, floats, decimal) and their functions are a parameter,
--     `Foreign`.
--
--   * Db: db/types.go as the record `Interface` of operations and of the laws that the log
--     relies on; db/inmemdb.go in Db.Inmem, and in Db.Inmem.Queue as an instance of that
--     interface.
--
--   * Syncer.Columns: getColumns and parseTagSetting of syncer/data_structure.go.
--
--   * Syncer.Statements: buildInsertStatement, buildUpdateStatement, buildDeleteStatement and
--     buildDeleteStatementFromPK of syncer/syncer.go; Text compares them with joined parts,
--     Marks counts their parameters.
--
--   * Syncer.Gob, Syncer.Store: encoding/gob as a parameter with its documented laws, and
--     syncer/store.go over it and over the storage interface. `received` is what gob gives back
--     for a struct: a pointer to a zero value comes back as nil, all other values of the types
--     that the model opens come back as they are, and what comes back for times, floats,
--     decimals and objects is a parameter. Lost has what this does to a NULL.
--
--   * Syncer.Target, Syncer.Writer: database/sql as a parameter, and the methods of Syncer in
--     syncer/syncer.go with the maps of prepared statements.
--
--   * Syncer.Service, Syncer.Schedule: SyncAllModels, Schedule and Stop of
--     syncer/store_service.go; what a goroutine that waits or blocks does is a step on a state.
--
--   * Parser.Tags, Parser.Cells, Parser.Sets, Parser.Fields, Parser.Rows:
--     mysql/parser/parser.go and OnRow of mysql/parser/base_handler.go, with the model of a
--     table, which is also the placeholder that rows are read into, passed on explicitly.
--
--   * Syncer.Service.Coherent: the prepared statements that a scan keeps. Syncer.Writer.Ran and
--     Syncer.Service.Sent: the statements that reach the target, as a relation between two of
--     its states. Syncer.Service.Backlog: a log that holds any changes, encoded, and their
--     scan.
--
--   * Db.Nuts, Db.Localdb: the package nutsdb as a parameter with its documented laws, and
--     db/nutsdb.go over it, an instance of the storage interface in Db.Localdb.Queue. Db.Saves:
--     what the API relies on for the values that Put saves; Db.Inmem.Saved shows it of
--     db/inmemdb.go, and Db.Inmem.Replay compares that storage with plain lists.
--
--   * Parser.Rows.Layouts has what OnRow keeps of the models, Values the types of the values
--     that are read, and Reports the calls row by row. Parser.Sets.Reverse and Parser.Sets.Bits
--     compare reverse and getSet with the library's reverse and with the bits of a number.
--
--   * Parser.Wrapper: mysql/parser/wrapper.go, with canal of go-mysql as a parameter.
--
--   * Api: the methods of API in server/API/api.go. Api.Models: generateStruct. Api.Lifecycle:
--     the start and stop of parser and syncer; `left` is not a field of the code's API: it has
--     the syncers that were replaced while their goroutine had not ended. Api.Events: OnInsert,
--     OnUpdate and OnDelete, as OnRow calls them. Api.Reload: Put and LoadDataModels together,
--     and the API's calls as a step relation. Api.Replication: an abstract program with a queue
--     of changes for each table, and the API's handling of events and ticks, in any order,
--     against it; its EndToEnd goes from these to the statements that the target has run.
--     Api.LogChan: LogChan with the lines that streamStdout of server/handler.go takes, as
--     steps between which texts are logged. Packages of others (crypto, JSON, dynamicstruct)
--     are parameters.
--
--   * Server.Param, Server.Rules: server/param/param.go, with the rules in its tags over the
--     package validator, a parameter with the laws of `required` and `lte`; Server.Rules.Types
--     and Server.Rules.Refused have what these rules let through and refuse.
--
--   * Server.Handler: the handlers and routes of server/handler.go, server/server.go and
--     main.go; what echo makes of a body is a parameter, and where the rules do not matter,
--     also what the validator says.
--
--   * Example: mysql/example/example.go. A type is its fields' tags and types; crypto and the
--     file system are parameters.
--
--   * Tests: concrete parameters and data, and the theorems at them.
--
-- Numbers are natural numbers; an int64 is an integer in its range, and a conversion from
-- uint64 wraps. Loops are recursion on their list. The loops with fuel are OnRow's, with the
-- number of rows, which its index passes; reverse, with the length of the text; and the digits
-- of a number, 20 decimal or 64 binary ones, which is enough for 64 bits. A Go map is an
-- association list, so the models are scanned in the order of the list, where Go's order is
-- any.
--
-- Not modelled: the websocket of streamStdout of server/handler.go behind the taking of lines;
-- logging; SetLogger; a panic inside jsoniter or of its result's conversion; that two
-- goroutines use the storage at the same time; what OnRow has already called where a later row
-- of the event panics, since the calls of an event stand behind the reading of all its rows.
pub mod Base
pub mod Reflect
pub mod Db
pub mod Syncer
pub mod Parser
pub mod Server
pub mod Example
pub mod Api
pub mod Tests

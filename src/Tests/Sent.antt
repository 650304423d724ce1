-- ===== src/Tests/Sent.antt =====
-- The statements that a scan of the table of users runs.
use mysql_to_mssql.Base.{insert as assign}
use mysql_to_mssql.Db.Inmem.{assign as assign_items}
use mysql_to_mssql.Syncer.Columns
use mysql_to_mssql.Syncer.Statements
use mysql_to_mssql.Syncer.Writer
use mysql_to_mssql.Syncer.Writer.Ran.{Ran}

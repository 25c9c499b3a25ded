-- ===== src/Lib.antt =====
-- CloudQuery: the reading of a configuration, the sync of the command line with the columns that it
-- adds to records, the basic transformer plugin, and migrations of destination plugins.
--
-- The command line (cli/) reads YAML files into specs of sources, destinations and transformers
-- (cli/internal/specs/v0), checks that they fit together, and syncs: each record of a source goes
-- through the transformers of a destination, such as plugins/transformer/basic, and through the
-- CLI's own record transformer (cli/internal/transformer) to the destination.
--
-- Specs models cli/internal/specs/v0. Specs/Kind, Registry, WriteMode, MigrateMode and PkMode are
-- the enumerations, over the loop and the JSON form that Enums holds once. Specs/Metadata, Source,
-- Destination and Transformer are the structs with SetDefaults, Validate and GetWarnings.
-- Specs/Expand is the replacement of references, `ReplaceAllFunc` as a scan that counts the
-- characters still to pass over, so that it needs no fuel. Specs/Reader is the state of
-- `SpecReader` and the switch on the kind of a document, Specs/Load the loops over sections, files
-- and paths, and Specs/ReaderValidate the checks and the two constructors. The files, the
-- environment, the clock, the strict YAML decoder and `stripYamlComments` are the record Host.
--
-- Arrow is an interface to github.com/apache/arrow-go and to plugin-sdk's schema package;
-- Arrow/Laws is the documented behaviour that theorems rest on, and Arrow/Plain an instance that
-- has it. RecordTransformer models cli/internal/transformer/transformer.go over that interface.
--
-- Basic models plugins/transformer/basic/client. Basic/Spec is spec/spec.go; Transformation,
-- Matcher and Client are transformers/transformers.go, tablematcher/table_matcher.go and client.go;
-- SchemaUpdater is schemaupdater/schema_updater.go; and Updater, Names, Cells, Columns and Rows are
-- recordupdater/record_updater.go. JSON paths, hashing, templates, globs and plugin-sdk's tables
-- are the record Basic/Tools. The loop of `DropRows` over the rows goes by the number of rows left.
--
-- TableNameChanger models cli/internal/tablenamechanger, the table names that transformers change,
-- for each destination. Sync/Versions is `findMaxCommonVersion` of cli/cmd/sync.go, the choice of
-- the protocol that a plugin is spoken to with; Sync/Shards and Sync/PluginEnv are `parseShard` and
-- `filterPluginEnv` there. The sync itself is cli/cmd/sync_v3.go: Sync/Options are the options of a
-- destination's record transformer, Sync/Messages the loop over the messages of the source with the
-- maps and counters that it writes, and Sync/DeleteStale the deletion of stale rows at its end. The
-- gRPC streams and the encodings are the record Sync/Host; the log of the state is what the
-- destinations accepted. The counters are words of 64 bits.
--
-- Pipeline models cli/internal/transformerpipeline, through which the records go to a destination:
-- the goroutines of the wrappers and the clients are a step relation on the records and answers
-- that each client has, idle seconds included, so that a theorem holds for every order in which
-- they run. A client answers a record with any number of records, in order, as late as it likes or
-- never; its answers may depend on all records before. The relation goes up to the first error, and
-- says nothing about when a call of `Send` or `Recv` returns.
--
-- Destinations models migrations of plugins/destination. Run is a run that stops at the first
-- error; Sdk is what plugin-sdk and arrow-go give. Sqlite is sqlite/client/migrate.go and types.go;
-- Postgres is postgresql/client/migrate.go, list_tables.go and messages.go: Changes the comparison
-- of tables, Sql the names and the text of statements, Migrate what is sent to the server. A
-- statement is a value whose SQL is a function of it; the state holds all statements that were
-- sent, whether or not they succeeded, and the answers of a database may depend on them. pgx's
-- quoting, SHA-256 and pgarrow's types are parameters, and so is how the server reads a name that
-- is not quoted, as that of `drop table` is. Snowflake is what snowflake/client/migrate.go does
-- with one table, and Mysql is mysql/client/types.go.
--
-- A Go map is an association list (Base/Dicts); a pointer or an error is an Option or a Result. Go
-- does not fix the order in which a map is walked; the models walk it in the order of insertion.
-- Text is a sequence of characters. A context that is cancelled, logging and the schemas for
-- documentation are not modelled, nor are the writing of rows, the other plugins, the gRPC
-- transport and the publishing commands.
pub mod Arrow
pub mod Base
pub mod Basic
pub mod Destinations
pub mod Pipeline
pub mod RecordTransformer
pub mod Specs
pub mod Sync
pub mod TableNameChanger

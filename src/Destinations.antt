-- ===== src/Destinations.antt =====
-- The migrations of the destination plugins, plugins/destination/*/client/migrate.go: how the tables of
-- a database are brought to those that the messages ask for.
pub mod Sdk
pub mod Run
pub mod RunLaws
pub mod Sqlite
pub mod Mysql
pub mod Postgres
pub mod Snowflake
pub mod Sample

-- ===== src/Basic.antt =====
-- plugins/transformer/basic: the transformer plugin that changes columns, tables and rows.
pub mod Spec
pub mod SpecRules
pub mod Transformation
pub mod Builds
pub mod Updater
pub mod Names
pub mod Tools
pub mod SchemaUpdater
pub mod Columns
pub mod Cells
pub mod Rows
pub mod Matcher
pub mod Client
pub mod MatcherCache
pub mod ClientBuild
pub mod NamesFound
pub mod PrimaryKeys
pub mod RowsKept
pub mod RowMarks
pub mod RowCount
pub mod RowsDropped
mod Examples
mod KeyExamples

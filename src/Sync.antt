-- ===== src/Sync.antt =====
-- cli/cmd: the sync command. The choice of a protocol version (sync.go), and the sync itself
-- (sync_v3.go): which options the record transformers get, how the messages of the source are handled,
-- and how stale rows are deleted.
pub mod PluginEnv
pub mod Shards
pub mod ShardsAccepted
pub mod PluginEnvRules
pub mod Versions
pub mod VersionsCommon
pub mod Host
pub mod Options
pub mod OptionsChosen
pub mod Messages
pub mod Adds
pub mod Delivered
pub mod DeleteStale
pub mod StaleDeleted
pub mod Totals
mod Examples
mod RunExamples

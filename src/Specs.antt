-- ===== src/Specs.antt =====
-- cli/internal/specs/v0: the specs that a configuration holds, and their reader.
pub mod Enums
pub mod Kind
pub mod Registry
pub mod WriteMode
pub mod MigrateMode
pub mod PkMode
pub mod EnumRoundTrip
pub mod Metadata
pub mod MetadataChecks
pub mod Source
pub mod Destination
pub mod Transformer
pub mod Expand
pub mod ExpandSegments
pub mod Named
pub mod Reader
pub mod Load
pub mod ReaderValidate
pub mod ReaderInvariant
pub mod ReaderVersions
pub mod ReaderReferences
pub mod Rendering
pub mod PluginName
mod Examples

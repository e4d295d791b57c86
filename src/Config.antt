-- ===== src/Config.antt =====
-- src/waf_config.cc: the parts of the configuration's reading that are modelled.
mod Tests
pub mod Base64
pub mod Batches
pub mod Apply
pub mod DataFiles
pub mod Directives
pub mod Includes
pub mod Json
pub mod Parse

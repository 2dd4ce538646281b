-- ===== src/Ini.antt =====
-- `IniParser`: the attributes of a file of lines `attribute = value`.
pub mod Entries
mod Defs
unfoldable pub use Defs.*

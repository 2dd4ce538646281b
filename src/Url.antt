-- ===== src/Url.antt =====
-- utils/format_url.cc and utils/parse_url.cc: the spelling under which a page is known to the
-- crawler, and its split into a host and a path.
mod Defs
pub mod Scan
pub mod Formatted
pub mod Faults
pub mod Canonical
pub mod Parse
unfoldable pub use Defs.*

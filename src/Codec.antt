-- ===== src/Codec.antt =====
-- utils/crypt_string.cc and utils/escape_url.cc: the text codec of the database fields and that of
-- the query strings. Both files hold the same code, up to the byte that marks an escape (`#` or
-- `%`) and the bytes that stand for themselves, so the loops are written once over these two.
mod Defs
pub mod Escaped
pub mod RoundTrip
unfoldable pub use Defs.*

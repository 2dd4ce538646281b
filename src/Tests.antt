-- ===== src/Tests.antt =====
-- The program's own test inputs as tests of the definitions, and the theorems at concrete inputs.
mod Clients
mod Codec
mod Crew
mod Info
mod Ini
mod Master
mod ParseHtml
mod Pool
mod Search
mod Server
mod Spider
mod Sql
mod Url
mod Weights

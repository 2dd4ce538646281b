-- ===== src/Spider.antt =====
-- The spider: the shared memory of its processes, `master.cc`, `crawl_worker.cc` and `parse_worker.cc`.
mod Slots
mod Queue
pub mod Copies
pub mod Ring
pub mod Pages
pub mod Master
pub mod Response
pub mod Worker
pub mod Crew
unfoldable pub use Slots.*
unfoldable pub use Queue.*

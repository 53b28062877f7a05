-- ===== src/Procmon.antt =====
-- procmon (procmon/): what it reads from /proc, and how it takes the files apart.
pub mod Util
pub mod Process
pub mod Summary
pub mod Listing
pub mod MappedFile
pub mod Table
pub mod Format
pub mod System
pub mod Commands
pub mod Report
mod Tests

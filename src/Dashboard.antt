-- ===== src/Dashboard.antt =====
-- cmd/rdpgw/dashboard
pub mod EntryIcon
pub mod File
pub mod AuthUsers
pub mod Entry
pub mod Store
pub mod Icons

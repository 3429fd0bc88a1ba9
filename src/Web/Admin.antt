-- ===== src/Web/Admin.antt =====
-- cmd/rdpgw/web/admin_handlers.go: the handlers of the administration. A handler is one step; what a request
-- holds besides its origin is an argument. Of an answer the status and the user or entry that it shows are kept.
pub mod Origin
pub mod AuthUsers
pub mod InSync
pub mod Helper
pub mod SameOrigin
pub mod Entries
pub mod EntryHandlers
pub mod Withdrawals
pub mod Refusals

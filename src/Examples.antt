-- ===== src/Examples.antt =====
-- Runs of the definitions on concrete inputs.
pub mod Setting
mod Sessions
mod Dialogues
mod Packets
mod Codings
mod Users
mod Rdp
mod Oidc
mod Administration
mod Downloads
mod Uploads
mod Entries
mod Hosts
mod Tokens
mod Access
mod Icons
mod Helper
mod Realms

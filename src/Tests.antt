-- ===== src/Tests.antt =====
-- A small database, runs of the program on it, and the theorems at it.
pub mod Sample
mod Hierarchies
mod Memberships
mod Members
mod Requests
mod Joining
mod Logins
mod Schemas
mod Groups
mod Links
mod Resources
mod Users
mod Pages
mod Own

-- ===== src/Routes.antt =====
-- web/config/config.ts, the route table: a tree of entries, and what it makes of each address.
pub mod Tree
pub mod Table
pub mod Guards
pub mod Drilled

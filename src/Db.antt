-- ===== src/Db.antt =====
-- packages/node/db: the rows of the tables, and the calls of the query builder as an interface.
pub mod Schema
pub mod Table
pub mod Rows
pub mod Effects
pub mod Order
pub mod Memory

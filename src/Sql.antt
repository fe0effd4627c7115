-- ===== src/Sql.antt =====
-- What the program uses of SQL tables: rows in the order of insertion, selected, changed and
-- deleted by a test, inserted under a primary key.
mod Laws
pub use Laws.*

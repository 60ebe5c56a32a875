-- ===== src/Database.antt =====
-- extensions/data_models_row.go and the tables of extensions/postgres/schema, with transactions as
-- functions of the tables. The statements of extensions/postgres/transactional.go and
-- non_transactional.go are in the children.
pub mod Rows
pub mod Tx
pub mod Visibility
pub mod Statements
pub mod Tasks

-- ===== src/State.antt =====
-- scr/state.py: the SQLite store, its tables and their operations.
-- A table is the list of its rows in the order of insertion. What `json` writes into a column and
-- reads back is kept as the value itself, and columns that no query reads are left out.
mod Schema
mod Tables
mod Journal
pub mod Numbering
pub mod Keyed
unfoldable pub use Schema.*
unfoldable pub use Tables.*
unfoldable pub use Journal.*

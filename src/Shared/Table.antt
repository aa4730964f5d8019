-- ===== src/Shared/Table.antt =====
-- A table as the list of its rows, with the statements of SQL that the repositories issue on it.
mod Defs
mod Laws
mod Single
mod Rows
unfoldable pub use Defs.{
  find_first, exists_where, select, update_where, delete_where, count_where, insert,
}
pub use Single.*
pub use Rows.*
pub use Laws.*

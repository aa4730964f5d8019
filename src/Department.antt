-- ===== src/Department.antt =====
-- The department module (src/modules/department): its repository, the traversal of the hierarchy
-- and the service; the children prove that the hierarchy stays a forest.
mod Tests
pub mod Repository
pub mod Subtree
pub mod Operations
pub mod Hierarchy
pub mod Consistency
pub mod Forest
pub mod Insertion
pub mod Requests

-- ===== src/Rbac.antt =====
-- Roles and permissions (src/modules/rbac).
pub mod SystemPermissions
pub mod SystemRoles
pub mod Repository
pub mod Roles
pub mod Assignments
pub mod Guard
pub mod Effective
pub mod Lookups
pub mod Revocation
pub mod Granting
pub mod Access
pub mod Consistency
pub mod Requests
pub mod RoleSafety
pub mod UpdateSafety
pub mod Seeding
pub mod Seedable
pub mod Onboarding
mod Tests

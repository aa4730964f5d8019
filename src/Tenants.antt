-- ===== src/Tenants.antt =====
-- Tenants: their status, plan and settings (src/modules/tenant).
pub mod Status
pub mod Plans
pub mod Repository
pub mod Operations
pub mod Lifecycle
pub mod Requests
pub mod Features
pub mod Onboarding
mod Tests

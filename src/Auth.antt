-- ===== src/Auth.antt =====
-- Who may do what: backend/auth/permissions.ts, policies.ts and middleware.ts.
-- A role is a string in the source: the roles of `RolePermissions` are constructors, and any other
-- string is `other`. A branch, like every identifier, is only compared, so it is a number.
pub mod Policy
pub mod Guards
pub mod Sessions

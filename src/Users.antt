-- ===== src/Users.antt =====
-- Staff accounts: backend/users/repository.ts and service.ts, and the logins of
-- backend/auth/service.ts.
pub mod Password
pub mod Types
pub mod Repository
pub mod Service
pub mod Laws
pub mod Login

-- ===== src/Permission.antt =====
-- Permissions: sets of them as words, and the check of a request (commons/src/permission,
-- data/src/model/permission_model.rs, node/src/public/middleware/user_middleware.rs).
pub mod Words
pub mod Lists
pub mod Access
pub mod Granted

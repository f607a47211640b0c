-- ===== src/Files.antt =====
-- Files as the nodes serve them: data/src/model/file_model.rs and
-- node/src/public/service/file_access_service.rs.
pub mod Model
pub mod Download
pub mod Ranges

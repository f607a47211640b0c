-- ===== src/Reservation.antt =====
-- node/src/public/service/reservation_service.rs: space for a file on one or more nodes.
pub mod Targets
pub mod Capacity
pub mod Fit
pub mod Reserve
pub mod Held
pub mod Rollback
pub mod Outcome
pub mod Success

-- ===== src/Schedule.antt =====
-- src/schedule/: the in-memory store of schedules (keystore.go) and the timer that fires them
-- (timer.go).
pub mod Keystore
pub mod Timer
pub mod Database
pub mod Service

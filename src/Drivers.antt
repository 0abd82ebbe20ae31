-- ===== src/Drivers.antt =====
-- Device drivers: drivers/.
pub mod Screen

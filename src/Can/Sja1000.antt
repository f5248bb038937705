-- ===== src/Can/Sja1000.antt =====
-- The driver of the SJA1000 controller, ksrc/drivers/can/sja1000/rtcan_sja1000.c.
pub mod Chip
pub mod Frames
pub mod Errors
pub mod Interrupt
pub mod Modes
pub mod Setup
pub mod Semaphore
mod Tests

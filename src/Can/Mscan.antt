-- ===== src/Can/Mscan.antt =====
-- The driver of the MSCAN controller, ksrc/drivers/can/mscan/rtcan_mscan.c.
pub mod Chip
pub mod Frames
pub mod Interrupt
pub mod Modes
pub mod Setup
mod Tests

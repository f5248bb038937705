-- ===== src/Serial.antt =====
-- The serial driver ksrc/drivers/serial/16550A.c with the profile of include/rtdm/rtserial.h.
mod Tests
pub mod Types
pub mod Queue
pub mod Irq
pub mod Config
pub mod Transfer
pub mod Device
pub mod Ioctl
pub mod Module

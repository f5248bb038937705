-- ===== src/Rtdm.antt =====
-- The RTDM layer over native Linux: include/rtdm and ksrc/skins/rtdm/native.
pub mod Errno
pub mod Sem
pub mod Mutex
pub mod Event
pub mod Device

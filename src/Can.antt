-- ===== src/Can.antt =====
-- The CAN drivers of ksrc/drivers/can: the raw protocol, the device table and the virtual driver.
pub mod Types
pub mod Run
pub mod Dev
pub mod Filter
pub mod Ring
pub mod Recvmsg
pub mod Socket
pub mod Raw
pub mod Receive
pub mod Sendmsg
pub mod Virt
pub mod Sja1000
pub mod Mscan
pub mod Ioctl

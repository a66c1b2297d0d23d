-- ===== src/Video.antt =====
-- vmware_video: the lock that the accelerant and the kernel driver share, the command ring, and the
-- driver's device.
pub mod Benaphore
pub mod Fifo
pub mod Driver
pub mod Modes
pub mod Loading
pub mod Cursor
pub mod Startup
pub mod Hooks

-- ===== src/Hcd.antt =====
-- The kernel module: a virtual host controller (module/vds_hcd_core.c) and the USB device on its one
-- port (module/vds_usb_core.c).
pub mod Types
pub mod Descriptors
pub mod Profile
pub mod Usb
pub mod Device
pub mod Iso
pub mod Giveback
pub mod Urbs
pub mod Writes
pub mod Port
pub mod Hub
pub mod Buffers
pub mod Calls
mod Tests

-- ===== src/RawDevice.antt =====
-- The raw devices of driver/main.c: what `raw_ioctl` does, and binding, opening and releasing.
pub mod Bitmap
pub mod Ioctl
pub mod Bind

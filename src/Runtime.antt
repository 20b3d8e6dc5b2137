-- ===== src/Runtime.antt =====
-- src/runtime.rs: the module below has its errors; its machines, codecs, sessions and
-- transports have files of their own.
pub mod Error

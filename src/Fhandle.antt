-- ===== src/Fhandle.antt =====
-- src/cext/os/fhandle.c: a struct file_handle as a Python object, and as bytes.
pub mod Handle
pub mod HandleLaws
mod Examples

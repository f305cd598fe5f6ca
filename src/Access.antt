-- ===== src/Access.antt =====
-- src/cext/os/acl_check.c: which path components a list of credentials cannot access.
pub mod Creds
pub mod CredsLaws
pub mod Pipe
pub mod PipeLaws
pub mod Child
pub mod Denials
pub mod KernelLaws
pub mod ChildLaws
pub mod Check
pub mod Failures
pub mod CheckLaws
mod Examples

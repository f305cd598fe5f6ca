-- ===== src/Nfs4.antt =====
-- src/cext/os/nfs4acl.c: the NFSv4 ACL types, their XDR form, inheritance and validation.
pub mod Types
pub mod Slot
pub mod Acl
pub mod Wire
pub mod RoundTrip
pub mod Inherit
pub mod Valid
pub mod Entries
pub mod Flags
pub mod Children
pub mod Inherited
pub mod InheritLaws
pub mod ValidLoop
pub mod ValidLaws
pub mod InheritValid
pub mod Safety
mod Examples

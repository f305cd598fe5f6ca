-- ===== src/Posix.antt =====
-- src/cext/os/posixacl.c: POSIX.1e ACLs, their xattr form, inheritance and validation.
pub mod Types
pub mod Acl
pub mod Valid
pub mod EntryTrip
pub mod RoundTrip
pub mod FromAces
pub mod ValidLaws
pub mod Accepted
pub mod InheritLaws
mod Examples

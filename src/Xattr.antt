-- ===== src/Xattr.antt =====
-- src/cext/os/acl.c: ACLs as extended attributes of an open file, and the functions of
-- src/cext/os/truenas_os.c that the module gives for them.
pub mod Calls
pub mod Synthesized
pub mod CallsLaws
pub mod Entry
pub mod EntryLaws
pub mod Generic
pub mod GenericLaws
mod GenericExamples
mod Examples

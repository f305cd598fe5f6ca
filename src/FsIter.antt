-- ===== src/FsIter.antt =====
-- src/cext/os/fsiter.c: the iterator over the files and directories of one filesystem.
pub mod Objects
pub mod Entry
pub mod Stack
pub mod Round
pub mod Next
pub mod Create
pub mod Walk
pub mod Running
pub mod PlainRounds
pub mod EntryLaws
pub mod Rounds
pub mod Looping
pub mod WalkLaws
pub mod CreateLaws
pub mod Trail
pub mod Restore
pub mod RestoreLaws
pub mod Limits
pub mod Sample
mod Examples

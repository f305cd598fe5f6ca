-- ===== src/FsIter/Objects.antt =====
-- src/cext/os/fsiter.h and fsiter.c: the iterator object, and the system calls it makes.
use truenas_pyos.Prelude.{ℕ, Bool, Option, List, bit_or, Bool}
use truenas_pyos.Prelude.Int.{ℤ}
use truenas_pyos.Py.{Result, Exc}
use truenas_pyos.Xattr.Calls.{Reply}

-- A char *, without its NUL.
abbrev pub Text : Type 0
Text = List ℕ

abbrev pub max_depth : ℕ
max_depth = 2048

abbrev pub path_max : ℕ
path_max = 4096

abbrev pub name_max : ℕ
name_max = 255

-- O_PATH, O_NOFOLLOW and O_DIRECTORY as on amd64; O_RDONLY is 0.
abbrev pub o_path : ℕ
o_path = 0o10000000

abbrev pub o_nofollow : ℕ
o_nofollow = 0o400000

abbrev pub o_rdonly : ℕ
o_rdonly = 0

abbrev pub oflags_dir_iter : ℕ
oflags_dir_iter = bit_or o_nofollow 0o200000

abbrev pub resolve_no_symlinks : ℕ
resolve_no_symlinks = 4

-- RESOLVE_NO_XDEV | RESOLVE_NO_SYMLINKS
abbrev pub resolve_flags_iter : ℕ
resolve_flags_iter = bit_or 1 resolve_no_symlinks

abbrev pub eperm : ℕ
eperm = 1

abbrev pub eintr : ℕ
eintr = 4

abbrev pub eacces : ℕ
eacces = 13

abbrev pub exdev : ℕ
exdev = 18

abbrev pub eloop : ℕ
eloop = 40

-- DT_DIR and DT_LNK
abbrev pub dt_dir : ℕ
dt_dir = 4

abbrev pub dt_lnk : ℕ
dt_lnk = 10

-- The number of a descriptor, and the open file behind it.
pub record Fd : Type 0 where
  pub num : ℕ
  pub file : ℕ

-- The fields of a struct statx that the iterator reads.
pub record Statx : Type 0 where
  pub stx_mode : ℕ
  pub stx_ino : ℕ
  pub stx_size : ℕ
  pub stx_btime_sec : ℤ
  pub stx_mnt_id : ℕ

pub record Dirent : Type 0 where
  pub d_name : Text
  pub d_type : ℕ
  pub d_ino : ℕ

-- An answer of readdir(3). With an entry stand the tries to process it that EINTR ended: what
-- PyErr_CheckSignals raises behind each, if anything. Such a try has closed what it opened.
pub data Readdir : Type 0 where
  entry : Dirent → List (Option Exc) → Readdir
  readdir_error : ℕ → Readdir

-- A DIR *: its descriptor, and what readdir is still to answer before the end of the directory.
pub record Dirp : Type 0 where
  pub dir_fd : Fd
  pub answers : List Readdir

-- The system calls, each asked at most once with the same arguments but for the tries that EINTR
-- ended. The directory of openat2 is AT_FDCWD where there is none, and sb_source is the source that
-- statmount(2) tells for a mount. PyUnicode_FromString takes the texts of is_utf8.
pub record FsKernel : Type 0 where
  pub openat2 : Option Fd → Text → ℕ → ℕ → Reply Fd
  pub statx : Fd → Reply Statx
  pub dup : Fd → Reply Fd
  pub fdopendir : Fd → Reply (List Readdir)
  pub sb_source : ℕ → Reply Text
  pub is_utf8 : Text → Bool

-- iter_dir_t
pub record IterDir : Type 0 where
  pub path : Text
  pub dirp : Dirp
  pub ino : ℕ

-- iter_entry_t; `none` is the descriptor -1.
pub record IterEntry : Type 0 where
  pub name : Text
  pub st : Option Statx
  pub fd : Option Fd
  pub is_dir : Bool
  pub is_mount : Bool

-- iter_state_t: what the caller has chosen, and the counters.
pub record IterConfig : Type 0 where
  pub btime_cutoff : ℤ
  pub file_open_flags : ℕ
  pub include_symlinks : Bool
  pub include_mountpoints : Bool

pub record IterState : Type 0 where
  pub config : IterConfig
  pub cnt : ℕ
  pub cnt_bytes : ℕ

-- A FilesystemIterState of Python's.
pub record IterStats : Type 0 where
  pub stats_cnt : ℕ
  pub stats_bytes : ℕ
  pub current_directory : Text

-- The entries that dir_stack() tells, each with its inode.
abbrev pub DirStack : Type 0
DirStack = List (Text × ℕ)

-- The reporting callback with its private data. It does not use the iterator itself.
abbrev pub Callback : Type 0
Callback = DirStack → IterStats → Result (Unit {0})

-- What the iterator does besides what it returns.
pub data Event : Type 0 where
  closed_fd : Fd → Event
  closed_dir : Fd → Event
  reported : DirStack → IterStats → Event

-- FilesystemIteratorObject, the innermost directory first. No cookies are a NULL array; the log has
-- the last event first.
pub record FsIter : Type 0 where
  pub dir_stack : List IterDir
  pub state : IterState
  pub last : IterEntry
  pub cookies : List ℕ
  pub restoring_from_cookie : Bool
  pub reporting_cb_increment : ℕ
  pub reporting_cb : Option Callback
  pub skip_next_recursion : Bool
  pub is_closed : Bool
  pub log : List Event

-- truenas_os.IterInstance
pub record IterInstance : Type 0 where
  pub parent : Text
  pub inst_name : Text
  pub inst_fd : Fd
  pub statxinfo : Statx
  pub isdir : Bool
  pub islnk : Bool
  pub isreg : Bool
  pub ismount : Bool

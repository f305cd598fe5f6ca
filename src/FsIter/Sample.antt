-- ===== src/FsIter/Sample.antt =====
-- A small file system for the tests of src/cext/os/fsiter.c: at "/" a directory "a" with a file "g", a
-- file "f", and a mount point "m".
use truenas_pyos.Prelude.{
  ℕ, suc, zero, ◌+◌, ◌≡◌, refl, ap, Bool, true, false, ◌&&◌, ◌||◌, none, List, [], ◌∷◌, ◌==◌,
  length, if◌then◌else◌,
}
use truenas_pyos.Prelude.Int.{pos}
use truenas_pyos.Xattr.Calls.{done, failed}
use truenas_pyos.FsIter.Objects.{
  Dirent, Fd, FsKernel, IterConfig, IterDir, IterEntry, IterState, Readdir, Statx, Text, entry,
  exdev, resolve_flags_iter,
}
use truenas_pyos.FsIter.Running.{at}

abbrev first_byte : Text → ℕ
first_byte [] = 0
first_byte (c ∷ s) = c

abbrev pub is_directory : ℕ → Bool
is_directory file = file == b'/' || (file == b'a' || file == b'm')

abbrev pub named : ℕ → ℕ → Dirent
named c d_type = record { d_name = c ∷ []; d_type = d_type; d_ino = c }

abbrev pub listing : ℕ → List Readdir
listing file =
    if file == b'/'
    then entry (named b'.' 4) []
      ∷ entry (named b'a' 4) (none ∷ [])
      ∷ entry (named b'f' 8) []
      ∷ entry (named b'm' 4) []
      ∷ []
    else if file == b'a'
    then entry (named b'g' 8) [] ∷ []
    else []

abbrev pub stat_of : ℕ → Statx
stat_of file = record {
  stx_mode = if is_directory file then 0o40755 else 0o100644;
  stx_ino = file;
  stx_size = 10;
  stx_btime_sec = pos 5;
  stx_mnt_id = 1;
}

abbrev pub tank : Text
tank = b't' ∷ []

abbrev pub fd_of : ℕ → Fd
fd_of file = record { num = file; file = file }

abbrev pub dup_of : ℕ → Fd
dup_of file = record { num = file + 1000; file = file }

abbrev pub disk : FsKernel
disk = record {
  openat2 = λ dir name flags resolve.
      if first_byte name == b'm' && resolve == resolve_flags_iter
      then failed exdev
      else done (fd_of (first_byte name));
  statx = λ fd. done (stat_of fd.file);
  dup = λ fd. done (dup_of fd.file);
  fdopendir = λ fd. done (listing fd.file);
  sb_source = λ mnt_id. done tank;
  is_utf8 = λ s. true;
}

abbrev pub with_mountpoints : IterConfig
with_mountpoints = record {
  btime_cutoff = pos 0;
  file_open_flags = 0;
  include_symlinks = false;
  include_mountpoints = true;
}

abbrev pub fresh : IterState
fresh = record { config = with_mountpoints; cnt = 0; cnt_bytes = 0 }

abbrev pub root : IterDir
root = at (b'/' ∷ []) (fd_of b'/') (listing b'/') b'/'

-- A stack of directories in which nothing is left.
abbrev pub empty_dirs : ℕ → List IterDir
empty_dirs zero = []
empty_dirs (suc n) = at (b'/' ∷ []) (fd_of b'/') [] n ∷ empty_dirs n

pub length-empty_dirs : (n : ℕ) → length (empty_dirs n) ≡ n
length-empty_dirs zero = refl
length-empty_dirs (suc n) = ap suc (length-empty_dirs n)

abbrev pub nothing_held : IterEntry
nothing_held = record { name = []; st = none; fd = none; is_dir = false; is_mount = false }

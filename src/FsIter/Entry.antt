-- ===== src/FsIter/Entry.antt =====
-- src/cext/os/fsiter.c: what becomes of an entry of a directory, `process_next_entry`.
use truenas_pyos.Prelude.{
  ℕ, Bool, true, false, not, ◌&&◌, ◌||◌, some, List, [], ◌∷◌, ◌++◌, take, map, bit_or, bit_and,
  ◌==◌, if◌then◌else◌,
}
use truenas_pyos.Prelude.Int.{pos, eqb_ℤ, ltb_ℤ}
use truenas_pyos.Py.{Result, ok, raise, unicode_error}
use truenas_pyos.Nfs4.Valid.{s_isdir}
use truenas_pyos.Xattr.Calls.{done, failed}
use truenas_pyos.Access.Child.{enoent}
use truenas_pyos.FsIter.Objects.{
  Dirent, Fd, FsIter, FsKernel, IterConfig, IterEntry, IterInstance, Statx, Text, closed_fd, dt_dir,
  dt_lnk, eacces, eloop, eperm, exdev, name_max, o_nofollow, o_path, o_rdonly, oflags_dir_iter,
  resolve_flags_iter, resolve_no_symlinks,
}

abbrev pub s_islnk : ℕ → Bool
s_islnk mode = bit_and mode 0o170000 == 0o120000

abbrev pub s_isreg : ℕ → Bool
s_isreg mode = bit_and mode 0o170000 == 0o100000

-- ISDOT and ISDOTDOT
abbrev pub is_dot : Text → Bool
is_dot (c ∷ []) = c == b'.'
is_dot (c ∷ d ∷ []) = c == b'.' && d == b'.'
is_dot _ = false

-- The descriptors that are closed on the way, with FSITER_CONTINUE; what is found, and whether behind
-- a mount point; an errno, with FSITER_ERROR.
pub data Outcome : Type 0 where
  pruned : List Fd → Outcome
  found : Fd → Statx → Bool → Outcome
  fault : ℕ → List Fd → Outcome

abbrev pub is_gone : ℕ → Bool
is_gone e = e == eloop || e == enoent

unfoldable pub btime_cut : IterConfig → Statx → Bool
btime_cut config st =
    not (s_isdir st.stx_mode)
    && not (eqb_ℤ config.btime_cutoff (pos 0))
    && ltb_ℤ config.btime_cutoff st.stx_btime_sec

-- Behind a successful openat2 of the entry itself.
unfoldable pub stat_entry : FsKernel → IterConfig → Fd → Outcome
unfolding btime_cut
stat_entry k config fd = elim (k.statx fd) [
  | done st ↦ if btime_cut config st then pruned (fd ∷ []) else found fd st false
  | failed e ↦ fault e (fd ∷ [])
]

stat_mountpoint : FsKernel → Fd → Outcome
stat_mountpoint k fd = elim (k.statx fd) [
  | done st ↦ found fd st true
  | failed e ↦ fault e (fd ∷ [])
]

-- The second openat2 behind EXDEV.
unfoldable pub mountpoint : FsKernel → IterConfig → Fd → Dirent → Outcome
unfolding stat_mountpoint
mountpoint k config dir_fd d =
    if not config.include_mountpoints
    then pruned []
    else elim (k.openat2 (some dir_fd) d.d_name (bit_or o_path o_nofollow) resolve_no_symlinks) [
      | done fd ↦ stat_mountpoint k fd
      | failed e ↦ if is_gone e then pruned [] else fault e []
    ]

-- The second openat2 behind EPERM and EACCES.
unfoldable pub read_only : FsKernel → IterConfig → Fd → Dirent → Outcome
unfolding stat_entry
read_only k config dir_fd d =
    elim (k.openat2 (some dir_fd) d.d_name (bit_or o_rdonly o_nofollow) resolve_flags_iter) [
      | done fd ↦ stat_entry k config fd
      | failed e ↦ pruned []
    ]

abbrev is_dir_entry : Dirent → Bool
is_dir_entry d = d.d_type == dt_dir

abbrev is_lnk_entry : Dirent → Bool
is_lnk_entry d = d.d_type == dt_lnk

unfoldable pub open_flags : IterConfig → Dirent → ℕ
open_flags config d =
    if is_dir_entry d
    then oflags_dir_iter
    else if is_lnk_entry d
    then bit_or o_path o_nofollow
    else config.file_open_flags

unfoldable pub open_failed : FsKernel → IterConfig → Fd → Dirent → ℕ → Outcome
unfolding mountpoint read_only
open_failed k config dir_fd d e =
    if is_gone e
    then pruned []
    else if e == exdev
    then mountpoint k config dir_fd d
    else if not (is_dir_entry d) && not (is_lnk_entry d) && (e == eperm || e == eacces)
    then read_only k config dir_fd d
    else fault e []

-- What the system calls make of an entry.
unfoldable pub entry_outcome : FsKernel → IterConfig → Fd → Dirent → Outcome
unfolding open_flags open_failed stat_entry
entry_outcome k config dir_fd d =
    if is_lnk_entry d && not config.include_symlinks
    then pruned []
    else elim (k.openat2 (some dir_fd) d.d_name (open_flags config d) resolve_flags_iter) [
      | done fd ↦ stat_entry k config fd
      | failed e ↦ open_failed k config dir_fd d e
    ]

-- The name is stored before anything else.
abbrev pub begin_entry : IterEntry → Dirent → IterEntry
begin_entry last d = record last { name = take name_max d.d_name; is_mount = false }

abbrev pub fill_entry : IterEntry → Dirent → Outcome → IterEntry
fill_entry last d (pruned fds) = begin_entry last d
fill_entry last d (fault e fds) = begin_entry last d
fill_entry last d (found fd st is_mount) = record {
  name = take name_max d.d_name;
  st = some st;
  fd = some fd;
  is_dir = s_isdir st.stx_mode;
  is_mount = is_mount;
}

abbrev pub closed_by : Outcome → List Fd
closed_by (pruned fds) = fds
closed_by (fault e fds) = fds
closed_by (found fd st is_mount) = []

-- The action codes. With a yield stand the descriptor, the statx and the mark of `self->last`, with
-- an error the errno of its message.
pub data Action : Type 0 where
  yield_file : Fd → Statx → Bool → Action
  yield_dir : Fd → Statx → Action
  continue_entry : Action
  error_entry : ℕ → Action

abbrev pub action_of : Outcome → Action
action_of (pruned fds) = continue_entry
action_of (fault e fds) = error_entry e
action_of (found fd st is_mount) =
    if not is_mount && s_isdir st.stx_mode then yield_dir fd st else yield_file fd st is_mount

-- `self->last` and the closed descriptors change in the iterator.
unfoldable pub process_next_entry : FsKernel → FsIter → Fd → Dirent → Action × FsIter
unfolding entry_outcome
process_next_entry k it dir_fd d =
    let outcome = entry_outcome k it.state.config dir_fd d in
    (
      action_of outcome,
      record it {
        last = fill_entry it.last d outcome;
        log = map closed_fd (closed_by outcome) ++ it.log;
      },
    )

-- A descriptor and what statx told of it, as Python sees them.
unfoldable pub create_iter_instance :
    FsKernel → Fd → Statx → Bool → Text → Text → Result IterInstance
create_iter_instance k fd st is_mount parent name =
    if k.is_utf8 parent && k.is_utf8 name
    then ok (record {
      parent = parent;
      inst_name = name;
      inst_fd = fd;
      statxinfo = st;
      isdir = s_isdir st.stx_mode;
      islnk = s_islnk st.stx_mode;
      isreg = s_isreg st.stx_mode;
      ismount = is_mount;
    })
    else raise unicode_error

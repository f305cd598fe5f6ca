-- ===== src/FsIter/EntryLaws.antt =====
-- src/cext/os/fsiter.c: what process_next_entry makes of a file and of a directory.
use truenas_pyos.Prelude.{
  ℕ, ◌+◌, ◌<◌, ◌≡◌, ap, Bool, false, Option, List, ◌∷◌, ◌++◌, map, length, leb_of_lt, ◌%◌, ◌^◌,
}
use truenas_pyos.Xattr.Calls.{done}
use truenas_pyos.FsIter.Entry.{
  Action, Outcome, action_of, closed_by, create_iter_instance, entry_outcome, fill_entry,
  process_next_entry,
}
use truenas_pyos.FsIter.Objects.{
  Callback, Dirent, Dirp, Event, Fd, FsKernel, IterConfig, IterDir, IterEntry, Statx, closed_fd,
  max_depth,
}
use truenas_pyos.FsIter.Round.{
  count_bytes, count_item, give, push_then, returns, round_dir, round_file, yielded,
}
use truenas_pyos.FsIter.Running.{
  IsQuiet, IsText, at, check_and_invoke_reporting_callback-IsQuiet, running,
}
use truenas_pyos.FsIter.Stack.{full_path, open_dirp, push_dir_stack}
use truenas_pyos.FsIter.Walk.{instance_of}

pub process_next_entry-running :
    (k : FsKernel) (config : IterConfig) (increment : ℕ) (cb : Option Callback) (dir_fd : Fd)
    (d : Dirent) (dirs : List IterDir) (last : IterEntry) (cnt bytes : ℕ) (log : List Event)
    (outcome : Outcome) (action : Action)
    → entry_outcome k config dir_fd d ≡ outcome
    → action_of outcome ≡ action
    → process_next_entry k (running config increment cb dirs last cnt bytes log) dir_fd d ≡ (
      action,
      running config increment cb dirs
          (fill_entry last d outcome)
          cnt
          bytes
          (map closed_fd (closed_by outcome) ++ log),
    )
unfolding process_next_entry
process_next_entry-running k config increment cb dir_fd d dirs last cnt bytes log outcome action e
      act =
    rw e (
      ap
        (λ a. (
          a,
          running config increment cb dirs (fill_entry last d outcome) cnt bytes
              (map closed_fd (closed_by outcome) ++ log),
        ))
        act)

pub round_file-running :
    (k : FsKernel) (config : IterConfig) (increment : ℕ) (cb : Option Callback) (cur_dir : IterDir)
    (dirs : List IterDir) (last : IterEntry) (cnt bytes : ℕ) (log : List Event) (fd : Fd)
    (st : Statx) (is_mount : Bool)
    → IsText k
    → IsQuiet cb
    → (log' : List Event) × (round_file k
          (running config increment cb dirs last cnt bytes log)
          cur_dir
          fd
          st
          is_mount
        ≡ returns (yielded (instance_of cur_dir.path last.name fd st is_mount)) (
            running config increment cb dirs last
              ((cnt + 1) % 2 ^ 64)
              ((bytes + st.stx_size) % 2 ^ 64)
              log'))
unfolding round_file create_iter_instance count_item count_bytes
round_file-running k config increment cb cur_dir dirs last cnt bytes log fd st is_mount text quiet =
    let (log', c) =
      check_and_invoke_reporting_callback-IsQuiet k config increment cb text quiet dirs last
        ((cnt + 1) % 2 ^ 64) ((bytes + st.stx_size) % 2 ^ 64) log cur_dir.path false in
    (
      log',
      rw (round_file, create_iter_instance, text cur_dir.path, text last.name)
          (ap (give (instance_of cur_dir.path last.name fd st is_mount)) c),
    )

pub round_dir-running :
    (k : FsKernel) (config : IterConfig) (increment : ℕ) (cb : Option Callback) (cur_dir : IterDir)
    (dirs : List IterDir) (last : IterEntry) (cnt bytes : ℕ) (log : List Event) (fd : Fd)
    (st : Statx) (dirp : Dirp)
    → IsText k
    → IsQuiet cb
    → length dirs < max_depth
    → open_dirp k fd ≡ done dirp
    → (log' : List Event) × (round_dir k
          (running config increment cb dirs last cnt bytes log)
          cur_dir
          fd
          st
        ≡ returns (yielded (instance_of cur_dir.path last.name fd st last.is_mount)) (
            running config increment cb
              (at (full_path cur_dir.path last.name) dirp.dir_fd dirp.answers st.stx_ino ∷ dirs)
              last
              ((cnt + 1) % 2 ^ 64)
              bytes
              log'))
unfolding round_dir create_iter_instance count_item push_dir_stack push_then
round_dir-running k config increment cb cur_dir dirs last cnt bytes log fd st dirp text quiet h
      opened =
    let pushed = at (full_path cur_dir.path last.name) dirp.dir_fd dirp.answers st.stx_ino ∷ dirs in
    let (log', c) =
      check_and_invoke_reporting_callback-IsQuiet k config increment cb text quiet pushed last
        ((cnt + 1) % 2 ^ 64) bytes log cur_dir.path false in
    (
      log',
      rw (text cur_dir.path, text last.name, leb_of_lt max_depth (length dirs) h, opened)
          (ap (give (instance_of cur_dir.path last.name fd st last.is_mount)) c),
    )

-- ===== src/FsIter/Rounds.antt =====
-- src/cext/os/fsiter.c: one round of the loop of `__next__` on an iterator that restores nothing, for
-- each kind of entry.
use truenas_pyos.Prelude.{
  ℕ, suc, ◌+◌, ◌<◌, ◌≡◌, refl, ap, ◌∙◌, Bool, true, false, not, ◌&&◌, Option, List, [], ◌∷◌, ◌++◌,
  map, length, leb_of_lt, ◌==◌, ◌%◌, ◌^◌,
}
use truenas_pyos.Py.{Exc}
use truenas_pyos.Nfs4.Valid.{s_isdir}
use truenas_pyos.Xattr.Calls.{done}
use truenas_pyos.FsIter.Entry.{
  action_of, begin_entry, entry_outcome, fill_entry, found, is_dot, process_next_entry, pruned,
  yield_dir, yield_file,
}
use truenas_pyos.FsIter.EntryLaws.{
  process_next_entry-running, round_dir-running, round_file-running,
}
use truenas_pyos.FsIter.Next.{next_round}
use truenas_pyos.FsIter.Objects.{
  Callback, Dirent, Dirp, Event, Fd, FsKernel, IterConfig, IterDir, IterEntry, Readdir, Statx, Text,
  closed_dir, closed_fd, entry, max_depth,
}
use truenas_pyos.FsIter.PlainRounds.{next_round-entry, next_round-processed}
use truenas_pyos.FsIter.Round.{
  continues, cookie_at, handler_raised, pop_then, returns, round_action, round_dirent, round_end,
  yielded,
}
use truenas_pyos.FsIter.Running.{
  IsQuiet, IsText, at, check_and_invoke_reporting_callback-IsQuiet, running,
}
use truenas_pyos.FsIter.Stack.{full_path, open_dirp, pop_dir_stack}
use truenas_pyos.FsIter.Walk.{instance_of, stored_name}

pub next_round-dot :
    (k : FsKernel) (config : IterConfig) (increment : ℕ) (cb : Option Callback) (path : Text)
    (dir_fd : Fd) (d : Dirent) (signals : List (Option Exc)) (rest : List Readdir) (ino : ℕ)
    (below : List IterDir) (last : IterEntry) (cnt bytes : ℕ) (log : List Event)
    → suc (length below) < max_depth
    → is_dot d.d_name ≡ true
    → next_round k (
        running config increment cb
          (at path dir_fd (entry d signals ∷ rest) ino ∷ below)
          last
          cnt
          bytes
          log)
      ≡ continues (running config increment cb (at path dir_fd rest ino ∷ below) last cnt bytes log)
unfolding round_dirent
next_round-dot k config increment cb path dir_fd d signals rest ino below last cnt bytes log h dot =
    next_round-entry k config increment cb path dir_fd d signals rest ino below last cnt bytes log h
    ∙ rw dot refl

pub next_round-pruned :
    (k : FsKernel) (config : IterConfig) (increment : ℕ) (cb : Option Callback) (path : Text)
    (dir_fd : Fd) (d : Dirent) (signals : List (Option Exc)) (rest : List Readdir) (ino : ℕ)
    (below : List IterDir) (last : IterEntry) (cnt bytes : ℕ) (log : List Event) (fds : List Fd)
    → suc (length below) < max_depth
    → is_dot d.d_name ≡ false
    → handler_raised signals ≡ false
    → entry_outcome k config dir_fd d ≡ pruned fds
    → next_round k (
        running config increment cb
          (at path dir_fd (entry d signals ∷ rest) ino ∷ below)
          last
          cnt
          bytes
          log)
      ≡ continues (
          running config increment cb
            (at path dir_fd rest ino ∷ below)
            (begin_entry last d)
            cnt
            bytes
            (map closed_fd fds ++ log))
unfolding process_next_entry round_action
next_round-pruned k config increment cb path dir_fd d signals rest ino below last cnt bytes log fds
      h dot quiet e =
    next_round-processed k config increment cb path dir_fd d signals rest ino below last cnt bytes
      log h dot quiet
    ∙ rw e refl

pub next_round-file :
    (k : FsKernel) (config : IterConfig) (increment : ℕ) (cb : Option Callback) (path : Text)
    (dir_fd : Fd) (d : Dirent) (signals : List (Option Exc)) (rest : List Readdir) (ino : ℕ)
    (below : List IterDir) (last : IterEntry) (cnt bytes : ℕ) (log : List Event) (fd : Fd)
    (st : Statx) (is_mount : Bool)
    → IsText k
    → IsQuiet cb
    → suc (length below) < max_depth
    → is_dot d.d_name ≡ false
    → handler_raised signals ≡ false
    → entry_outcome k config dir_fd d ≡ found fd st is_mount
    → not is_mount && s_isdir st.stx_mode ≡ false
    → (log' : List Event) × (next_round k (
          running config increment cb
            (at path dir_fd (entry d signals ∷ rest) ino ∷ below)
            last
            cnt
            bytes
            log)
        ≡ returns (yielded (instance_of path (stored_name d) fd st is_mount)) (
            running config increment cb
              (at path dir_fd rest ino ∷ below)
              (fill_entry last d (found fd st is_mount))
              ((cnt + 1) % 2 ^ 64)
              ((bytes + st.stx_size) % 2 ^ 64)
              log'))
unfolding round_action
next_round-file k config increment cb path dir_fd d signals rest ino below last cnt bytes log fd st
      is_mount text quiet_cb h dot quiet e nodir =
    let act : action_of (found fd st is_mount) ≡ yield_file fd st is_mount = rw nodir refl in
    let (log', r) =
      round_file-running k config increment cb (at path dir_fd (entry d signals ∷ rest) ino)
        (at path dir_fd rest ino ∷ below) (fill_entry last d (found fd st is_mount)) cnt bytes log
        fd st is_mount text quiet_cb in
    (
      log',
      next_round-processed k config increment cb path dir_fd d signals rest ino below last cnt bytes
            log h dot quiet
          ∙ ap (round_action k (at path dir_fd (entry d signals ∷ rest) ino)) (
              process_next_entry-running k config increment cb dir_fd d
                (at path dir_fd rest ino ∷ below) last cnt bytes log (found fd st is_mount)
                (yield_file fd st is_mount) e act)
          ∙ r,
    )

pub next_round-dir :
    (k : FsKernel) (config : IterConfig) (increment : ℕ) (cb : Option Callback) (path : Text)
    (dir_fd : Fd) (d : Dirent) (signals : List (Option Exc)) (rest : List Readdir) (ino : ℕ)
    (below : List IterDir) (last : IterEntry) (cnt bytes : ℕ) (log : List Event) (fd : Fd)
    (st : Statx) (dirp : Dirp)
    → IsText k
    → IsQuiet cb
    → suc (length below) < max_depth
    → is_dot d.d_name ≡ false
    → handler_raised signals ≡ false
    → entry_outcome k config dir_fd d ≡ found fd st false
    → s_isdir st.stx_mode ≡ true
    → open_dirp k fd ≡ done dirp
    → (log' : List Event) × (next_round k (
          running config increment cb
            (at path dir_fd (entry d signals ∷ rest) ino ∷ below)
            last
            cnt
            bytes
            log)
        ≡ returns (yielded (instance_of path (stored_name d) fd st false)) (
            running config increment cb
              (at (full_path path (stored_name d)) dirp.dir_fd dirp.answers st.stx_ino
                ∷ at path dir_fd rest ino
                ∷ below)
              (fill_entry last d (found fd st false))
              ((cnt + 1) % 2 ^ 64)
              bytes
              log'))
unfolding round_action
next_round-dir k config increment cb path dir_fd d signals rest ino below last cnt bytes log fd st
      dirp text quiet_cb h dot quiet e isdir opened =
    let act : action_of (found fd st false) ≡ yield_dir fd st = rw isdir refl in
    let (log', r) =
      round_dir-running k config increment cb (at path dir_fd (entry d signals ∷ rest) ino)
        (at path dir_fd rest ino ∷ below) (fill_entry last d (found fd st false)) cnt bytes log fd
        st dirp text quiet_cb h opened in
    (
      log',
      next_round-processed k config increment cb path dir_fd d signals rest ino below last cnt bytes
            log h dot quiet
          ∙ ap (round_action k (at path dir_fd (entry d signals ∷ rest) ino)) (
              process_next_entry-running k config increment cb dir_fd d
                (at path dir_fd rest ino ∷ below) last cnt bytes log (found fd st false)
                (yield_dir fd st) e act)
          ∙ r,
    )

pub next_round-end :
    (k : FsKernel) (config : IterConfig) (increment : ℕ) (cb : Option Callback) (path : Text)
    (dir_fd : Fd) (ino : ℕ) (below : List IterDir) (last : IterEntry) (cnt bytes : ℕ)
    (log : List Event)
    → IsText k
    → IsQuiet cb
    → suc (length below) < max_depth
    → (log' : List Event) × (next_round k
          (running config increment cb (at path dir_fd [] ino ∷ below) last cnt bytes log)
        ≡ continues (running config increment cb below last cnt bytes log'))
unfolding next_round round_end cookie_at pop_then pop_dir_stack
next_round-end k config increment cb path dir_fd ino below last cnt bytes log text quiet_cb h =
    let (log', c) =
      check_and_invoke_reporting_callback-IsQuiet k config increment cb text quiet_cb
        (at path dir_fd [] ino ∷ below) last cnt bytes log path (suc (length below) == 1) in
    (closed_dir dir_fd ∷ log', rw (leb_of_lt max_depth (suc (length below)) h, c) refl)

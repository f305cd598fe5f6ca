-- ===== src/FsIter/Limits.antt =====
-- src/cext/os/fsiter.c: the limits of the stack, of `skip` and of a restored iterator, and the
-- iterator that is closed.
use truenas_pyos.Prelude.{
  ℕ, suc, ◌+◌, ◌%◌, ◌^◌, ◌<◌, ◌≡◌, refl, ap, ◌∙◌, inl, inr, true, false, not, Option, some, List,
  [], ◌∷◌, length, arith, leb_of_le, Bool-cases, if◌then◌else◌,
}
use truenas_pyos.Py.{ok, raise, Exc, value_error, skip_not_directory, closed_iterator}
use truenas_pyos.Nfs4.Valid.{s_isdir}
use truenas_pyos.Xattr.Calls.{done}
use truenas_pyos.FsIter.Entry.{entry_outcome, fill_entry, found, is_dot}
use truenas_pyos.FsIter.Looping.{begin_next, done_with}
use truenas_pyos.FsIter.Next.{
  close, closing, enter, get_stats, iter_dir_stack, next, next_loop, next_round, skip, take_skip,
}
use truenas_pyos.FsIter.Objects.{
  Callback, Dirent, Dirp, Event, Fd, FsIter, FsKernel, IterConfig, IterDir, IterEntry, Readdir,
  Statx, Text, closed_fd, entry, max_depth,
}
use truenas_pyos.FsIter.Round.{
  aborted, close_last, continues, cookie_at, handler_raised, push_then, raised, restored,
  round_action, round_dir, round_dirent, round_entry, yielded,
}
use truenas_pyos.FsIter.Rounds.{next_round-dir, next_round-file}
use truenas_pyos.FsIter.Running.{IsQuiet, IsText, at, running}
use truenas_pyos.FsIter.Stack.{full_path, open_dirp, pop_dir_stack}
use truenas_pyos.FsIter.Trail.{process_next_entry-found, push_dir_stack-pushed, restoring}
use truenas_pyos.FsIter.Walk.{instance_of, stored_name}

-- In a directory that stands at the last level but one of the stack, a directory is given without an
-- error, and then every call of `__next__` that is not behind a skip() aborts the process.
pub next-max_depth :
    (k : FsKernel) (config : IterConfig) (increment : ℕ) (cb : Option Callback) (path : Text)
    (dir_fd : Fd) (d : Dirent) (signals : List (Option Exc)) (rest : List Readdir) (ino : ℕ)
    (below : List IterDir) (last : IterEntry) (cnt bytes : ℕ) (log : List Event) (fd : Fd)
    (st : Statx) (dirp : Dirp)
    → IsText k
    → IsQuiet cb
    → suc (suc (length below)) ≡ max_depth
    → is_dot d.d_name ≡ false
    → handler_raised signals ≡ false
    → entry_outcome k config dir_fd d ≡ found fd st false
    → s_isdir st.stx_mode ≡ true
    → open_dirp k fd ≡ done dirp
    → (it : FsIter) × (next_loop k 1 (
          running config increment cb
            (at path dir_fd (entry d signals ∷ rest) ino ∷ below)
            last
            cnt
            bytes
            log)
        ≡ some (yielded (instance_of path (stored_name d) fd st false), it))
      × ((fuel : ℕ) → next k (suc fuel) it ≡ some (aborted, close_last it))
unfolding next next_loop next_round take_skip close_last
next-max_depth k config increment cb path dir_fd d signals rest ino below last cnt bytes log fd st
      dirp text quiet_cb full dot quiet e isdir opened =
    let (log', r) =
      next_round-dir k config increment cb path dir_fd d signals rest ino below last cnt bytes log
        fd st dirp text quiet_cb (omega arith) dot quiet e isdir opened in
    let it =
      running config increment cb
        (at (full_path path (stored_name d)) dirp.dir_fd dirp.answers st.stx_ino
          ∷ at path dir_fd rest ino
          ∷ below)
        (fill_entry last d (found fd st false)) ((cnt + 1) % 2 ^ 64) bytes log' in
    (
      it,
      rw (next_loop, r) refl,
      λ fuel.
          rw
            (
              next,
              next_loop,
              next_round,
              leb_of_le max_depth (suc (suc (length below))) (omega arith),
            )
            refl,
    )

-- Behind a mount point that is a directory skip() is accepted, and it drops what is left of the
-- directory that the mount point stands in.
pub skip-mountpoint :
    (k : FsKernel) (config : IterConfig) (increment : ℕ) (cb : Option Callback) (path : Text)
    (dir_fd : Fd) (d : Dirent) (signals : List (Option Exc)) (rest : List Readdir) (ino : ℕ)
    (below : List IterDir) (last : IterEntry) (cnt bytes : ℕ) (log : List Event) (fd : Fd)
    (st : Statx)
    → IsText k
    → IsQuiet cb
    → suc (length below) < max_depth
    → is_dot d.d_name ≡ false
    → handler_raised signals ≡ false
    → entry_outcome k config dir_fd d ≡ found fd st true
    → s_isdir st.stx_mode ≡ true
    → (it it' : FsIter) × (next_loop k 1 (
          running config increment cb
            (at path dir_fd (entry d signals ∷ rest) ino ∷ below)
            last
            cnt
            bytes
            log)
        ≡ some (yielded (instance_of path (stored_name d) fd st true), it))
      × (skip it ≡ ok it')
      × ((begin_next it').dir_stack ≡ below)
unfolding next_loop skip take_skip close_last pop_dir_stack
skip-mountpoint k config increment cb path dir_fd d signals rest ino below last cnt bytes log fd st
      text quiet_cb h dot quiet e isdir =
    let (log', r) =
      next_round-file k config increment cb path dir_fd d signals rest ino below last cnt bytes log
        fd st true text quiet_cb h dot quiet e refl in
    let it =
      running config increment cb (at path dir_fd rest ino ∷ below)
        (fill_entry last d (found fd st true)) ((cnt + 1) % 2 ^ 64) ((bytes + st.stx_size) % 2 ^ 64)
        log' in
    let skipping = record it { skip_next_recursion = true } in
    (
      it,
      skipping,
      rw (next_loop, r) refl,
      ap (λ b. if not b then raise (value_error skip_not_directory) else ok skipping) isdir,
      refl,
    )

-- An iterator that is restored with the root alone goes into the first directory that it finds, and
-- does not give it.
pub next_round-root_only :
    (k : FsKernel) (config : IterConfig) (increment : ℕ) (cb : Option Callback) (cookie : ℕ)
    (path : Text) (dir_fd : Fd) (d : Dirent) (signals : List (Option Exc)) (rest : List Readdir)
    (ino : ℕ) (last : IterEntry) (cnt bytes : ℕ) (log : List Event) (fd : Fd) (st : Statx)
    (dirp : Dirp)
    → is_dot d.d_name ≡ false
    → handler_raised signals ≡ false
    → entry_outcome k config dir_fd d ≡ found fd st false
    → s_isdir st.stx_mode ≡ true
    → open_dirp k fd ≡ done dirp
    → next_round k (
        restoring config increment cb
          (cookie ∷ [])
          (at path dir_fd (entry d signals ∷ rest) ino ∷ [])
          last
          cnt
          bytes
          log)
      ≡ continues (
          running config increment cb
            (at (full_path path (stored_name d)) dirp.dir_fd dirp.answers st.stx_ino
              ∷ at path dir_fd rest ino
              ∷ [])
            (done_with (fill_entry last d (found fd st false)))
            cnt
            bytes
            (closed_fd fd ∷ log))
unfolding next_round round_dirent cookie_at round_entry round_action round_dir push_then restored
    close_last
next_round-root_only k config increment cb cookie path dir_fd d signals rest ino last cnt bytes log
      fd st dirp dot quiet e isdir opened =
    let cur_dir = at path dir_fd (entry d signals ∷ rest) ino in
    let it =
      restoring config increment cb (cookie ∷ []) (at path dir_fd rest ino ∷ []) last cnt bytes
        log in
    let filled = record it { last = fill_entry last d (found fd st false) } in
    rw (dot, quiet) refl
    ∙ ap (round_action k cur_dir) (process_next_entry-found k it dir_fd d fd st e isdir)
    ∙ ap (push_then (λ pushed. continues (restored pushed)))
        (push_dir_stack-pushed k filled cur_dir fd st dirp (omega arith) opened)

close-closed : (it : FsIter) → it.is_closed ≡ true → close it ≡ it
unfolding close
close-closed it h = ap (λ b. if b then it else closing it) h

close-is_closed : (it : FsIter) → (close it).is_closed ≡ true
unfolding close closing
close-is_closed it = elim (Bool-cases it.is_closed) [
  | inl b ↦ ap (λ x. x.is_closed) (close-closed it b) ∙ b
  | inr b ↦ ap (λ c. (if c then it else closing it).is_closed) b
]

-- What is closed, by close() or at the end of a `with` block, stays closed: __next__, the reports,
-- skip() and __enter__ raise a ValueError and change nothing, and a second close() does nothing.
pub close_lem :
    (k : FsKernel) (it : FsIter) (fuel : ℕ)
    → (next k fuel (close it) ≡ some (raised (value_error closed_iterator), close it))
      × (get_stats k (close it) ≡ raise (value_error closed_iterator))
      × (skip (close it) ≡ raise (value_error closed_iterator))
      × (iter_dir_stack k (close it) ≡ raise (value_error closed_iterator))
      × (enter (close it) ≡ raise (value_error closed_iterator))
      × (close (close it) ≡ close it)
unfolding next get_stats skip iter_dir_stack enter
close_lem k it fuel =
    let closed = close-is_closed it in
    (
      rw closed refl,
      rw closed refl,
      rw closed refl,
      rw closed refl,
      rw closed refl,
      close-closed (close it) closed,
    )

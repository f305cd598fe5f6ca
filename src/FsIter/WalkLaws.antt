-- ===== src/FsIter/WalkLaws.antt =====
-- src/cext/os/fsiter.c: the loop over the stack of directories against the recursive walk.
use mathlib.Core.List.{append_assoc}
use truenas_pyos.Prelude.{
  ℕ, suc, ◌+◌, ◌<◌, ◌≡◌, refl, sym, Bool, true, false, not, ◌&&◌, Option, List, ◌∷◌, ◌++◌, length,
  arith,
}
use truenas_pyos.Nfs4.Valid.{s_isdir}
use truenas_pyos.FsIter.Looping.{Looping, Looping-continues, Looping-skips, Looping-stays}
use truenas_pyos.FsIter.Objects.{
  Callback, Event, Fd, FsKernel, IterConfig, IterDir, IterEntry, IterInstance, Readdir, Statx, Text,
  max_depth,
}
use truenas_pyos.FsIter.Rounds.{
  next_round-dir, next_round-dot, next_round-end, next_round-file, next_round-pruned,
}
use truenas_pyos.FsIter.Running.{IsQuiet, IsText, at, running}
use truenas_pyos.FsIter.Walk.{
  Walk, instance_of, prunes, stored_name, walk_dot, walk_end, walk_file, walk_into, walk_over,
  walk_pruned,
}

and_true : (b : Bool) → b && true ≡ b
and_true true = refl
and_true false = refl

and_false : (b : Bool) → b && false ≡ false
and_false true = refl
and_false false = refl

and_comm : (a b : Bool) → a && b ≡ b && a
and_comm true b = sym (and_true b)
and_comm false b = sym (and_false b)

prunes-file :
    (prune : IterInstance → Bool) (path name : Text) (fd : Fd) (st : Statx) (is_mount : Bool)
    → not is_mount && s_isdir st.stx_mode ≡ false
    → prunes prune (instance_of path name fd st is_mount) ≡ false
prunes-file prune path name fd st is_mount h =
    rw (and_comm (s_isdir st.stx_mode) (not is_mount), h) (and_false _)

prunes-dir :
    (prune : IterInstance → Bool) (path name : Text) (fd : Fd) (st : Statx) (b : Bool)
    → s_isdir st.stx_mode ≡ true
    → prune (instance_of path name fd st false) ≡ b
    → prunes prune (instance_of path name fd st false) ≡ b
prunes-dir prune path name fd st b isdir p = rw (p, isdir) (and_true b)

module _ (k : FsKernel) (config : IterConfig) (increment : ℕ) (cb : Option Callback)
    (prune : IterInstance → Bool) (text : IsText k) (quiet_cb : IsQuiet cb) where
  -- The rest of the iteration, from a stack on, whatever the last entry, the counters and the log.
  abbrev pub Rest : List IterDir → List IterInstance → Type 0
  Rest dirs items =
      (last : IterEntry) (cnt bytes : ℕ) (log : List Event)
      → Looping k prune (running config increment cb dirs last cnt bytes log) items

  -- A walk through the innermost directory, and then the rest.
  pub Walk-Rest :
      {n : ℕ} {path : Text} {dir_fd : Fd} {answers : List Readdir} {items later : List IterInstance}
      (below : List IterDir) (ino : ℕ)
      → Walk k config prune n path dir_fd answers items
      → suc (length below) + n < max_depth
      → Rest below later
      → Rest (at path dir_fd answers ino ∷ below) (items ++ later)
  Walk-Rest {path = path} {dir_fd = dir_fd} below ino walk_end h rest last cnt bytes log =
      let (log', r) =
        next_round-end k config increment cb path dir_fd ino below last cnt bytes log text quiet_cb
          (omega arith) in
      Looping-continues k prune _ _ r (rest last cnt bytes log')
  Walk-Rest {path = path} {dir_fd = dir_fd} below ino (walk_dot {rest = more} d signals dot w) h
        rest last cnt bytes log =
      Looping-continues k prune _ _
        (next_round-dot k config increment cb path dir_fd d signals more ino below last cnt bytes
          log (omega arith) dot)
        (Walk-Rest below ino w h rest last cnt bytes log)
  Walk-Rest {path = path} {dir_fd = dir_fd} below ino
        (walk_pruned {rest = more} d signals fds dot quiet e w) h rest last cnt bytes log =
      Looping-continues k prune _ _
        (next_round-pruned k config increment cb path dir_fd d signals more ino below last cnt bytes
          log fds (omega arith) dot quiet e)
        (Walk-Rest below ino w h rest _ cnt bytes _)
  Walk-Rest {path = path} {dir_fd = dir_fd} below ino
        (walk_file {rest = more} d signals fd st is_mount dot quiet e nodir w) h rest last cnt bytes
        log =
      let (log', r) =
        next_round-file k config increment cb path dir_fd d signals more ino below last cnt bytes
          log fd st is_mount text quiet_cb (omega arith) dot quiet e nodir in
      Looping-stays k config increment cb fd _ _ _ log' _ prune _ _ r refl
        (prunes-file prune path (stored_name d) fd st is_mount nodir)
        (Walk-Rest below ino w h rest _ _ _ _)
  Walk-Rest {path = path} {dir_fd = dir_fd} below ino
        (walk_over {rest = more} d signals fd st dirp dot quiet e isdir opened p w) h rest last cnt
        bytes log =
      let (log', r) =
        next_round-dir k config increment cb path dir_fd d signals more ino below last cnt bytes log
          fd st dirp text quiet_cb (omega arith) dot quiet e isdir opened in
      Looping-skips k config increment cb fd _ _ _ log' _ prune _ _ _ r refl isdir
        (prunes-dir prune path (stored_name d) fd st true isdir p)
        (Walk-Rest below ino w h rest _ _ _ _)
  Walk-Rest {path = path} {dir_fd = dir_fd} {later = later} below ino
        (walk_into {rest = more} {inner = inner} {items = items} d signals fd st dirp dot quiet e
          isdir opened p inside w)
        h rest last cnt bytes log =
      let (log', r) =
        next_round-dir k config increment cb path dir_fd d signals more ino below last cnt bytes log
          fd st dirp text quiet_cb (omega arith) dot quiet e isdir opened in
      let after = Walk-Rest below ino w h rest in
      Looping-stays k config increment cb fd _ _ _ log' _ prune _ _ r refl
        (prunes-dir prune path (stored_name d) fd st false isdir p)
        (rw (append_assoc inner items later) (
          Walk-Rest (at path dir_fd more ino ∷ below) st.stx_ino inside (omega arith) after _ _ _
            _))
